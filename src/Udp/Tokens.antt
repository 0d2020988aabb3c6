-- ===== src/Udp/Tokens.antt =====
-- What the tokens of a datagram are.
use quic_keys.Common.{
  ℕ, zero, suc, ◌≤◌, true, false, List, [], ◌∷◌, ◌++◌, ◌≡◌, ◌≢◌, ◌⊎◌, refl, sym, ap, ◌∙◌, arith,
  Bytes, All, if◌then◌else◌, length, Bool-cases, inl, inr,
}
use quic_keys.Udp.{is_separator, skip_separators, word, after_word, tokens, tokenize}
use quic_keys.Stream.Framing.{concat}

-- A token: not empty, and no byte of it separates.
abbrev pub IsToken : Bytes → Type 0
IsToken t = (t ≢ []) × All (λ c. is_separator c ≡ false) t

abbrev pub IsGap : Bytes → Type 0
IsGap = All (λ c. is_separator c ≡ true)

word-All : (s : Bytes) → All (λ c. is_separator c ≡ false) (word s)
unfolding word
word-All [] = tt
word-All (c ∷ s) = elim (Bool-cases (is_separator c)) [
  | inl e ↦ rw e tt
  | inr e ↦ rw e (e, word-All s)
]

length-after_word : (s : Bytes) → length (after_word s) ≤ length s
unfolding after_word
length-after_word [] = omega arith
length-after_word (c ∷ s) = ground (arith, length-after_word s)

length-skip_separators : (s : Bytes) → length (skip_separators s) ≤ length s
unfolding skip_separators
length-skip_separators [] = omega arith
length-skip_separators (c ∷ s) = ground (arith, length-skip_separators s)

-- The bytes that do not separate.
pub letters : Bytes → Bytes
letters [] = []
letters (c ∷ s) = if is_separator c then letters s else c ∷ letters s

letters-skip : (s : Bytes) → letters (skip_separators s) ≡ letters s
unfolding letters skip_separators
letters-skip [] = refl
letters-skip (c ∷ s) = ground (arith, letters-skip s)

letters-word : (s : Bytes) → word s ++ letters (after_word s) ≡ letters s
unfolding letters word after_word
letters-word [] = refl
letters-word (c ∷ s) = ground (arith, letters-word s)

-- Where skipping stops, a token begins.
skip_separators-head :
    (s : Bytes) (c : ℕ) (t : Bytes) → skip_separators s ≡ c ∷ t → is_separator c ≡ false
unfolding skip_separators
skip_separators-head [] c t h = cc
skip_separators-head (x ∷ s) c t h = elim (Bool-cases (is_separator x)) [
  | inl e ↦ skip_separators-head s c t (rw e at h)
  | inr e ↦ let h' : x ∷ s ≡ c ∷ t = rw e at h in cc
]

word-IsToken : (c : ℕ) (t : Bytes) → is_separator c ≡ false → IsToken (word (c ∷ t))
unfolding word
word-IsToken c t e = rw e (λ h. cc, (e, word-All t))

pub tokens_none : (fuel : ℕ) (s : Bytes) → skip_separators s ≡ [] → tokens fuel s ≡ []
unfolding tokens
tokens_none zero s h = refl
tokens_none (suc f) s h = rw (h, tokens)

pub tokens_some :
    (fuel : ℕ) (s : Bytes) (c : ℕ) (t : Bytes)
    → skip_separators s ≡ c ∷ t
    → tokens (suc fuel) s ≡ word (c ∷ t) ∷ tokens fuel (after_word (c ∷ t))
unfolding tokens
tokens_some fuel s c t h = rw (h, tokens)

after_word-shorter :
    (c : ℕ) (t : Bytes) → is_separator c ≡ false → length (after_word (c ∷ t)) ≤ length t
unfolding after_word
after_word-shorter c t e = rw e (length-after_word t)

List-cases {ℓ} : {A : Type ℓ} (l : List A) → (l ≡ []) ⊎ ((x : A) × (xs : List A) × (l ≡ x ∷ xs))
List-cases [] = inl refl
List-cases (x ∷ xs) = inr (x, xs, refl)

tokens_parts :
    (fuel : ℕ) (s : Bytes)
    → length s ≤ fuel
    → All IsToken (tokens fuel s) × (concat (tokens fuel s) ≡ letters s)
tokens_parts zero [] h = unfold tokens letters in (tt, refl)
tokens_parts zero (x ∷ s) h = absurd (omega arith)
tokens_parts (suc f) s h = elim (List-cases (skip_separators s)) [
  | inl e ↦ rw (tokens_none (suc f) s e) (tt, unfold letters in rw e at (letters-skip s))
  | inr (c, t, e) ↦
      let starts = skip_separators-head s c t e in
      let fits : length (after_word (c ∷ t)) ≤ f =
        omega (arith, after_word-shorter c t starts, ap length e, length-skip_separators s) in
      let (rest, kept) = tokens_parts f (after_word (c ∷ t)) fits in
      rw (tokens_some f s c t e) (
        (word-IsToken c t starts, rest),
        ap (λ r. word (c ∷ t) ++ r) kept ∙ letters-word (c ∷ t) ∙ rw e at (letters-skip s),
      )
]

-- The tokens of a datagram are words with no separator in them, and together they hold every byte
-- of it that does not separate, in order: nothing is lost and nothing is made up.
pub tokenize_parts : (s : Bytes) → All IsToken (tokenize s) × (concat (tokenize s) ≡ letters s)
unfolding tokenize
tokenize_parts s = tokens_parts (length s) s (omega arith)

tokens_fuel : (f g : ℕ) (s : Bytes) → length s ≤ f → length s ≤ g → tokens f s ≡ tokens g s
tokens_fuel zero zero s hf hg = refl
tokens_fuel (suc f) zero [] hf hg = unfold tokens skip_separators in refl
tokens_fuel (suc f) zero (x ∷ s) hf hg = absurd (omega arith)
tokens_fuel zero (suc g) [] hf hg = unfold tokens skip_separators in refl
tokens_fuel zero (suc g) (x ∷ s) hf hg = absurd (omega arith)
tokens_fuel (suc f) (suc g) s hf hg = elim (List-cases (skip_separators s)) [
  | inl e ↦ tokens_none (suc f) s e ∙ sym (tokens_none (suc g) s e)
  | inr (c, t, e) ↦
      let shorter = after_word-shorter c t (skip_separators-head s c t e) in
      let fits : suc (length (after_word (c ∷ t))) ≤ length s =
        omega (arith, shorter, ap length e, length-skip_separators s) in
      let rest = tokens_fuel f g (after_word (c ∷ t)) (omega arith) (omega arith) in
      tokens_some f s c t e ∙ ap (λ r. word (c ∷ t) ∷ r) rest ∙ sym (tokens_some g s c t e)
]

-- The loop over a datagram ends: as many rounds as it has bytes are enough, and any more would find no
-- further token.
pub tokens-end : (fuel : ℕ) (s : Bytes) → length s ≤ fuel → tokens fuel s ≡ tokenize s
unfolding tokenize
tokens-end fuel s enough = tokens_fuel fuel (length s) s enough (omega arith)
