-- ===== src/Scripts/Log/Fields.antt =====
-- What scripts/run_report_experiments.py finds in one line that daemon/src/main.cpp printed.
use quic_keys.Common.{
  ℕ, Bool, true, false, not, ◌&&◌, List, [], ◌∷◌, ◌++◌, some, Bytes, ◌==◌, ◌≡◌, ◌≢◌, refl, sym, ap,
  ap₂, ◌∙◌, arith, ◌⊎◌, inl, inr, All, All-append, length, length-append, append_assoc, append-nil,
}
use quic_keys.Udp.Numbers.{is_digit, IsDigits, put_decimal, put_decimal-IsDigits}
use quic_keys.Scripts.Regex.{
  RegexItem, literal, captured, is_number, is_break, leading, match_at, re_search, leading-append,
  behind-append, re_search-absent, with_group,
}
use quic_keys.Scripts.Log.{parse_float_prefix, float_text, fraction, pointed}

-- Digits, or digits, a point and digits.
pub record IsDecimal (plain : Bytes) : Type 0 where
  pub whole : Bytes
  pub digits : IsDigits whole
  pub some_digit : whole ≢ []
  pub form :
      (plain ≡ whole)
      ⊎ ((decimals : Bytes) × IsDigits decimals
          × (decimals ≢ [])
          × (plain ≡ whole ++ b'.' ∷ decimals))

-- A character that is neither the bracket of a tag nor a line's end.
unfoldable pub is_calm : ℕ → Bool
is_calm c = not (c == b'[') && not (is_break c)

unfoldable pub all_calm : Bytes → Bool
all_calm [] = true
all_calm (c ∷ s) = is_calm c && all_calm s

-- A print that begins with a decimal number, and goes on, if it does, with what is no part of one, like
-- the exponent of `1e+06`.
pub record IsPrint (t plain : Bytes) : Type 0 where
  pub decimal : IsDecimal plain
  pub tail : Bytes
  pub parts : t ≡ plain ++ tail
  pub ends_number : leading is_number tail ≡ []
  pub calm : all_calm t ≡ true

pub all_calm-append : (s t : Bytes) → all_calm (s ++ t) ≡ (all_calm s && all_calm t)
unfolding all_calm
all_calm-append [] t = refl
all_calm-append (c ∷ s) t = ground (arith, all_calm-append s t)

pub all_calm-digits : (s : Bytes) → IsDigits s → all_calm s ≡ true
unfolding all_calm is_calm is_break is_digit
all_calm-digits [] d = refl
all_calm-digits (c ∷ s) (h, d) = ground (arith, h, all_calm-digits s d)

pub all_calm-decimal : (n : ℕ) → all_calm (put_decimal n) ≡ true
all_calm-decimal n = all_calm-digits (put_decimal n) (put_decimal-IsDigits n).0

pub calm-breaks : (s : Bytes) → all_calm s ≡ true → All (λ c. is_break c ≡ false) s
unfolding all_calm is_calm
calm-breaks [] h = tt
calm-breaks (c ∷ s) h = (ground (arith, h), calm-breaks s (ground (arith, h)))

calm-brackets : (s : Bytes) → all_calm s ≡ true → All (λ c. c ≢ b'[') s
unfolding all_calm is_calm
calm-brackets [] h = tt
calm-brackets (c ∷ s) h = (λ e. ground (arith, h, e), calm-brackets s (ground (arith, h)))

-- A pattern of a tag is found at the beginning of a line, or nowhere.
pub re_search-tagged :
    (r : List RegexItem) (s : Bytes)
    → all_calm s ≡ true
    → re_search (literal b'[' ∷ r) (b'[' ∷ s) ≡ match_at (literal b'[' ∷ r) (b'[' ∷ s)
unfolding re_search
re_search-tagged r s h =
    let later = re_search-absent b'[' r s (calm-brackets s h) in ground (arith, later)

numbers-digits : (s : Bytes) → IsDigits s → All (λ c. is_number c ≡ true) s
unfolding is_number is_digit
numbers-digits [] d = tt
numbers-digits (c ∷ s) (h, d) = (ground (arith, h), numbers-digits s d)

parse_float_prefix-parts :
    (whole rest : Bytes)
    → IsDigits whole
    → whole ≢ []
    → leading is_digit rest ≡ []
    → parse_float_prefix (whole ++ rest) ≡ some (whole ++ fraction rest)
unfolding parse_float_prefix
parse_float_prefix-parts [] rest d some_digit stop = absurd (some_digit refl)
parse_float_prefix-parts (c ∷ whole) rest d some_digit stop =
    let taken = leading-append is_digit (c ∷ whole) rest d stop in
    let left = behind-append is_digit (c ∷ whole) rest d stop in ap₂ float_text taken left

fraction-decimals : (s : Bytes) → IsDigits s → s ≢ [] → fraction (b'.' ∷ s) ≡ b'.' ∷ s
unfolding fraction
fraction-decimals [] d some_digit = absurd (some_digit refl)
fraction-decimals (c ∷ s) d some_digit =
    let taken = leading-append is_digit (c ∷ s) [] d (unfold leading in refl) in
    let all : leading is_digit (c ∷ s) ≡ c ∷ s = rw append-nil at taken in ap (pointed b'.') all

-- `_parse_float_prefix` gives back a decimal number.
pub parse_float_prefix-decimal :
    (plain : Bytes) → IsDecimal plain → parse_float_prefix plain ≡ some plain
unfolding leading is_digit fraction
parse_float_prefix-decimal plain d = elim (d.form) [
  | inl whole ↦
      let read = parse_float_prefix-parts d.whole [] d.digits d.some_digit refl in
      rw (whole) (rw append-nil at read)
  | inr (decimals, digits, some_digit, both) ↦
      let read = parse_float_prefix-parts d.whole (b'.' ∷ decimals) d.digits d.some_digit refl in
      rw both (read ∙ ap (λ s. some (d.whole ++ s)) (fraction-decimals decimals digits some_digit))
]

stops :
    (s t : Bytes)
    → leading is_number s ≡ []
    → leading is_number t ≡ []
    → leading is_number (s ++ t) ≡ []
unfolding leading
stops [] t hs ht = ht
stops (c ∷ s) t hs ht = ground (arith, hs)

numbers-decimal : (plain : Bytes) → IsDecimal plain → All (λ c. is_number c ≡ true) plain
unfolding is_number
numbers-decimal plain d = elim (d.form) [
  | inl whole ↦ rw whole (numbers-digits d.whole d.digits)
  | inr (decimals, digits, some_digit, both) ↦ rw both (
      All-append (λ c. is_number c ≡ true) d.whole (b'.' ∷ decimals)
        (numbers-digits d.whole d.digits) (refl, numbers-digits decimals digits))
]

decimal-ne-nil : (plain : Bytes) → IsDecimal plain → plain ≢ []
decimal-ne-nil plain d empty = elim (d.form) [
  | inl whole ↦ d.some_digit (sym whole ∙ empty)
  | inr (decimals, digits, some_digit, both) ↦
      absurd (omega (arith, ap length (sym both ∙ empty), length-append d.whole (b'.' ∷ decimals)))
]

-- A group of a pattern takes the characters of its class.
pub captured-append :
    (p : ℕ → Bool) (r : List RegexItem) (s t : Bytes)
    → All (λ c. p c ≡ true) s
    → s ≢ []
    → leading p t ≡ []
    → match_at (captured p ∷ r) (s ++ t) ≡ with_group s (match_at r t)
unfolding match_at
captured-append p r [] t h some_char stop = absurd (some_char refl)
captured-append p r (c ∷ s) t (hc, h) some_char stop =
    rw (hc, leading-append p s t h stop, behind-append p s t h stop) refl

-- The last group of a pattern, of a print.
pub captured-print :
    (t plain rest : Bytes)
    → IsPrint t plain
    → leading is_number rest ≡ []
    → match_at (captured is_number ∷ []) (t ++ rest) ≡ some (plain ∷ [])
unfolding match_at with_group
captured-print t plain rest p stop =
    let number =
      captured-append is_number [] plain (p.tail ++ rest) (numbers-decimal plain p.decimal)
        (decimal-ne-nil plain p.decimal) (stops p.tail rest p.ends_number stop) in
    rw p.parts (rw append_assoc number)
