-- ===== src/Udp/RoundTrip.antt =====
-- Words in any spacing, and the tokens that they are read as.
use quic_keys.Common.{
  ℕ, zero, suc, ◌≤◌, false, List, [], ◌∷◌, ◌++◌, append-nil, ◌≡◌, ◌≢◌, refl, ap, ◌∙◌, arith, Bytes,
  All, length, length-append,
}
use quic_keys.Udp.Tokens.{IsToken, IsGap, tokens_some, tokens_none}
use quic_keys.Udp.{is_separator, skip_separators, word, after_word, tokens, tokenize}

skip-gap : (g s : Bytes) → IsGap g → skip_separators (g ++ s) ≡ skip_separators s
unfolding skip_separators
skip-gap [] s h = refl
skip-gap (c ∷ g) s (hc, h) = rw hc (skip-gap g s h)

-- `word s ≡ []` says that the text is over or goes on with a separator.
word-append : (w s : Bytes) → All (λ c. is_separator c ≡ false) w → word s ≡ [] → word (w ++ s) ≡ w
unfolding word
word-append [] s h e = e
word-append (c ∷ w) s (hc, h) e = rw hc (ap (λ r. c ∷ r) (word-append w s h e))

after_word-append :
    (w s : Bytes) → All (λ c. is_separator c ≡ false) w → word s ≡ [] → after_word (w ++ s) ≡ s
unfolding after_word word
after_word-append [] [] h e = refl
after_word-append [] (c ∷ s) h e = ground arith
after_word-append (c ∷ w) s (hc, h) e = rw hc (after_word-append w s h e)

-- Words, each behind the separators before it, and the separators at the end.
abbrev pub layout : List (Bytes × Bytes) → Bytes → Bytes
layout [] end = end
layout ((g, w) ∷ ws) end = g ++ (w ++ layout ws end)

abbrev pub words : List (Bytes × Bytes) → List Bytes
words [] = []
words ((g, w) ∷ ws) = w ∷ words ws

-- Words with separators before each.
abbrev pub IsSpread : List (Bytes × Bytes) → Type 0
IsSpread [] = Unit {0}
IsSpread ((g, w) ∷ ws) = (g ≢ []) × IsGap g × IsToken w × IsSpread ws

-- The first word may stand at the start.
abbrev pub IsLayout : List (Bytes × Bytes) → Type 0
IsLayout [] = Unit {0}
IsLayout ((g, w) ∷ ws) = IsGap g × IsToken w × IsSpread ws

word-gap : (g s : Bytes) → g ≢ [] → IsGap g → word (g ++ s) ≡ []
unfolding word
word-gap [] s h gap = absurd (h refl)
word-gap (c ∷ g) s h (hc, gap) = rw hc

word-layout :
    (ws : List (Bytes × Bytes)) (end : Bytes) → IsSpread ws → IsGap end → word (layout ws end) ≡ []
word-layout [] [] h e = unfold word in refl
word-layout [] (c ∷ end) h (hc, e) = unfold word in rw hc
word-layout ((g, w) ∷ ws) end (some_gap, gap, tok, h) e =
    word-gap g (w ++ layout ws end) some_gap gap

skip-token : (w s : Bytes) → IsToken w → skip_separators (w ++ s) ≡ w ++ s
unfolding skip_separators
skip-token [] s (h, t) = absurd (h refl)
skip-token (c ∷ w) s (h, (hc, t)) = rw hc

IsLayout-of_IsSpread : (ws : List (Bytes × Bytes)) → IsSpread ws → IsLayout ws
IsLayout-of_IsSpread [] h = tt
IsLayout-of_IsSpread ((g, w) ∷ ws) (some_gap, gap, t, h) = (gap, t, h)

tokens-layout :
    (fuel : ℕ) (ws : List (Bytes × Bytes)) (end : Bytes)
    → length (layout ws end) ≤ fuel
    → IsLayout ws
    → IsGap end
    → tokens fuel (layout ws end) ≡ words ws
tokens-layout fuel [] end h l e =
    tokens_none fuel end (unfold skip_separators in rw append-nil at (skip-gap end [] e))
tokens-layout fuel ((g, []) ∷ ws) end h (gap, (ne, t), l) e = absurd (ne refl)
tokens-layout zero ((g, c ∷ w) ∷ ws) end h (gap, t, l) e =
    absurd (omega (arith, length-append g ((c ∷ w) ++ layout ws end)))
tokens-layout (suc f) ((g, c ∷ w) ∷ ws) end h (gap, t, l) e =
    let later = layout ws end in
    let apart : word later ≡ [] = word-layout ws end l e in
    let found : skip_separators (g ++ ((c ∷ w) ++ later)) ≡ c ∷ (w ++ later) =
      skip-gap g ((c ∷ w) ++ later) gap ∙ skip-token (c ∷ w) later t in
    let fits : length later ≤ f =
      omega (arith, length-append g ((c ∷ w) ++ later), length-append w later) in
    tokens_some f (g ++ ((c ∷ w) ++ later)) c (w ++ later) found
    ∙ rw (word-append (c ∷ w) later t.1 apart, after_word-append (c ∷ w) later t.1 apart)
        (ap (λ r. (c ∷ w) ∷ r) (tokens-layout f ws end fits (IsLayout-of_IsSpread ws l) e))

-- Words that are not empty and hold no separator are read back as the tokens, however many
-- separators of whatever kind stand between them, before the first and behind the last.
pub tokenize-layout :
    (ws : List (Bytes × Bytes)) (end : Bytes)
    → IsLayout ws
    → IsGap end
    → tokenize (layout ws end) ≡ words ws
unfolding tokenize
tokenize-layout ws end l e = tokens-layout (length (layout ws end)) ws end (omega arith) l e
