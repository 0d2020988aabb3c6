-- ===== src/Scripts/Evtest/Format.antt =====
-- The lines that evtest prints for the keys of letters, and what scripts/parse_evtest.py makes of them.
use quic_keys.Common.{
  ℕ, ◌≤◌, Bool, true, not, ◌==◌, ◌&&◌, List, [], ◌∷◌, ◌++◌, none, Bytes, codes, ◌≡◌, ◌≢◌, refl, ap,
  ◌∙◌, arith, All,
}
use quic_keys.Udp.Numbers.{is_digit, IsDigits}
use quic_keys.Scripts.Regex.{
  literals, is_white, is_break, behind, match_at, re_search, re_search-absent, re_search-skip,
  splitlines, splitlines-line,
}
use quic_keys.Scripts.Log.Fields.{is_calm, all_calm, all_calm-append, all_calm-digits, calm-breaks}
use quic_keys.Scripts.Evtest.{
  re_ev_key, KeyStats, count_line, parse_evtest_lines, parse_evtest, confusion_row,
}

-- An event of a letter, with its numbers as texts: the seconds and microseconds, the code, the letter's
-- capital and the value.
pub record LetterEvent : Type 0 where
  pub seconds : Bytes
  pub micros : Bytes
  pub key_code : Bytes
  pub capital : ℕ
  pub value : Bytes

pub record IsLetterEvent (e : LetterEvent) : Type 0 where
  pub seconds : IsDigits e.seconds
  pub micros : IsDigits e.micros
  pub key_code : IsDigits e.key_code
  pub from_a : b'A' ≤ e.capital
  pub to_z : e.capital ≤ b'Z'
  pub value : IsDigits e.value

-- "Event: time 17.000250, type 1 (EV_KEY), code 30 (KEY_A), value 1"
unfoldable pub evtest_line : LetterEvent → Bytes
evtest_line e =
    codes "Event: time "
    ++ (e.seconds
        ++ (codes "."
            ++ (e.micros
                ++ (codes ", type 1 (EV_KEY), code "
                    ++ (e.key_code
                        ++ (codes " (KEY_" ++ (e.capital ∷ codes "), value " ++ e.value)))))))

unfoldable pub evtest_text : List LetterEvent → Bytes
evtest_text [] = []
evtest_text (e ∷ es) = evtest_line e ++ b'\n' ∷ evtest_text es

no_e : Bytes → Bool
no_e [] = true
no_e (c ∷ s) = not (c == b'E') && no_e s

no_e-All : (s : Bytes) → no_e s ≡ true → All (λ x. x ≢ b'E') s
unfolding no_e
no_e-All [] h = tt
no_e-All (c ∷ s) h = (λ e. ground (arith, h, e), no_e-All s (ground (arith, h)))

no_e-digits : (s : Bytes) → IsDigits s → no_e s ≡ true
unfolding no_e is_digit
no_e-digits [] d = refl
no_e-digits (c ∷ s) (h, d) = ground (arith, h, no_e-digits s d)

-- A part of the text without the pattern's first character.
skip : (s t : Bytes) → no_e s ≡ true → re_search re_ev_key (s ++ t) ≡ re_search re_ev_key t
unfolding literals
skip s t h = re_search-skip b'E' _ s t (no_e-All s h)

-- A character at which the pattern does not match.
pass :
    (x : ℕ) (s : Bytes)
    → match_at re_ev_key (x ∷ s) ≡ none
    → re_search re_ev_key (x ∷ s) ≡ re_search re_ev_key s
unfolding re_search
pass x s h = rw h refl

-- The pattern is not found in such a line, since `EV_KEY` is followed by a bracket and not by a space.
evtest_line-missed :
    (e : LetterEvent) → IsLetterEvent e → re_search re_ev_key (evtest_line e) ≡ none
unfolding evtest_line no_e match_at literals is_white behind
evtest_line-missed e h =
    let value : Bytes = codes "), value " ++ e.value in
    let letter : Bytes = e.capital ∷ value in
    let code : Bytes = e.key_code ++ (codes " (KEY_" ++ letter) in
    let kind : Bytes = codes ", type 1 (EV_KEY), code " ++ code in
    let micros : Bytes = e.micros ++ kind in
    pass b'E' _ refl
    ∙ skip (codes "vent: time ") _ refl
    ∙ skip e.seconds _ (no_e-digits e.seconds h.seconds)
    ∙ skip (codes ".") micros refl
    ∙ skip e.micros kind (no_e-digits e.micros h.micros)
    ∙ skip (codes ", type 1 (") _ refl
    ∙ pass b'E' _ refl
    ∙ skip (codes "V_K") _ refl
    ∙ pass b'E' _ refl
    ∙ skip (codes "Y), code ") code refl
    ∙ skip e.key_code _ (no_e-digits e.key_code h.key_code)
    ∙ skip (codes " (K") _ refl
    ∙ pass b'E' _ refl
    ∙ skip (codes "Y_") letter refl
    ∙ pass e.capital value (ground arith)
    ∙ skip (codes "), value ") e.value refl
    ∙ re_search-absent b'E' _ e.value (no_e-All e.value (no_e-digits e.value h.value))

calm_join : (s t : Bytes) → all_calm s ≡ true → all_calm t ≡ true → all_calm (s ++ t) ≡ true
calm_join s t hs ht = ground (arith, all_calm-append s t, hs, ht)

calm-evtest_line : (e : LetterEvent) → IsLetterEvent e → all_calm (evtest_line e) ≡ true
unfolding evtest_line all_calm is_calm is_break
calm-evtest_line e h =
    let value : Bytes = codes "), value " ++ e.value in
    let letter : Bytes = e.capital ∷ value in
    let code : Bytes = codes " (KEY_" ++ letter in
    let kind : Bytes = codes ", type 1 (EV_KEY), code " ++ (e.key_code ++ code) in
    let micros : Bytes = codes "." ++ (e.micros ++ kind) in
    let capital : is_calm e.capital ≡ true = unfold is_calm is_break in ground arith in
    let value_calm = calm_join (codes "), value ") e.value refl (all_calm-digits e.value h.value) in
    let letter_calm : all_calm letter ≡ true = ground (arith, capital, value_calm) in
    let code_calm = calm_join e.key_code code (all_calm-digits e.key_code h.key_code) letter_calm in
    let kind_calm = calm_join e.micros kind (all_calm-digits e.micros h.micros) code_calm in
    calm_join e.seconds micros (all_calm-digits e.seconds h.seconds) kind_calm

parse_evtest_lines-missed :
    (s : KeyStats) (es : List LetterEvent)
    → All IsLetterEvent es
    → parse_evtest_lines s (splitlines (evtest_text es)) ≡ s
unfolding evtest_text parse_evtest_lines
parse_evtest_lines-missed s [] h = unfold splitlines in refl
parse_evtest_lines-missed s (e ∷ es) (he, h) =
    let whole =
      splitlines-line (evtest_line e) (evtest_text es) (calm-breaks _ (calm-evtest_line e he)) in
    let none_found : count_line (re_search re_ev_key (evtest_line e)) s ≡ s =
      rw (evtest_line-missed e he) (unfold count_line in refl) in
    rw whole (
      ap (λ t. parse_evtest_lines t (splitlines (evtest_text es))) none_found
      ∙ parse_evtest_lines-missed s es h)

-- Whatever letters evtest reports, as presses or as releases, with its lines
-- `Event: time 17.000250, type 1 (EV_KEY), code 30 (KEY_A), value 1`, the table shows no press and no
-- release of any key, and none missed.
pub confusion_row-missed :
    (es : List LetterEvent) (k : Bytes)
    → All IsLetterEvent es
    → confusion_row (parse_evtest (evtest_text es)) k
      ≡ record { presses = 0; releases = 0; missed_releases = 0; extra_releases = 0 }
unfolding parse_evtest
confusion_row-missed es k h = rw (parse_evtest_lines-missed _ es h) (unfold confusion_row in refl)
