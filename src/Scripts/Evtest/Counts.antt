-- ===== src/Scripts/Evtest/Counts.antt =====
-- What scripts/parse_evtest.py counts in the lines that its pattern is made for.
use quic_keys.Common.{
  ℕ, ◌+◌, ◌-◌, Bool, true, false, not, ◌&&◌, List, [], ◌∷◌, ◌++◌, some, Bytes, codes, same_bytes,
  ◌≡◌, ◌≢◌, refl, ap, arith, All, if◌then◌else◌,
}
use quic_keys.Scripts.Regex.{
  literals, captured_one, captured, skipped, is_white, is_break, leading, behind, with_group,
  match_at, re_search, splitlines, splitlines-line,
}
use quic_keys.Scripts.Log.Fields.{captured-append, is_calm, all_calm, all_calm-append, calm-breaks}
use quic_keys.Scripts.Evtest.{
  re_ev_key, is_key_char, is_val, key_name, count_in, KeyStats, count_line, parse_evtest_lines,
  parse_evtest, confusion_row,
}

-- A press or a release of a key, of which `key` is the name behind `KEY_`.
pub record Stroke : Type 0 where
  pub key : Bytes
  pub down : Bool

abbrev pub IsStroke : Stroke → Type 0
IsStroke e = All (λ c. is_key_char c ≡ true) e.key × (e.key ≢ [])

abbrev pub value_text : Bool → Bytes
value_text true = codes "1"
value_text false = codes "0"

-- "EV_KEY KEY_A 1"
unfoldable pub stroke_line : Stroke → Bytes
stroke_line e = codes "EV_KEY KEY_" ++ (e.key ++ (codes " " ++ value_text e.down))

unfoldable pub stroke_text : List Stroke → Bytes
stroke_text [] = []
stroke_text (e ∷ es) = stroke_line e ++ b'\n' ∷ stroke_text es

-- How many strokes of a name there are in a direction.
unfoldable pub strokes_of : Bytes → Bool → List Stroke → ℕ
strokes_of name down [] = 0
strokes_of name down (e ∷ es) =
    let more = strokes_of name down es in
    if same_bytes name (key_name e.key) && (if down then e.down else not e.down)
    then 1 + more
    else more

groups-value :
    (key : Bytes) (down : Bool)
    → All (λ c. is_key_char c ≡ true) key
    → key ≢ []
    → match_at
        (captured is_key_char ∷ skipped is_white ∷ captured_one is_val ∷ [])
        (key ++ (codes " " ++ value_text down))
      ≡ some (key ∷ value_text down ∷ [])
unfolding match_at is_white is_val behind leading with_group is_key_char
groups-value key true h some_char =
    captured-append is_key_char (skipped is_white ∷ captured_one is_val ∷ []) key (codes " 1") h
      some_char refl
groups-value key false h some_char =
    captured-append is_key_char (skipped is_white ∷ captured_one is_val ∷ []) key (codes " 0") h
      some_char refl

-- The pattern is found at the beginning of such a line.
stroke_line-found :
    (e : Stroke)
    → IsStroke e
    → re_search re_ev_key (stroke_line e) ≡ some (e.key ∷ value_text e.down ∷ [])
unfolding stroke_line match_at literals is_white behind re_search
stroke_line-found e (chars, some_char) = rw (groups-value e.key e.down chars some_char) refl

-- What one more stroke makes of the counters.
count_line-stroke :
    (key : Bytes) (down : Bool) (s : KeyStats) (name : Bytes)
    → let s' = count_line (some (key ∷ value_text down ∷ [])) s in
      (s'.press name ≡ s.press name + (if same_bytes name (key_name key) && down then 1 else 0))
      × (s'.release name
          ≡ s.release name + (if same_bytes name (key_name key) && not down then 1 else 0))
unfolding count_line count_in same_bytes
count_line-stroke key true s name = ground arith
count_line-stroke key false s name = ground arith

calm-key : (key : Bytes) → All (λ c. is_key_char c ≡ true) key → all_calm key ≡ true
unfolding all_calm is_calm is_break is_key_char
calm-key [] h = refl
calm-key (c ∷ key) (hc, h) = ground (arith, hc, calm-key key h)

calm-value_text : (down : Bool) → all_calm (codes " " ++ value_text down) ≡ true
unfolding all_calm is_calm is_break
calm-value_text true = refl
calm-value_text false = refl

calm-stroke_line : (e : Stroke) → IsStroke e → all_calm (stroke_line e) ≡ true
unfolding stroke_line all_calm is_calm is_break
calm-stroke_line e (chars, some_char) =
    rw (all_calm-append e.key (codes " " ++ value_text e.down), calm-key e.key chars)
      (calm-value_text e.down)

parse_evtest_lines-strokes :
    (es : List Stroke) (s : KeyStats) (name : Bytes)
    → All IsStroke es
    → let s' = parse_evtest_lines s (splitlines (stroke_text es)) in
      (s'.press name ≡ s.press name + strokes_of name true es)
      × (s'.release name ≡ s.release name + strokes_of name false es)
unfolding stroke_text strokes_of
parse_evtest_lines-strokes [] s name h =
    unfold splitlines parse_evtest_lines in (omega arith, omega arith)
parse_evtest_lines-strokes (e ∷ es) s name (he, h) =
    let whole =
      splitlines-line (stroke_line e) (stroke_text es) (calm-breaks _ (calm-stroke_line e he)) in
    let s' = count_line (some (e.key ∷ value_text e.down ∷ [])) s in
    let found = stroke_line-found e he in
    let next : parse_evtest_lines s (splitlines (stroke_line e ++ b'\n' ∷ stroke_text es))
        ≡ parse_evtest_lines s' (splitlines (stroke_text es)) =
      rw whole (
        unfold parse_evtest_lines in
        ap (λ o. parse_evtest_lines (count_line o s) (splitlines (stroke_text es))) found) in
    let (press, release) = parse_evtest_lines-strokes es s' name h in
    let (press_one, release_one) = count_line-stroke e.key e.down s name in
    rw next (ground (arith, press, press_one), ground (arith, release, release_one))

-- From a log of lines `EV_KEY KEY_A 1`, the table shows of every name how many presses and how many releases
-- of it the log has, whatever the order, how many presses have no release by these numbers, and how many
-- releases no press.
pub confusion_row-strokes :
    (es : List Stroke) (name : Bytes)
    → All IsStroke es
    → let p = strokes_of name true es in
      let r = strokes_of name false es in
      confusion_row (parse_evtest (stroke_text es)) name
      ≡ record { presses = p; releases = r; missed_releases = p - r; extra_releases = r - p }
unfolding parse_evtest confusion_row
confusion_row-strokes es name h =
    let (press, release) =
      parse_evtest_lines-strokes es (record { press = λ k. 0; release = λ k. 0 }) name h in
    let all_presses : 0 + strokes_of name true es ≡ strokes_of name true es = omega arith in
    let all_releases : 0 + strokes_of name false es ≡ strokes_of name false es = omega arith in
    rw (press, release, all_presses, all_releases) refl
