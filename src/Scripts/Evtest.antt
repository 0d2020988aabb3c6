-- ===== src/Scripts/Evtest.antt =====
-- scripts/parse_evtest.py: presses and releases per key, from a log of evtest in the guest.
pub mod Format
pub mod Counts
use quic_keys.Common.{
  ℕ, ◌+◌, ◌-◌, Bool, true, false, ◌&&◌, ◌||◌, List, [], ◌∷◌, ◌++◌, Option, none, some, Bytes, codes,
  leb, ◌==◌, if◌then◌else◌, get_or, length, same_bytes,
}
use quic_keys.Scripts.Regex.{
  RegexItem, skipped, captured, captured_one, literals, is_white, re_search, splitlines,
}

-- `[A-Z0-9_]`
unfoldable pub is_key_char : ℕ → Bool
is_key_char c = leb b'A' c && leb c b'Z' || (leb b'0' c && leb c b'9' || c == b'_')

unfoldable pub is_val : ℕ → Bool
is_val c = c == b'0' || c == b'1'

-- The first group is the text behind `KEY_`.
abbrev pub re_ev_key : List RegexItem
re_ev_key =
    literals (codes "EV_KEY")
    ++ skipped is_white ∷ literals (codes "KEY_")
    ++ captured is_key_char ∷ skipped is_white ∷ captured_one is_val ∷ []

-- `ch = key[-1]` of a key of five characters that starts with `KEY_`.
unfoldable pub letter_of : Bytes → Bytes
letter_of (ch ∷ []) = if leb b'A' ch && leb ch b'Z' then (ch + 32) ∷ [] else []
letter_of rest = []

-- Of `"KEY_"` and the rest of a key.
unfoldable pub key_to_letter : Bytes → Bytes
key_to_letter rest = if same_bytes rest (codes "ENTER") then codes "ENTER" else letter_of rest

-- `key_to_letter(k) or k`
unfoldable pub name_or : Bytes → Bytes → Bytes
name_or k [] = codes "KEY_" ++ k
name_or k (c ∷ name) = c ∷ name

unfoldable pub key_name : Bytes → Bytes
key_name k = name_or k (key_to_letter k)

-- A `Counter`: what it holds of a name.
abbrev pub Counter : Type 0
Counter = Bytes → ℕ

unfoldable pub count_in : Bytes → Counter → Counter
count_in name c other = if same_bytes other name then c other + 1 else c other

pub record KeyStats : Type 0 where
  pub press : Counter
  pub release : Counter

unfoldable pub count_line : Option (List Bytes) → KeyStats → KeyStats
count_line none s = s
count_line (some groups) s =
    let name = key_name (get_or groups 0 []) in
    if same_bytes (get_or groups 1 []) (codes "1")
    then record s { press = count_in name s.press }
    else record s { release = count_in name s.release }

unfoldable pub parse_evtest_lines : KeyStats → List Bytes → KeyStats
parse_evtest_lines s [] = s
parse_evtest_lines s (line ∷ lines) =
    parse_evtest_lines (count_line (re_search re_ev_key line) s) lines

unfoldable pub parse_evtest : Bytes → KeyStats
parse_evtest text =
    parse_evtest_lines (record { press = λ k. 0; release = λ k. 0 }) (splitlines text)

pub record TableRow : Type 0 where
  pub presses : ℕ
  pub releases : ℕ
  pub missed_releases : ℕ
  pub extra_releases : ℕ

-- `max(0, p - r)`
unfoldable pub confusion_row : KeyStats → Bytes → TableRow
confusion_row s k = record {
  presses = s.press k;
  releases = s.release k;
  missed_releases = s.press k - s.release k;
  extra_releases = s.release k - s.press k;
}
