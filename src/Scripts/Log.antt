-- ===== src/Scripts/Log.antt =====
-- scripts/run_report_experiments.py: what it reads out of the daemon's log; and the lines of that log, as
-- daemon/src/main.cpp prints them.
pub mod Fields
pub mod Lines
pub mod Totals
pub mod Keys
use quic_keys.Common.{
  ℕ, ◌+◌, Bool, true, false, not, ◌&&◌, List, [], ◌∷◌, ◌++◌, Option, none, some, Bytes, codes, ◌==◌,
  if◌then◌else◌, get_or,
}
use quic_keys.KeySet.{insert}
use quic_keys.Udp.Numbers.{is_digit, digits_value, put_decimal}
use quic_keys.Keyboard.{Log, heal, stuck, watchdog}
use quic_keys.Daemon.{Line, about, dropped_udp, dropped_quic, latency_udp, latency_quic}
use quic_keys.Scripts.Regex.{
  RegexItem, skipped, captured, literals, is_white, is_number, leading, behind, re_search,
  splitlines,
}

-- How a stream prints the double that `ns_to_ms` gives for nanoseconds, and that of whole milliseconds.
pub record Doubles : Type 0 where
  pub of_ns : ℕ → Bytes
  pub of_ms : ℕ → Bytes

-- What a critical section writes.
unfoldable pub print_log : Doubles → Log → Bytes
print_log f (heal u ns) = codes "[heal] key=" ++ put_decimal u ++ codes " heal_ms=" ++ f.of_ns ns
print_log f (stuck u ns) = codes "[stuck] key=" ++ put_decimal u ++ codes " age_ms=" ++ f.of_ns ns
print_log f (watchdog u ns) =
    codes "[watchdog] key=" ++ put_decimal u ++ codes " age_ms=" ++ f.of_ns ns

unfoldable pub print_line : Doubles → Line → Bytes
print_line f (about log) = print_log f log
print_line f (dropped_udp ns cmd key) =
    codes "[drop] kind=deadline dt_ms="
    ++ f.of_ns ns
    ++ codes " cmd="
    ++ cmd
    ++ codes " key="
    ++ key
print_line f (dropped_quic ms usage) =
    codes "[drop] kind=deadline dt_ms="
    ++ f.of_ms ms
    ++ codes " cmd=quic_edge key="
    ++ put_decimal usage
print_line f (latency_udp ns cmd key) =
    codes "[lat] dt_ms=" ++ f.of_ns ns ++ codes " cmd=" ++ cmd ++ codes " key=" ++ key
print_line f (latency_quic ms seq usage) =
    codes "[lat] dt_ms="
    ++ f.of_ms ms
    ++ codes " cmd=quic_edge seq="
    ++ put_decimal seq
    ++ codes " usage="
    ++ put_decimal usage

-- The log of whole lines.
unfoldable pub log_text : Doubles → List Line → Bytes
log_text f [] = []
log_text f (l ∷ ls) = print_line f l ++ b'\n' ∷ log_text f ls

abbrev pub re_lat : List RegexItem
re_lat =
    literals (codes "[lat]")
    ++ skipped is_white ∷ literals (codes "dt_ms=")
    ++ captured is_number ∷ []

-- The three patterns of a key and a time.
abbrev pub re_key : Bytes → Bytes → List RegexItem
re_key tag time =
    literals tag
    ++ skipped is_white ∷ literals (codes "key=")
    ++ captured is_digit ∷ skipped is_white ∷ literals time
    ++ captured is_number ∷ []

abbrev pub re_heal : List RegexItem
re_heal = re_key (codes "[heal]") (codes "heal_ms=")

abbrev pub re_wd : List RegexItem
re_wd = re_key (codes "[watchdog]") (codes "age_ms=")

abbrev pub re_stuck : List RegexItem
re_stuck = re_key (codes "[stuck]") (codes "age_ms=")

-- `(?:\.\d+)?`
abbrev pub pointed : ℕ → Bytes → Bytes
pointed x [] = []
pointed x (c ∷ d) = if x == b'.' then x ∷ c ∷ d else []

unfoldable pub fraction : Bytes → Bytes
fraction [] = []
fraction (x ∷ s) = pointed x (leading is_digit s)

abbrev pub float_text : Bytes → Bytes → Option Bytes
float_text [] rest = none
float_text (c ∷ d) rest = some (c ∷ d ++ fraction rest)

-- The text that `float` is given: the number is that of the text.
unfoldable pub parse_float_prefix : Bytes → Option Bytes
parse_float_prefix s = float_text (leading is_digit s) (behind is_digit s)

-- `if v is not None: ….append(v)`
abbrev pub appended : Option Bytes → List Bytes
appended none = []
appended (some v) = v ∷ []

-- The number in a group of a match.
unfoldable pub value_of : ℕ → Option (List Bytes) → List Bytes
value_of i none = []
value_of i (some groups) = appended (parse_float_prefix (get_or groups i []))

unfoldable pub fires : Option (List Bytes) → ℕ
fires none = 0
fires (some groups) = 1

pub record LogTotals : Type 0 where
  pub lats : List Bytes
  pub heals : List Bytes
  pub watchdog : ℕ

unfoldable pub parse_log_lines : List Bytes → LogTotals
parse_log_lines [] = record { lats = []; heals = []; watchdog = 0 }
parse_log_lines (line ∷ lines) =
    let rest = parse_log_lines lines in
    record {
      lats = value_of 0 (re_search re_lat line) ++ rest.lats;
      heals = value_of 1 (re_search re_heal line) ++ rest.heals;
      watchdog = fires (re_search re_wd line) + rest.watchdog;
    }

unfoldable pub parse_log : Bytes → LogTotals
parse_log text = parse_log_lines (splitlines text)

-- `keys.add(int(m.group("key")))`
unfoldable pub add_key : Option (List Bytes) → List ℕ → List ℕ
add_key none keys = keys
add_key (some groups) keys = insert (digits_value 0 (get_or groups 0 [])) keys

unfoldable pub keys_of : List RegexItem → List Bytes → List ℕ
keys_of r [] = []
keys_of r (line ∷ lines) = add_key (re_search r line) (keys_of r lines)

unfoldable pub parse_watchdog_keys : Bytes → List ℕ
parse_watchdog_keys text = keys_of re_wd (splitlines text)

unfoldable pub parse_stuck_keys : Bytes → List ℕ
parse_stuck_keys text = keys_of re_stuck (splitlines text)
