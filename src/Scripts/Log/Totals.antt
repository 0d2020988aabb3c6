-- ===== src/Scripts/Log/Totals.antt =====
-- What scripts/run_report_experiments.py reads out of a whole log of daemon/src/main.cpp.
use quic_keys.Common.{
  ℕ, ◌+◌, List, [], ◌∷◌, ◌++◌, map, Bytes, length, ◌≡◌, refl, ap, ◌∙◌, arith, All,
}
use quic_keys.Keyboard.{heal, stuck, watchdog}
use quic_keys.Daemon.{Line, about, dropped_udp, dropped_quic, latency_udp, latency_quic}
use quic_keys.Scripts.Regex.{is_break, splitlines, splitlines-line}
use quic_keys.Scripts.Log.{
  Doubles, print_line, log_text, value_of, fires, parse_log_lines, parse_log,
}
use quic_keys.Scripts.Log.Fields.{IsPrint, parse_float_prefix-decimal, calm-breaks}
use quic_keys.Scripts.Log.Lines.{
  IsCalmLine, body-calm, search-lat, search-heal, search-wd, lat_groups, heal_groups, wd_groups,
}

-- The keys of the lines of the watchdog, and of those about stuck keys.
unfoldable pub watchdogs : List Line → List ℕ
watchdogs [] = []
watchdogs (about (watchdog u ns) ∷ ls) = u ∷ watchdogs ls
watchdogs (l ∷ ls) = watchdogs ls

unfoldable pub stucks : List Line → List ℕ
stucks [] = []
stucks (about (stuck u ns) ∷ ls) = u ∷ stucks ls
stucks (l ∷ ls) = stucks ls

module _ (plain_ns plain_ms : ℕ → Bytes) where
  -- The ages of the edges that were not late.
  pub latencies : List Line → List Bytes
  latencies [] = []
  latencies (latency_udp ns cmd key ∷ ls) = plain_ns ns ∷ latencies ls
  latencies (latency_quic ms seq usage ∷ ls) = plain_ms ms ∷ latencies ls
  latencies (l ∷ ls) = latencies ls

  pub heal_times : List Line → List Bytes
  heal_times [] = []
  heal_times (about (heal u ns) ∷ ls) = plain_ns ns ∷ heal_times ls
  heal_times (l ∷ ls) = heal_times ls

module _ (f : Doubles) (plain_ns plain_ms : ℕ → Bytes)
    (ns_printed : (n : ℕ) → IsPrint (f.of_ns n) (plain_ns n))
    (ms_printed : (n : ℕ) → IsPrint (f.of_ms n) (plain_ms n)) where
  pub splitlines-log :
      (ls : List Line) → All IsCalmLine ls → splitlines (log_text f ls) ≡ map (print_line f) ls
  unfolding log_text is_break
  splitlines-log [] h = unfold splitlines in refl
  splitlines-log (l ∷ ls) (hl, h) =
      let (body, e, calm) = body-calm f plain_ns plain_ms ns_printed ms_printed l hl in
      let whole =
        splitlines-line (print_line f l) (log_text f ls) (rw e (refl, calm-breaks body calm)) in
      whole ∙ ap (λ t. print_line f l ∷ t) (splitlines-log ls h)

  -- The numbers of a line, where a pattern is found in it.
  lats-line :
      (l : Line) (ls : List Line)
      → value_of 0 (lat_groups f plain_ns plain_ms ns_printed ms_printed l)
          ++ latencies plain_ns plain_ms ls
        ≡ latencies plain_ns plain_ms (l ∷ ls)
  unfolding value_of latencies
  lats-line (about (heal u ns)) ls = refl
  lats-line (about (stuck u ns)) ls = refl
  lats-line (about (watchdog u ns)) ls = refl
  lats-line (dropped_udp ns cmd key) ls = refl
  lats-line (dropped_quic ms usage) ls = refl
  lats-line (latency_udp ns cmd key) ls =
      rw (parse_float_prefix-decimal (plain_ns ns) ((ns_printed ns).decimal)) refl
  lats-line (latency_quic ms seq usage) ls =
      rw (parse_float_prefix-decimal (plain_ms ms) ((ms_printed ms).decimal)) refl

  heals-line :
      (l : Line) (ls : List Line)
      → value_of 1 (heal_groups f plain_ns plain_ms ns_printed ms_printed l)
          ++ heal_times plain_ns plain_ms ls
        ≡ heal_times plain_ns plain_ms (l ∷ ls)
  unfolding value_of heal_times
  heals-line (about (heal u ns)) ls =
      rw (parse_float_prefix-decimal (plain_ns ns) ((ns_printed ns).decimal)) refl
  heals-line (about (stuck u ns)) ls = refl
  heals-line (about (watchdog u ns)) ls = refl
  heals-line (dropped_udp ns cmd key) ls = refl
  heals-line (dropped_quic ms usage) ls = refl
  heals-line (latency_udp ns cmd key) ls = refl
  heals-line (latency_quic ms seq usage) ls = refl

  fires-line :
      (l : Line) (ls : List Line)
      → fires (wd_groups f plain_ns plain_ms ns_printed ms_printed l) + length (watchdogs ls)
        ≡ length (watchdogs (l ∷ ls))
  unfolding fires watchdogs
  fires-line (about (heal u ns)) ls = omega arith
  fires-line (about (stuck u ns)) ls = omega arith
  fires-line (about (watchdog u ns)) ls = omega arith
  fires-line (dropped_udp ns cmd key) ls = omega arith
  fires-line (dropped_quic ms usage) ls = omega arith
  fires-line (latency_udp ns cmd key) ls = omega arith
  fires-line (latency_quic ms seq usage) ls = omega arith

  parse_log_lines-print :
      (ls : List Line)
      → All IsCalmLine ls
      → parse_log_lines (map (print_line f) ls) ≡ record {
        lats = latencies plain_ns plain_ms ls;
        heals = heal_times plain_ns plain_ms ls;
        watchdog = length (watchdogs ls);
      }
  unfolding parse_log_lines
  parse_log_lines-print [] h = unfold latencies heal_times watchdogs in refl
  parse_log_lines-print (l ∷ ls) (hl, h) =
      let lat = search-lat f plain_ns plain_ms ns_printed ms_printed l hl in
      let healed = search-heal f plain_ns plain_ms ns_printed ms_printed l hl in
      let fired = search-wd f plain_ns plain_ms ns_printed ms_printed l hl in
      let rest = parse_log_lines-print ls h in
      rw (lat, healed, fired, rest, lats-line l ls, heals-line l ls, fires-line l ls) refl

  -- The log of any lines, if the names that datagrams brought have no bracket and no line's end and every
  -- time is printed as a decimal number, perhaps followed by an exponent: the script reads the decimal numbers
  -- of the edges that were not late and of the healed keys, in the order of the lines, and counts the lines of
  -- the watchdog. An exponent is not read.
  pub parse_log-print :
      (ls : List Line)
      → All IsCalmLine ls
      → parse_log (log_text f ls) ≡ record {
        lats = latencies plain_ns plain_ms ls;
        heals = heal_times plain_ns plain_ms ls;
        watchdog = length (watchdogs ls);
      }
  unfolding parse_log
  parse_log-print ls h = rw (splitlines-log ls h) (parse_log_lines-print ls h)
