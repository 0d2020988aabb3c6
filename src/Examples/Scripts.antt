-- ===== src/Examples/Scripts.antt =====
-- Logs that the scripts read.
use quic_keys.Common.{
  ℕ, ◌≡◌, not, ◌&&◌, List, [], ◌∷◌, ◌++◌, refl, sym, append-nil, arith, codes, inl,
}
use quic_keys.KeySet.{mem, Distinct}
use quic_keys.Udp.Numbers.{is_digit, put_decimal, put_decimal-IsDigits}
use quic_keys.Keyboard.{heal, watchdog}
use quic_keys.Daemon.{Line, about, latency_udp, latency_quic, dropped_udp, watchdog_round}
use quic_keys.Scripts.Regex.{leading, is_number, is_break}
use quic_keys.Scripts.Log.{Doubles, log_text, parse_log, parse_watchdog_keys}
use quic_keys.Scripts.Log.Fields.{
  IsPrint, IsDecimal, is_calm, all_calm, all_calm-append, all_calm-decimal,
}
use quic_keys.Scripts.Log.Totals.{latencies, heal_times, watchdogs, parse_log-print}
use quic_keys.Scripts.Log.Keys.{watchdog_keys-round}
use quic_keys.Scripts.Evtest.{confusion_row, parse_evtest}
use quic_keys.Scripts.Evtest.Format.{LetterEvent, IsLetterEvent, evtest_text, confusion_row-missed}
use quic_keys.Examples.{config, willing, desk}

-- Whole numbers of nanoseconds with an exponent, and whole milliseconds.
abbrev prints : Doubles
prints = record { of_ns = λ n. put_decimal n ++ codes "e-06"; of_ms = put_decimal }

put_decimal-IsDecimal : (n : ℕ) → IsDecimal (put_decimal n)
put_decimal-IsDecimal n = record {
  whole = put_decimal n;
  digits = (put_decimal-IsDigits n).0;
  some_digit = (put_decimal-IsDigits n).1;
  form = inl refl;
}

ns_printed : (n : ℕ) → IsPrint (prints.of_ns n) (put_decimal n)
unfolding leading is_number all_calm is_calm is_break
ns_printed n = record {
  decimal = put_decimal-IsDecimal n;
  tail = codes "e-06";
  parts = refl;
  ends_number = refl;
  calm = rw (all_calm-append (put_decimal n) (codes "e-06"), all_calm-decimal n) refl;
}

ms_printed : (n : ℕ) → IsPrint (prints.of_ms n) (put_decimal n)
unfolding leading
ms_printed n = record {
  decimal = put_decimal-IsDecimal n;
  tail = [];
  parts = sym (append-nil (put_decimal n));
  ends_number = refl;
  calm = all_calm-decimal n;
}

abbrev log : List Line
log =
    latency_udp 12 (codes "down") (codes "a")
    ∷ about (heal 4 30)
    ∷ dropped_udp 900 (codes "up") (codes "a")
    ∷ about (watchdog 4 210)
    ∷ latency_quic 7 1 4
    ∷ []

parse_log-print_example : parse_log (log_text prints log) ≡ record {
  lats = latencies put_decimal put_decimal log;
  heals = heal_times put_decimal put_decimal log;
  watchdog = 1;
}
unfolding watchdogs all_calm is_calm is_break
parse_log-print_example =
    parse_log-print prints put_decimal put_decimal ns_printed ms_printed log
      ((refl, refl), (tt, ((refl, refl), (tt, (tt, tt)))))

desk-Distinct : Distinct desk.keyboard.pressed
unfolding mem
desk-Distinct = (refl, (refl, tt))

watchdog_keys-round_example :
    let o = watchdog_round config willing 9000000000 desk in
    mem 4 (parse_watchdog_keys (log_text prints o.lines))
    ≡ (mem 4 desk.keyboard.pressed && not (mem 4 o.daemon.keyboard.pressed))
watchdog_keys-round_example =
    watchdog_keys-round prints put_decimal put_decimal ns_printed ms_printed config willing
      9000000000 desk 4 desk-Distinct

abbrev press_event : LetterEvent
press_event = record {
  seconds = codes "17";
  micros = codes "000250";
  key_code = codes "30";
  capital = b'A';
  value = codes "1";
}

press_event-IsLetterEvent : IsLetterEvent press_event
unfolding is_digit
press_event-IsLetterEvent = record {
  seconds = (refl, (refl, tt));
  micros = (refl, (refl, (refl, (refl, (refl, (refl, tt))))));
  key_code = (refl, (refl, tt));
  from_a = omega arith;
  to_z = omega arith;
  value = (refl, tt);
}

confusion_row-missed_example :
    confusion_row (parse_evtest (evtest_text (press_event ∷ []))) (codes "a")
    ≡ record { presses = 0; releases = 0; missed_releases = 0; extra_releases = 0 }
confusion_row-missed_example =
    confusion_row-missed (press_event ∷ []) (codes "a") (press_event-IsLetterEvent, tt)
