-- ===== src/Scripts/Log/Keys.antt =====
-- The keys that scripts/run_report_experiments.py takes for released by the watchdog, and for stuck.
use quic_keys.Common.{
  ℕ, ◌&&◌, ◌||◌, not, List, [], ◌∷◌, map, Bytes, ◌≡◌, refl, sym, Bool-cases, inl, inr, ap, ◌∙◌, All,
  some, none, Option, ◌==◌,
}
use quic_keys.KeySet.{mem, Distinct}
use quic_keys.KeySet.Laws.{mem-insert, insert-Distinct}
use quic_keys.Udp.Numbers.{put_decimal, digits_value, digits_value-put_decimal}
use quic_keys.HidSocket.{Kernel}
use quic_keys.Keyboard.{Log, heal, stuck, watchdog, Keyboard, expire}
use quic_keys.Keyboard.Lines.{released, mem-released}
use quic_keys.Daemon.{
  Config, Daemon, Line, about, dropped_udp, dropped_quic, latency_udp, latency_quic, send_state,
  watchdog_round,
}
use quic_keys.Scripts.Regex.{RegexItem, re_search}
use quic_keys.Scripts.Log.{
  Doubles, print_line, log_text, re_wd, re_stuck, add_key, keys_of, parse_watchdog_keys,
  parse_stuck_keys,
}
use quic_keys.Scripts.Log.Fields.{IsPrint}
use quic_keys.Scripts.Log.Lines.{IsCalmLine, search-wd, search-stuck, wd_groups, stuck_groups}
use quic_keys.Scripts.Log.Totals.{watchdogs, stucks, splitlines-log}

add_key-Distinct :
    (o : Option (List Bytes)) (keys : List ℕ) → Distinct keys → Distinct (add_key o keys)
unfolding add_key
add_key-Distinct none keys d = d
add_key-Distinct (some groups) keys d = insert-Distinct _ keys d

keys_of-Distinct : (r : List RegexItem) (lines : List Bytes) → Distinct (keys_of r lines)
unfolding keys_of
keys_of-Distinct r [] = tt
keys_of-Distinct r (line ∷ lines) = add_key-Distinct (re_search r line) _ (keys_of-Distinct r lines)

-- Sending a report leaves the keys as the scan made them.
round-keyboard :
    (c : Config) (os : Kernel) (now_ns : ℕ) (d : Daemon)
    → (watchdog_round c os now_ns d).daemon.keyboard ≡ (expire c.limits now_ns d.keyboard).0
unfolding watchdog_round send_state
round-keyboard c os now_ns d = elim (Bool-cases ((expire c.limits now_ns d.keyboard).1)) [
  | inl e ↦ rw e refl
  | inr e ↦ rw e refl
]

watchdogs-about : (ls : List Log) → watchdogs (map about ls) ≡ released ls
unfolding watchdogs released
watchdogs-about [] = refl
watchdogs-about (heal u ns ∷ ls) = watchdogs-about ls
watchdogs-about (stuck u ns ∷ ls) = watchdogs-about ls
watchdogs-about (watchdog u ns ∷ ls) = ap (λ t. u ∷ t) (watchdogs-about ls)

about-calm : (ls : List Log) → All IsCalmLine (map about ls)
about-calm [] = tt
about-calm (l ∷ ls) = (tt, about-calm ls)

module _ (f : Doubles) (plain_ns plain_ms : ℕ → Bytes)
    (ns_printed : (n : ℕ) → IsPrint (f.of_ns n) (plain_ns n))
    (ms_printed : (n : ℕ) → IsPrint (f.of_ms n) (plain_ms n)) where
  mem-add :
      (j u : ℕ) (t : Bytes) (keys : List ℕ)
      → mem j (add_key (some (put_decimal u ∷ t ∷ [])) keys) ≡ ((j == u) || mem j keys)
  unfolding add_key
  mem-add j u t keys =
      mem-insert j (digits_value 0 (put_decimal u)) keys ∙ rw (digits_value-put_decimal u) refl

  watchdog-line :
      (j : ℕ) (l : Line) (ls : List Line) (keys : List ℕ)
      → mem j keys ≡ mem j (watchdogs ls)
      → mem j (add_key (wd_groups f plain_ns plain_ms ns_printed ms_printed l) keys)
        ≡ mem j (watchdogs (l ∷ ls))
  unfolding watchdogs add_key mem
  watchdog-line j (about (heal u ns)) ls keys h = h
  watchdog-line j (about (stuck u ns)) ls keys h = h
  watchdog-line j (about (watchdog u ns)) ls keys h = mem-add j u (plain_ns ns) keys ∙ rw h refl
  watchdog-line j (dropped_udp ns cmd key) ls keys h = h
  watchdog-line j (dropped_quic ms usage) ls keys h = h
  watchdog-line j (latency_udp ns cmd key) ls keys h = h
  watchdog-line j (latency_quic ms seq usage) ls keys h = h

  stuck-line :
      (j : ℕ) (l : Line) (ls : List Line) (keys : List ℕ)
      → mem j keys ≡ mem j (stucks ls)
      → mem j (add_key (stuck_groups f plain_ns plain_ms ns_printed ms_printed l) keys)
        ≡ mem j (stucks (l ∷ ls))
  unfolding stucks add_key mem
  stuck-line j (about (heal u ns)) ls keys h = h
  stuck-line j (about (stuck u ns)) ls keys h = mem-add j u (plain_ns ns) keys ∙ rw h refl
  stuck-line j (about (watchdog u ns)) ls keys h = h
  stuck-line j (dropped_udp ns cmd key) ls keys h = h
  stuck-line j (dropped_quic ms usage) ls keys h = h
  stuck-line j (latency_udp ns cmd key) ls keys h = h
  stuck-line j (latency_quic ms seq usage) ls keys h = h

  keys_of-print :
      (j : ℕ) (ls : List Line)
      → All IsCalmLine ls
      → (mem j (keys_of re_wd (map (print_line f) ls)) ≡ mem j (watchdogs ls))
        × (mem j (keys_of re_stuck (map (print_line f) ls)) ≡ mem j (stucks ls))
  unfolding keys_of
  keys_of-print j [] h = unfold watchdogs stucks in (refl, refl)
  keys_of-print j (l ∷ ls) (hl, h) =
      let (fired, late) = keys_of-print j ls h in
      (
        rw (search-wd f plain_ns plain_ms ns_printed ms_printed l hl)
            (watchdog-line j l ls _ fired),
        rw (search-stuck f plain_ns plain_ms ns_printed ms_printed l hl) (stuck-line j l ls _ late),
      )

  -- From the log of any lines, under the same conditions, the script takes the keys of the watchdog's lines
  -- and of the lines about stuck keys, each once.
  pub parse_keys-print :
      (ls : List Line)
      → All IsCalmLine ls
      → ((j : ℕ) → mem j (parse_watchdog_keys (log_text f ls)) ≡ mem j (watchdogs ls))
        × ((j : ℕ) → mem j (parse_stuck_keys (log_text f ls)) ≡ mem j (stucks ls))
        × Distinct (parse_watchdog_keys (log_text f ls))
        × Distinct (parse_stuck_keys (log_text f ls))
  unfolding parse_watchdog_keys parse_stuck_keys
  parse_keys-print ls h =
      let lines = splitlines-log f plain_ns plain_ms ns_printed ms_printed ls h in
      (
        λ j. rw lines ((keys_of-print j ls h).0),
        λ j. rw lines ((keys_of-print j ls h).1),
        keys_of-Distinct re_wd _,
        keys_of-Distinct re_stuck _,
      )

  -- If every time is printed as a decimal number, perhaps followed by an exponent, and no pressed key stands
  -- twice in the set, the script takes from the log of a monitor round just those keys for released by the
  -- watchdog that were pressed before the round and are not pressed after it, whatever the round does with the
  -- socket.
  pub watchdog_keys-round :
      (c : Config) (os : Kernel) (now_ns : ℕ) (d : Daemon) (j : ℕ)
      → Distinct d.keyboard.pressed
      → let o = watchdog_round c os now_ns d in
        mem j (parse_watchdog_keys (log_text f o.lines))
        ≡ (mem j d.keyboard.pressed && not (mem j o.daemon.keyboard.pressed))
  unfolding watchdog_round
  watchdog_keys-round c os now_ns d j distinct =
      let logs = (expire c.limits now_ns d.keyboard).2 in
      let read = (parse_keys-print (map about logs) (about-calm logs)).0 j in
      let seen = mem-released c.limits now_ns j d.keyboard distinct in
      let after = round-keyboard c os now_ns d in
      read
      ∙ rw (watchdogs-about logs) seen
      ∙ ap (λ (k : Keyboard). mem j d.keyboard.pressed && not (mem j k.pressed)) (sym after)
