-- ===== src/Daemon/Liveness.antt =====
-- A key whose release was lost, and the rounds of the monitor thread of daemon/src/main.cpp.
use quic_keys.Common.{
  ℕ, ◌+◌, ◌*◌, ◌^◌, ◌<◌, true, false, List, [], ◌∷◌, ◌++◌, ◌≡◌, refl, arith, All, u64_mod, Bytes,
  if_keeps, ltb, length,
}
use quic_keys.Wire.{be_u16}
use quic_keys.Common.Int.{pos}
use quic_keys.KeySet.{mem}
use quic_keys.HidSocket.{Kernel}
use quic_keys.Keyboard.{is_expired}
use quic_keys.Keyboard.Age.{names, run-last_snapshot}
use quic_keys.Keyboard.Invariant.{IsValid}
use quic_keys.Keyboard.Watchdog.{mem-expire, is_expired_iff}
use quic_keys.Daemon.{
  Config, Daemon, Event, edge_message, monitor, is_late_ms, edge_age, step, run, watchdog_round,
  send_state,
}
use quic_keys.Daemon.Validity.{sections, sections-IsAdmissible, step-sections, step-IsValid}

-- No snapshot of the events names the key.
abbrev pub NamesNone : Config → ℕ → List Event → Type 0
NamesNone c u es = All (λ e. All (λ a. names u a ≡ false) (sections c e)) es

-- A record of the edge stream names no key.
pub edge_message-NamesNone :
    (c : Config) (u : ℕ) (os : Kernel) (now_ns : ℕ) (message : Bytes)
    → All (λ a. names u a ≡ false) (sections c (edge_message os now_ns message))
unfolding sections names
edge_message-NamesNone c u os now_ns message =
    if_keeps (All (λ a. names u a ≡ false)) (ltb (length message) 16) [] _ tt (
      if_keeps (All (λ a. names u a ≡ false)) (is_late_ms c (edge_age now_ns message)) [] _ tt
        (if_keeps (All (λ a. names u a ≡ false)) (ltb (be_u16 message 12) 256) _ [] (refl, tt) tt))

step-last_snapshot :
    (c : Config) (e : Event) (d : Daemon) (u : ℕ)
    → IsValid d.keyboard
    → All (λ a. names u a ≡ false) (sections c e)
    → ((step c e d).daemon.keyboard.keymeta u).last_snapshot_ns
      ≡ (d.keyboard.keymeta u).last_snapshot_ns
step-last_snapshot c e d u v unnamed =
    rw (step-sections c e d)
      (run-last_snapshot c.limits (sections c e) d.keyboard u v (sections-IsAdmissible c e) unnamed)

round-mem :
    (c : Config) (os : Kernel) (now_ns : ℕ) (d : Daemon) (u : ℕ)
    → IsValid d.keyboard
    → is_expired c.limits now_ns (d.keyboard.keymeta u) ≡ true
    → mem u (step c (monitor os now_ns) d).daemon.keyboard.pressed ≡ false
unfolding step watchdog_round send_state
round-mem c os now_ns d u v expired =
    ground (arith, mem-expire c.limits now_ns d.keyboard u v.distinct)

-- With the watchdog on, in a valid state with a key that a snapshot named at some time: after any
-- events in which no snapshot names the key again, a round of the monitor that reads the clock more
-- than `watchdog_ms` after that time leaves the key released, whatever the datagrams and edges in
-- between said.
pub unnamed_key_ends :
    (c : Config) (os : Kernel) (now_ns ms : ℕ) (es : List Event) (d : Daemon) (u : ℕ)
    → IsValid d.keyboard
    → c.limits.watchdog_ms ≡ pos ms
    → 0 < ms
    → ms < 2 ^ 31
    → 0 < (d.keyboard.keymeta u).last_snapshot_ns
    → (d.keyboard.keymeta u).last_snapshot_ns + ms * 1000000 < now_ns
    → now_ns < u64_mod
    → NamesNone c u es
    → mem u (run c (es ++ monitor os now_ns ∷ []) d).keyboard.pressed ≡ false
unfolding run
unnamed_key_ends c os now_ns ms [] d u v on positive small seen old range unnamed =
    let test =
      is_expired_iff c.limits now_ns (d.keyboard.keymeta u) ms on small (omega arith) range in
    round-mem c os now_ns d u v (test.1 (positive, seen, old))
unnamed_key_ends c os now_ns ms (e ∷ es) d u v on positive small seen old range (here, rest) =
    let same = step-last_snapshot c e d u v here in
    unnamed_key_ends c os now_ns ms es (step c e d).daemon u (step-IsValid c e d v) on positive
      small (omega (arith, same)) (omega (arith, same)) range rest
