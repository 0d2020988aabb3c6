-- ===== src/Daemon/Validity.antt =====
-- The critical sections that each handler of daemon/src/main.cpp enters, and the guarded state after
-- them.
use quic_keys.Common.{
  ℕ, ◌||◌, List, [], ◌∷◌, Bytes, none, some, ◌≡◌, refl, arith, codes, length, ltb, ◌==◌,
  if◌then◌else◌, if_keeps, same_bytes, All, IsByte, Bool-cases, Option-cases, inl, inr, ltb→lt,
  sub64,
}
use quic_keys.Wire.{byte_at, be_u16}
use quic_keys.HidSocket.{Kernel}
use quic_keys.KeySet.Laws.{All-of_mem}
use quic_keys.Snapshot.{Snapshot, parse_snapshot, pressed_keys}
use quic_keys.Snapshot.Bitmap.{mem-pressed_keys, pressed_keys-Distinct}
use quic_keys.Snapshot.RoundTrip.{parse_snapshot-keys}
use quic_keys.Keyboard
use quic_keys.Keyboard.{
  Keyboard, Action, edge, marked, reliable_edge, snapshot, scanned, apply, initial,
}
use quic_keys.Keyboard.Invariant
use quic_keys.Keyboard.Invariant.{IsValid, IsAdmissible, initial-IsValid}
use quic_keys.Udp.{Datagram, parse_datagram, usage_of}
use quic_keys.Udp.Messages.{usage_of_range}
use quic_keys.Daemon.{
  Config, Daemon, Event, udp, snapshot_message, edge_message, monitor, start, step, run,
  key_command, run_command, handle_udp, snapshot_arrived, handle_snapshot, edge_arrived,
  handle_quic_edge, watchdog_round, send_state, unchanged, count_rx, stamp, edge_age, is_late_ms,
  is_late_ns,
}
use quic_keys.Daemon.Deadlines.{heartbeat-keyboard}

pressed_keys-All : (bs : Bytes) → All IsByte (pressed_keys bs)
pressed_keys-All bs =
    All-of_mem IsByte (pressed_keys bs) (λ u m. ground (arith, mem-pressed_keys u bs))

usage_of-IsByte : (key : Bytes) → IsByte (usage_of key)
usage_of-IsByte key = ground (arith, usage_of_range key)

-- The section that a command enters.
unfoldable pub udp_section : ℕ → ℕ → Datagram → List Action
udp_section now_ns t_ns m =
    let down = same_bytes m.cmd (codes "down") in
    if usage_of m.key == 0
    then []
    else if same_bytes m.cmd (codes "mup")
    then marked t_ns (usage_of m.key) ∷ []
    else if down || same_bytes m.cmd (codes "up")
    then edge now_ns (usage_of m.key) down ∷ []
    else []

-- The sections that an event enters: none, or one.
unfoldable pub sections : Config → Event → List Action
unfolding udp_section
sections c (udp os os' now_ns now received) = elim (parse_datagram received) [
  | none ↦ []
  | some m ↦
      if is_late_ns c (sub64 now_ns (stamp now_ns m))
      then []
      else udp_section now_ns (stamp now_ns m) m
]
sections c (snapshot_message os now_ns message) = elim (parse_snapshot message) [
  | none ↦ []
  | some s ↦ snapshot now_ns s.snap_mods s.new_pressed ∷ []
]
sections c (edge_message os now_ns message) =
    if ltb (length message) 16
    then []
    else if is_late_ms c (edge_age now_ns message)
    then []
    else if ltb (be_u16 message 12) 256
    then reliable_edge now_ns (be_u16 message 12) (byte_at message 14) (byte_at message 15) ∷ []
    else []
sections c (monitor os now_ns) = scanned now_ns ∷ []

key_command-section :
    (c : Config) (os : Kernel) (now_ns t_ns : ℕ) (m : Datagram) (d : Daemon)
    → (if usage_of m.key == 0
        then unchanged d
        else key_command os now_ns t_ns m (usage_of m.key) d).daemon.keyboard
      ≡ Keyboard.run c.limits (udp_section now_ns t_ns m) d.keyboard
unfolding key_command send_state udp_section Keyboard.run apply
key_command-section c os now_ns t_ns m d = ground arith

run_command-section :
    (c : Config) (os os' : Kernel) (now_ns now : ℕ) (m : Datagram) (d : Daemon)
    → (run_command c os os' now_ns now m d).daemon.keyboard
      ≡ Keyboard.run c.limits
          (if is_late_ns c (sub64 now_ns (stamp now_ns m))
            then []
            else udp_section now_ns (stamp now_ns m) m)
          d.keyboard
unfolding run_command count_rx Keyboard.run
run_command-section c os os' now_ns now m d =
    elim (Bool-cases (is_late_ns c (sub64 now_ns (stamp now_ns m)))) [
      | inl late ↦ rw late
      | inr fresh ↦
          rw (fresh, heartbeat-keyboard) (key_command-section c os now_ns (stamp now_ns m) m d)
    ]

-- An event changes the state under the lock by its sections alone: none where the handler drops or
-- does not know the message, else the one section that its command, record or round stands for.
pub step-sections :
    (c : Config) (e : Event) (d : Daemon)
    → (step c e d).daemon.keyboard ≡ Keyboard.run c.limits (sections c e) d.keyboard
unfolding step sections Keyboard.run apply
step-sections c (udp os os' now_ns now received) d = elim (Option-cases (parse_datagram received)) [
  | inl e ↦ unfold handle_udp in rw (e, handle_udp, sections) refl
  | inr (m, e) ↦
      unfold handle_udp in
      rw (e, handle_udp, sections) (run_command-section c os os' now_ns now m d)
]
step-sections c (snapshot_message os now_ns message) d =
    unfold handle_snapshot snapshot_arrived send_state in ground arith
step-sections c (edge_message os now_ns message) d =
    unfold handle_quic_edge edge_arrived send_state in ground arith
step-sections c (monitor os now_ns) d = unfold watchdog_round send_state in ground arith

udp_section-IsAdmissible :
    (now_ns t_ns : ℕ) (m : Datagram) → All IsAdmissible (udp_section now_ns t_ns m)
unfolding udp_section
udp_section-IsAdmissible now_ns t_ns m =
    let known = usage_of-IsByte m.key in
    let down = same_bytes m.cmd (codes "down") in
    if_keeps (All IsAdmissible) (usage_of m.key == 0) [] _ tt (
      if_keeps (All IsAdmissible) (same_bytes m.cmd (codes "mup"))
        (marked t_ns (usage_of m.key) ∷ []) _ (known, tt)
        (if_keeps (All IsAdmissible) (down || same_bytes m.cmd (codes "up"))
          (edge now_ns (usage_of m.key) down ∷ []) [] (known, tt) tt))

parsed-IsAdmissible :
    (now_ns : ℕ) (message : Bytes) (s : Snapshot)
    → parse_snapshot message ≡ some s
    → IsAdmissible (snapshot now_ns s.snap_mods s.new_pressed)
parsed-IsAdmissible now_ns message s e =
    let keys = parse_snapshot-keys message s e in
    rw keys (pressed_keys-Distinct message, pressed_keys-All message)

-- The sections are entered with what they want: usages that index `keymeta`, and sets without
-- repetitions.
pub sections-IsAdmissible : (c : Config) (e : Event) → All IsAdmissible (sections c e)
unfolding sections
sections-IsAdmissible c (udp os os' now_ns now received) =
    elim (Option-cases (parse_datagram received)) [
      | inl e ↦ rw (e, sections) tt
      | inr (m, e) ↦
          rw (e, sections)
            (if_keeps (All IsAdmissible) (is_late_ns c (sub64 now_ns (stamp now_ns m))) [] _ tt
              (udp_section-IsAdmissible now_ns (stamp now_ns m) m))
    ]
sections-IsAdmissible c (snapshot_message os now_ns message) =
    elim (Option-cases (parse_snapshot message)) [
      | inl e ↦ rw (e, sections) tt
      | inr (s, e) ↦ rw (e, sections) (parsed-IsAdmissible now_ns message s e, tt)
    ]
sections-IsAdmissible c (edge_message os now_ns message) =
    if_keeps (All IsAdmissible) (ltb (length message) 16) [] _ tt (
      if_keeps (All IsAdmissible) (is_late_ms c (edge_age now_ns message)) [] _ tt
        (elim (Bool-cases (ltb (be_u16 message 12) 256)) [
          | inl e ↦ rw e (ltb→lt _ _ e, tt)
          | inr e ↦ rw e tt
        ]))
sections-IsAdmissible c (monitor os now_ns) = (tt, tt)

-- Every event keeps the guarded state valid.
pub step-IsValid :
    (c : Config) (e : Event) (d : Daemon)
    → IsValid d.keyboard
    → IsValid (step c e d).daemon.keyboard
step-IsValid c e d v =
    rw (step-sections c e d)
      (Invariant.run-IsValid c.limits (sections c e) d.keyboard (sections-IsAdmissible c e) v)

run-IsValid :
    (c : Config) (es : List Event) (d : Daemon) → IsValid d.keyboard → IsValid (run c es d).keyboard
unfolding run
run-IsValid c [] d v = v
run-IsValid c (e ∷ es) d v = run-IsValid c es (step c e d).daemon (step-IsValid c e d v)

-- From the start, whatever datagrams, records and monitor rounds come, in whatever order and with
-- whatever contents, clock readings and answers of the operating system: the set of pressed keys has
-- no repetitions, holds only indices of `keymeta`, and agrees with the flags of the keys.
pub run-start-IsValid :
    (c : Config) (hid_socket : Bytes) (now : ℕ) (es : List Event)
    → IsValid (run c es (start hid_socket now)).keyboard
unfolding start
run-start-IsValid c hid_socket now es = run-IsValid c es (start hid_socket now) initial-IsValid
