-- ===== src/Daemon/Snapshots.antt =====
-- Snapshots one behind the other: what each sends, on a connected socket whose `send` succeeds.
use quic_keys.Common.{
  map-append, same_bytes, codes, sub64, if◌then◌else◌, ◌==◌, Bool-cases, ℕ, List, [], ◌∷◌, ◌++◌,
  some, ◌≡◌, refl, ap, ap₂, ◌∙◌, sym, arith, Bytes, All, length, map, append_assoc, Option-cases,
  inl, inr,
}
use quic_keys.Report.{report_of}
use quic_keys.HidSocket.{Kernel, ensure_connected}
use quic_keys.Snapshot.{parse_snapshot, pressed_keys}
use quic_keys.Snapshot.RoundTrip.{parse_snapshot-none, parse_snapshot-keys}
use quic_keys.Keyboard.Snapshots.{reconcile-pressed}
use quic_keys.Keyboard.{Keyboard, Limits, Action, apply, reconcile, udp_edge, quic_edge, expire}
use quic_keys.Udp.{Datagram, parse_datagram, usage_of}
use quic_keys.Wire.{be_u16, byte_at}
use quic_keys.Threads.{announces}
use quic_keys.Daemon.{
  Config, Daemon, Event, Outcome, udp, snapshot_message, edge_message, monitor, unchanged, step,
  run, handle_udp, run_command, count_rx, key_command, heartbeat, is_late_ns, stamp,
  handle_snapshot, snapshot_arrived, handle_quic_edge, edge_arrived, watchdog_round,
}
use quic_keys.Daemon.Reports.{send_state-connected}
use quic_keys.Daemon.Sends.{sends, asked, asked_bytes, step-sends}
use quic_keys.Daemon.Validity.{sections}

-- What the handlers of a run give to `send`, in order.
unfoldable pub run_sends : Config → List Event → Daemon → List Bytes
run_sends c [] d = []
run_sends c (e ∷ es) d = let o = step c e d in sends o.calls ++ run_sends c es o.daemon

pub run_sends-append :
    (c : Config) (xs ys : List Event) (d : Daemon)
    → run_sends c (xs ++ ys) d ≡ run_sends c xs d ++ run_sends c ys (run c xs d)
unfolding run_sends run
run_sends-append c [] ys d = refl
run_sends-append c (x ∷ xs) ys d =
    let o = step c x d in
    ap (λ t. sends o.calls ++ t) (run_sends-append c xs ys o.daemon)
    ∙ sym (
        append_assoc (sends o.calls) (run_sends c xs o.daemon) (run_sends c ys (run c xs o.daemon)))

-- The `send` that an event may come to, on a connected socket, succeeds.
abbrev pub SendSucceeds : Event → Type 0
SendSucceeds (udp os os' now_ns now received) = (n : ℕ) × (os.send_result ≡ some n)
SendSucceeds (snapshot_message os now_ns message) = (n : ℕ) × (os.send_result ≡ some n)
SendSucceeds (edge_message os now_ns message) = (n : ℕ) × (os.send_result ≡ some n)
SendSucceeds (monitor os now_ns) = (n : ℕ) × (os.send_result ≡ some n)

module _ (c : Config) (fd : ℕ) where
  heartbeat-connected :
      (os : Kernel) (now : ℕ) (o : Outcome)
      → o.daemon.hid.fd ≡ some fd
      → (heartbeat c os now o).daemon.hid.fd ≡ some fd
  unfolding heartbeat ensure_connected
  heartbeat-connected os now o h = ground (arith, h)

  key_command-connected :
      (os : Kernel) (now_ns t_ns usage n : ℕ) (m : Datagram) (d : Daemon)
      → os.send_result ≡ some n
      → d.hid.fd ≡ some fd
      → (key_command os now_ns t_ns m usage d).daemon.hid.fd ≡ some fd
  unfolding key_command
  key_command-connected os now_ns t_ns usage n m d sent h =
      let edged = record d {
        keyboard = udp_edge now_ns usage (same_bytes m.cmd (codes "down")) d.keyboard;
      } in
      ground (arith, h, send_state-connected os edged fd n h sent)

  run_command-connected :
      (os os' : Kernel) (now_ns now n : ℕ) (m : Datagram) (d : Daemon)
      → os.send_result ≡ some n
      → d.hid.fd ≡ some fd
      → (run_command c os os' now_ns now m d).daemon.hid.fd ≡ some fd
  unfolding run_command count_rx
  run_command-connected os os' now_ns now n m d sent h =
      let t_ns = stamp now_ns m in
      let acted =
        if usage_of m.key == 0
        then unchanged d
        else key_command os now_ns t_ns m (usage_of m.key) d in
      let still : acted.daemon.hid.fd ≡ some fd =
        ground (arith, h, key_command-connected os now_ns t_ns (usage_of m.key) n m d sent h) in
      elim (Bool-cases (is_late_ns c (sub64 now_ns t_ns))) [
        | inl late ↦ rw late h
        | inr fresh ↦ rw fresh (heartbeat-connected os' now (count_rx acted) still)
      ]

  -- The socket stays open.
  step-connected :
      (e : Event) (d : Daemon)
      → SendSucceeds e
      → d.hid.fd ≡ some fd
      → (step c e d).daemon.hid.fd ≡ some fd
  unfolding step
  step-connected (udp os os' now_ns now received) d (n, sent) h =
      elim (Option-cases (parse_datagram received)) [
        | inl e ↦ unfold handle_udp in rw (e, handle_udp) h
        | inr (m, e) ↦
            unfold handle_udp in
            rw (e, handle_udp) (run_command-connected os os' now_ns now n m d sent h)
      ]
  step-connected (snapshot_message os now_ns message) d (n, sent) h =
      elim (Option-cases (parse_snapshot message)) [
        | inl e ↦ unfold handle_snapshot in rw (e, handle_snapshot) h
        | inr (s, e) ↦
            let k = (reconcile now_ns s.snap_mods s.new_pressed d.keyboard).0 in
            let state = send_state-connected os (record d { keyboard = k }) fd n h sent in
            unfold handle_snapshot snapshot_arrived in rw (e, handle_snapshot) (rw state h)
      ]
  step-connected (edge_message os now_ns message) d (n, sent) h =
      let k =
        quic_edge now_ns (be_u16 message 12) (byte_at message 14) (byte_at message 15) d.keyboard in
      unfold handle_quic_edge edge_arrived in
      ground (arith, h, send_state-connected os (record d { keyboard = k }) fd n h sent)
  step-connected (monitor os now_ns) d (n, sent) h =
      let k = (expire c.limits now_ns d.keyboard).0 in
      unfold watchdog_round in
      ground (arith, h, send_state-connected os (record d { keyboard = k }) fd n h sent)

-- The bytes of the report of a state.
abbrev pub report_bytes : Keyboard → Bytes
report_bytes k = (report_of k.pressed k.modifiers).bytes

asked-states :
    (c : Limits) (as' : List Action) (k : Keyboard)
    → (ks : List Keyboard) × (asked_bytes c as' k ≡ map report_bytes ks)
unfolding asked
asked-states c [] k = ([], refl)
asked-states c (a ∷ as') k =
    let (ks, rest) = asked-states c as' (apply c a k) in
    elim (Bool-cases (announces c a k)) [
      | inl e ↦ (apply c a k ∷ ks, rw e (ap (λ t. report_bytes (apply c a k) ∷ t) rest))
      | inr e ↦ (ks, rw e rest)
    ]

-- On a connected socket whose `send` succeeds, all that events send are whole reports, and it stays connected.
pub run_sends-states :
    (c : Config) (es : List Event) (d : Daemon) (fd : ℕ)
    → All SendSucceeds es
    → d.hid.fd ≡ some fd
    → (ks : List Keyboard) × (run_sends c es d ≡ map report_bytes ks)
      × ((run c es d).hid.fd ≡ some fd)
unfolding run_sends run
run_sends-states c [] d fd h at_fd = ([], refl, at_fd)
run_sends-states c (e ∷ es) d fd (h, hs) at_fd =
    let (ks, first) = asked-states c.limits (sections c e) d.keyboard in
    let (ks', rest, still) =
      run_sends-states c es (step c e d).daemon fd hs (step-connected c fd e d h at_fd) in
    (
      ks ++ ks',
      ap₂ (λ (x y : List Bytes). x ++ y) (step-sends c e d fd at_fd ∙ first) rest
          ∙ sym (map-append report_bytes ks ks'),
      still,
    )

module _ (c : Config) (os : Kernel) (now_ns fd n : ℕ) (sent : os.send_result ≡ some n) where
  -- A snapshot of full length sends the report of the state that it leaves, and the socket stays open.
  pub snapshot-sends :
      (message : Bytes) (d : Daemon)
      → length message ≡ 52
      → d.hid.fd ≡ some fd
      → let o = step c (snapshot_message os now_ns message) d in
        (sends o.calls
          ≡ (report_of o.daemon.keyboard.pressed o.daemon.keyboard.modifiers).bytes ∷ [])
        × (o.daemon.hid.fd ≡ some fd)
        × (o.daemon.keyboard.pressed ≡ pressed_keys message)
  unfolding step handle_snapshot snapshot_arrived sends
  snapshot-sends message d long at_fd = elim (Option-cases (parse_snapshot message)) [
    | inl e ↦ absurd (omega (arith, (parse_snapshot-none message).0 e, long))
    | inr (s, e) ↦
        let (k, logs) = reconcile now_ns s.snap_mods s.new_pressed d.keyboard in
        let state = send_state-connected os (record d { keyboard = k }) fd n at_fd sent in
        let keys = parse_snapshot-keys message s e in
        rw (e, handle_snapshot)
          (rw state
            (refl, at_fd, (reconcile-pressed now_ns s.snap_mods s.new_pressed d.keyboard).0 ∙ keys))
  ]
