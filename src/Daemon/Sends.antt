-- ===== src/Daemon/Sends.antt =====
-- What each handler sends, by the sections that it enters.
use quic_keys.Common.{
  ℕ, List, [], ◌∷◌, ◌++◌, some, ◌≡◌, refl, ap, arith, Bytes, codes, ◌==◌, if◌then◌else◌, sub64,
  same_bytes, map, Bool-cases, Option-cases, inl, inr, append-nil,
}
use quic_keys.Report.{HidReport8}
use quic_keys.Wire.{be_u16, byte_at}
use quic_keys.Snapshot.{Snapshot, parse_snapshot}
use quic_keys.Keyboard.{Keyboard, Limits, Action, apply, expire, reconcile, udp_edge, quic_edge}
use quic_keys.HidSocket.{
  HidSocket, Kernel, Syscall, socket_failed, socket_opened, connect_called, send_called,
  close_called, ensure_connected, send_report,
}
use quic_keys.Udp.{Datagram, parse_datagram, usage_of}
use quic_keys.Threads.{announces, current}
use quic_keys.Daemon.{
  Config, Daemon, Event, unchanged, udp, snapshot_message, edge_message, monitor, Outcome,
  send_state, is_late_ns, stamp, key_command, heartbeat, count_rx, run_command, handle_udp,
  snapshot_arrived, handle_snapshot, edge_arrived, edge_age, handle_quic_edge, watchdog_round, step,
}
use quic_keys.Daemon.Validity.{udp_section, sections}

-- The bytes given to `send`.
unfoldable pub sends : List Syscall → List Bytes
sends [] = []
sends (send_called fd bytes n ∷ cs) = bytes ∷ sends cs
sends (socket_failed ∷ cs) = sends cs
sends (socket_opened fd ∷ cs) = sends cs
sends (connect_called fd path ok ∷ cs) = sends cs
sends (close_called fd ∷ cs) = sends cs

-- The reports that a run of sections asks for.
unfoldable pub asked : Limits → List Action → Keyboard → List HidReport8
asked c [] k = []
asked c (a ∷ as') k =
    let rest = asked c as' (apply c a k) in
    if announces c a k then current (apply c a k) ∷ rest else rest

sends-append : (xs ys : List Syscall) → sends (xs ++ ys) ≡ sends xs ++ sends ys
unfolding sends
sends-append [] ys = refl
sends-append (send_called fd bytes n ∷ xs) ys = ap (λ t. bytes ∷ t) (sends-append xs ys)
sends-append (socket_failed ∷ xs) ys = sends-append xs ys
sends-append (socket_opened fd ∷ xs) ys = sends-append xs ys
sends-append (connect_called fd path ok ∷ xs) ys = sends-append xs ys
sends-append (close_called fd ∷ xs) ys = sends-append xs ys

-- With a descriptor at hand a report is sent once, whether or not that succeeds.
send_report-sends :
    (os : Kernel) (r : HidReport8) (h : HidSocket) (fd : ℕ)
    → h.fd ≡ some fd
    → sends (send_report os r h).1 ≡ r.bytes ∷ []
unfolding send_report ensure_connected sends
send_report-sends os r h fd e = ground arith

ensure_connected-sends : (os : Kernel) (h : HidSocket) → sends (ensure_connected os h).2 ≡ []
unfolding ensure_connected sends
ensure_connected-sends os h = ground arith

abbrev pub asked_bytes : Limits → List Action → Keyboard → List Bytes
asked_bytes c as' k = map (λ (r : HidReport8). r.bytes) (asked c as' k)

module _ (fd : ℕ) where
  key_command-sends :
      (c : Config) (os : Kernel) (now_ns t_ns : ℕ) (m : Datagram) (d : Daemon)
      → d.hid.fd ≡ some fd
      → sends
          (if usage_of m.key == 0
            then unchanged d
            else key_command os now_ns t_ns m (usage_of m.key) d).calls
        ≡ asked_bytes c.limits (udp_section now_ns t_ns m) d.keyboard
  unfolding key_command send_state udp_section asked announces apply sends
  key_command-sends c os now_ns t_ns m d e = ground (
    arith,
    send_report-sends os
        (current (udp_edge now_ns (usage_of m.key) (same_bytes m.cmd (codes "down")) d.keyboard))
        d.hid fd e,
  )

  heartbeat-sends :
      (c : Config) (os : Kernel) (now : ℕ) (o : Outcome)
      → sends (heartbeat c os now o).calls ≡ sends o.calls
  unfolding heartbeat
  heartbeat-sends c os now o = ground (
    arith,
    sends-append o.calls (ensure_connected os o.daemon.hid).2,
    ensure_connected-sends os o.daemon.hid,
    append-nil (sends o.calls),
  )

  snapshot_arrived-sends :
      (os : Kernel) (now_ns : ℕ) (s : Snapshot) (d : Daemon)
      → d.hid.fd ≡ some fd
      → sends (snapshot_arrived os now_ns s d).calls
        ≡ (current (reconcile now_ns s.snap_mods s.new_pressed d.keyboard).0).bytes ∷ []
  unfolding snapshot_arrived send_state
  snapshot_arrived-sends os now_ns s d e = ground (
    arith,
    send_report-sends os (current (reconcile now_ns s.snap_mods s.new_pressed d.keyboard).0) d.hid
        fd e,
  )

  run_command-sends :
      (c : Config) (os os' : Kernel) (now_ns now : ℕ) (m : Datagram) (d : Daemon)
      → d.hid.fd ≡ some fd
      → sends (run_command c os os' now_ns now m d).calls
        ≡ asked_bytes c.limits
            (if is_late_ns c (sub64 now_ns (stamp now_ns m))
              then []
              else udp_section now_ns (stamp now_ns m) m)
            d.keyboard
  unfolding run_command count_rx asked sends
  run_command-sends c os os' now_ns now m d e =
      elim (Bool-cases (is_late_ns c (sub64 now_ns (stamp now_ns m)))) [
        | inl late ↦ rw late
        | inr fresh ↦
            rw (fresh, heartbeat-sends) (key_command-sends c os now_ns (stamp now_ns m) m d e)
      ]

  edge_arrived-sends :
      (os : Kernel) (now_ns dt_ms : ℕ) (message : Bytes) (d : Daemon)
      → d.hid.fd ≡ some fd
      → sends (edge_arrived os now_ns dt_ms message d).calls
        ≡ (current (
            quic_edge now_ns
              (be_u16 message 12)
              (byte_at message 14)
              (byte_at message 15)
              d.keyboard)).bytes
          ∷ []
  unfolding edge_arrived send_state
  edge_arrived-sends os now_ns dt_ms message d e =
      send_report-sends os
        (current (
          quic_edge now_ns (be_u16 message 12) (byte_at message 14) (byte_at message 15)
            d.keyboard))
        d.hid fd e

-- On a connected socket, the bytes that a handler gives to `send` are, in order, the reports that
-- its section asks for: one of the state after the section where the event changes the keys, or
-- after a scan that released a key; none where the handler drops or does not know the message.
pub step-sends :
    (c : Config) (e : Event) (d : Daemon) (fd : ℕ)
    → d.hid.fd ≡ some fd
    → sends (step c e d).calls ≡ asked_bytes c.limits (sections c e) d.keyboard
unfolding step sections asked apply announces sends
step-sends c (udp os os' now_ns now received) d fd h =
    elim (Option-cases (parse_datagram received)) [
      | inl e ↦ unfold handle_udp in rw (e, handle_udp, sections) refl
      | inr (m, e) ↦
          unfold handle_udp in
          rw (e, handle_udp, sections) (run_command-sends fd c os os' now_ns now m d h)
    ]
step-sends c (snapshot_message os now_ns message) d fd h =
    elim (Option-cases (parse_snapshot message)) [
      | inl e ↦ unfold handle_snapshot in rw (e, handle_snapshot, sections) refl
      | inr (s, e) ↦
          unfold handle_snapshot in
          rw (e, handle_snapshot, sections) (snapshot_arrived-sends fd os now_ns s d h)
    ]
step-sends c (edge_message os now_ns message) d fd h =
    unfold handle_quic_edge in
    ground (arith, edge_arrived-sends fd os now_ns (edge_age now_ns message) message d h)
step-sends c (monitor os now_ns) d fd h =
    unfold watchdog_round send_state in
    ground (arith, send_report-sends os (current (expire c.limits now_ns d.keyboard).0) d.hid fd h)
