-- ===== src/Examples/Typing.antt =====
-- The keys that are typed, at the guest's keyboard.
use quic_keys.Common.{
  last_or, ◌++◌, ℕ, ◌≡◌, false, true, [], ◌∷◌, List, refl, arith, Bytes, codes, length, take,
  append-nil,
}
use quic_keys.Stream.{receive_all}
use quic_keys.Daemon.{Event, udp, monitor, snapshot_message}
use quic_keys.Udp.Messages.{build_edge_msg}
use quic_keys.Daemon.Streams.{snapshot_receiver}
use quic_keys.Daemon.Snapshots.{run_sends}
use quic_keys.Client.{Round, workload_events, state_machine, snapshot_round, quic_snapshot_sender}
use quic_keys.Client.Outbox.{
  OutboxMove, called, sends, outbox_run, new_outbox, drain, calls_of, is_dropped, IsIncreasing,
}
use quic_keys.Device.{read_all}
use quic_keys.Device.Apply.{padded}
use quic_keys.EndToEnd.Typing.{guest_shows_client}
use quic_keys.Examples.{config, willing, desk, guest}
use quic_keys.Examples.Reports.{guest-Holds}

-- What is held after the first press of the workload: `a`.
abbrev held : List ℕ
held = state_machine (take 1 (workload_events (codes "apt\n") 1 10)) []

-- A round of no key that comes through, one that is lost, and one of `a` pressed.
abbrev early : Round
early = record { pressed = []; t_ms = 70; lost = false; send_at = 5 }

abbrev missing : Round
missing = record { pressed = []; t_ms = 80; lost = true; send_at = 0 }

abbrev late : Round
late = record { pressed = held; t_ms = 90; lost = false; send_at = 12 }

abbrev moves : List OutboxMove
moves =
    called
      (record { payload = snapshot_round 0 early; reliable = false; lost = false; send_at = 5 })
    ∷ called
        (record { payload = snapshot_round 1 missing; reliable = false; lost = true; send_at = 0 })
    ∷ sends
    ∷ called
        (record { payload = snapshot_round 2 late; reliable = false; lost = false; send_at = 12 })
    ∷ []

calls : calls_of moves ≡ quic_snapshot_sender 0 (early ∷ missing ∷ late ∷ [])
unfolding calls_of quic_snapshot_sender
calls = refl

in_order : IsIncreasing 0 (quic_snapshot_sender 0 (early ∷ missing ∷ late ∷ []))
unfolding quic_snapshot_sender is_dropped
in_order = ((λ h. omega arith), ((λ h. absurd cc), ((λ h. omega arith), tt)))

-- The bytes of the stream arrive in one event, with a buffer for each message.
abbrev arrived : List (List Bytes)
arrived = (drain (outbox_run moves new_outbox)).sent ∷ []

-- The first snapshot, an edge and a monitor round, each at its own time.
abbrev earlier : List Event
earlier =
    snapshot_message willing 7000000 (snapshot_round 0 early)
    ∷ udp willing willing 7500000 0 (build_edge_msg (codes "down") (codes "b") 7400000)
    ∷ monitor willing 8000000
    ∷ []

-- What the daemon sends to the socket.
abbrev sent : List Bytes
sent =
    run_sends config
      (earlier
        ++ snapshot_message willing 9000000
            (last_or (receive_all snapshot_receiver arrived []).messages [])
          ∷ [])
      desk

guest_shows_client_example :
    let hs = (read_all 16 sent guest).hid in
    (hs.modifiers ≡ 0) × (hs.key ≡ padded 16 held) × (hs.keys ≡ length held)
guest_shows_client_example =
    guest_shows_client config willing 4 8 9000000 90 12 (codes "apt\n") 1 10 1
      (early ∷ missing ∷ []) moves arrived earlier desk 16 sent guest calls in_order (append-nil _)
      ((8, refl), ((8, refl), ((8, refl), tt))) refl refl (omega arith) guest-Holds refl
