-- ===== src/Examples/Clients.antt =====
-- The clients' edges, snapshots and scripts, as the daemon meets them.
use quic_keys.Common.{
  last_or, ◌++◌, ℕ, ◌≡◌, ◌≤◌, false, true, [], ◌∷◌, List, refl, arith, Bytes, codes, some, map,
  length, take, inl, inr, append-nil, same_bytes, ◌&&◌, ◌⊎◌,
}
use quic_keys.KeySet.{mem}
use quic_keys.Stream.{receive_all}
use quic_keys.Keyboard.{initial}
use quic_keys.Daemon.{Event, udp, monitor, snapshot_message, start, run}
use quic_keys.Daemon.Streams.{snapshot_receiver}
use quic_keys.Client.{
  is_withheld, usage_for_key, key_of_char, KeyEvent, state_machine, workload_events, Trip,
  udp_sender, Round, snapshot_round, quic_snapshot_sender,
}
use quic_keys.Udp.Messages.{build_edge_msg}
use quic_keys.Client.Outbox.{
  OutboxMove, called, sends, outbox_run, new_outbox, drain, calls_of, is_dropped, IsIncreasing,
}
use quic_keys.Client.Edges.{IsKeyEvent}
use quic_keys.Client.Scripts.{edge_sender, send_udp, typed_text}
use quic_keys.Client.Held.{held_after, none_held}
use quic_keys.Client.Plain.{
  Met, shots, meetings_of, kept, changes_of_events, events_of, send_udp-mem,
}
use quic_keys.Client.Workload.{workload-one_key}
use quic_keys.Client.Delivery.{AllOnTime, passing, Meeting, arrivals, udp_sender-mem}
use quic_keys.Client.Healing.{sender_heals}
use quic_keys.Client.Reliable.{
  edge_receiver, Sent, turns, changes_of_turns, edge_arrivals, edge_sender-mem,
}
use quic_keys.Examples.{config, willing, broken, desk}

abbrev press_a : KeyEvent
press_a = record { delay = 0; cmd = codes "down"; key = codes "a"; is_marker = false }

abbrev mark_a : KeyEvent
mark_a = record { delay = 10; cmd = codes "mup"; key = codes "a"; is_marker = true }

abbrev release_a : KeyEvent
release_a = record { delay = 0; cmd = codes "up"; key = codes "a"; is_marker = false }

-- The release of `a` is withheld; the press of `a` comes through and the marker cannot be lost.
abbrev trips : List Trip
trips =
    record { event = press_a; t_ns = 5000000; lost = false; send_at = 20 }
    ∷ record { event = mark_a; t_ns = 15000000; lost = true; send_at = 30 }
    ∷ record { event = release_a; t_ns = 15000000; lost = false; send_at = 31 }
    ∷ []

abbrev meetings : List Meeting
meetings =
    record { os = willing; os' = willing; now_ns = 6000000; now = 0 }
    ∷ record { os = broken; os' = willing; now_ns = 17000000; now = 0 }
    ∷ []

known_a :
    (e : KeyEvent)
    → e.key ≡ codes "a"
    → (e.cmd ≡ codes "down") ⊎ (e.cmd ≡ codes "up") ⊎ (e.cmd ≡ codes "mup")
    → IsKeyEvent e
unfolding usage_for_key key_of_char
known_a e named command = record {
  command = command;
  ch = b'a';
  named = named;
  known = λ h. omega (arith, h);
  typed = λ h. omega (arith, h);
}

on_time : AllOnTime 100 meetings (passing (some (codes "a")) trips)
unfolding passing is_withheld same_bytes
on_time = (
  record {
    stamped = omega arith;
    past = omega arith;
    recent = omega arith;
    range = omega arith;
    event = known_a press_a refl (inl refl);
  },
  (
    record {
      stamped = omega arith;
      past = omega arith;
      recent = omega arith;
      range = omega arith;
      event = known_a mark_a refl (inr (inr refl));
    },
    tt,
  ),
)

-- The first datagram is sent before the second is put into the outbox.
abbrev moves : List OutboxMove
moves =
    called (record {
      payload = build_edge_msg (codes "down") (codes "a") 5000000;
      reliable = false;
      lost = false;
      send_at = 20;
    })
    ∷ sends
    ∷ called (record {
      payload = build_edge_msg (codes "mup") (codes "a") 15000000;
      reliable = true;
      lost = true;
      send_at = 30;
    })
    ∷ []

same_calls : calls_of moves ≡ udp_sender (some (codes "a")) trips
unfolding calls_of udp_sender is_withheld same_bytes
same_calls = refl

in_order : IsIncreasing 0 (udp_sender (some (codes "a")) trips)
unfolding udp_sender is_withheld is_dropped same_bytes
in_order = ((λ h. omega arith), ((λ h. omega arith), tt))

udp_sender-mem_example :
    mem 4
      (run config
        (arrivals meetings (drain (outbox_run moves new_outbox)).sent)
        (start (codes "/tmp/hidra.kbd") 0)).keyboard.pressed
    ≡ mem 4 (state_machine (map (λ (t : Trip). t.event) (passing (some (codes "a")) trips)) [])
udp_sender-mem_example =
    udp_sender-mem config 100 refl (omega arith) (some (codes "a")) moves meetings trips
      (start (codes "/tmp/hidra.kbd") 0) same_calls in_order on_time (unfold start initial in refl)
      4

-- A round of no key that comes through, one that is lost, and one of `a` pressed.
abbrev first_round : Round
first_round = record { pressed = []; t_ms = 70; lost = false; send_at = 5 }

abbrev empty_round : Round
empty_round = record { pressed = []; t_ms = 80; lost = true; send_at = 0 }

abbrev last_round : Round
last_round = record {
  pressed = state_machine (press_a ∷ mark_a ∷ []) [];
  t_ms = 90;
  lost = false;
  send_at = 12;
}

abbrev snapshot_moves : List OutboxMove
snapshot_moves =
    called (record {
      payload = snapshot_round 0 first_round;
      reliable = false;
      lost = false;
      send_at = 5;
    })
    ∷ called (record {
      payload = snapshot_round 1 empty_round;
      reliable = false;
      lost = true;
      send_at = 0;
    })
    ∷ sends
    ∷ called (record {
      payload = snapshot_round 2 last_round;
      reliable = false;
      lost = false;
      send_at = 12;
    })
    ∷ []

snapshot_calls :
    calls_of snapshot_moves ≡ quic_snapshot_sender 0 (first_round ∷ empty_round ∷ last_round ∷ [])
unfolding calls_of quic_snapshot_sender
snapshot_calls = refl

snapshots_in_order :
    IsIncreasing 0 (quic_snapshot_sender 0 (first_round ∷ empty_round ∷ last_round ∷ []))
unfolding quic_snapshot_sender is_dropped
snapshots_in_order = ((λ h. omega arith), ((λ h. absurd cc), ((λ h. omega arith), tt)))

-- The first snapshot, an edge and a monitor round, each at its own time.
abbrev earlier_events : List Event
earlier_events =
    snapshot_message willing 7000000 (snapshot_round 0 first_round)
    ∷ udp willing willing 7500000 0 (build_edge_msg (codes "down") (codes "b") 7400000)
    ∷ monitor broken 8000000
    ∷ []

sender_heals_example :
    let pieces = (drain (outbox_run snapshot_moves new_outbox)).sent ∷ [] in
    let message = last_or (receive_all snapshot_receiver pieces []).messages [] in
    let k =
      (run config
        (earlier_events ++ snapshot_message willing 9000000 message ∷ [])
        desk).keyboard in
    ((u : ℕ) → mem u k.pressed ≡ mem u (state_machine (press_a ∷ mark_a ∷ []) []))
    × (k.modifiers ≡ 0)
sender_heals_example =
    sender_heals config willing 9000000 90 12 (first_round ∷ empty_round ∷ [])
      (press_a ∷ mark_a ∷ []) snapshot_moves
      ((drain (outbox_run snapshot_moves new_outbox)).sent ∷ []) earlier_events desk snapshot_calls
      snapshots_in_order (append-nil _)

-- The press comes through; the release is lost.
abbrev script : List Sent
script =
    record {
      turn = record { event = press_a; t_ms = 90; lost = false };
      os = willing;
      now_ns = 95000000;
    }
    ∷ record {
      turn = record { event = release_a; t_ms = 100; lost = true };
      os = willing;
      now_ns = 105000000;
    }
    ∷ []

edge_sender-mem_example :
    mem 4
      (run config
        (edge_arrivals script
          (receive_all edge_receiver (edge_sender 0 (turns script) ∷ []) []).messages)
        (start (codes "/tmp/hidra.kbd") 0)).keyboard.pressed
    ≡ held_after (changes_of_turns (turns script)) none_held 4
edge_sender-mem_example =
    edge_sender-mem config 100 refl script (edge_sender 0 (turns script) ∷ [])
      (start (codes "/tmp/hidra.kbd") 0)
      ((omega arith, omega arith), ((omega arith, omega arith), tt)) (unfold start initial in refl)
      (append-nil _) 4

-- "a b": the release of `a` is lost, and the datagrams of the blank name no key.
abbrev shot : Bytes → Bytes → ℕ → Met
shot cmd key delay = record {
  shot = record {
    event = record { delay = delay; cmd = cmd; key = key; is_marker = false };
    lost = same_bytes cmd (codes "up") && same_bytes key (codes "a");
  };
  meeting = record { os = willing; os' = broken; now_ns = 7000000; now = 0 };
}

abbrev plain_script : List Met
plain_script =
    shot (codes "down") (codes "a") 10
    ∷ shot (codes "up") (codes "a") 20
    ∷ shot (codes "down") (codes " ") 10
    ∷ shot (codes "up") (codes " ") 20
    ∷ shot (codes "down") (codes "b") 10
    ∷ shot (codes "up") (codes "b") 20
    ∷ []

send_udp-mem_example :
    mem 4
      (run config
        (arrivals (meetings_of (kept plain_script)) (send_udp (shots plain_script)))
        (start (codes "/tmp/hidra.kbd") 0)).keyboard.pressed
    ≡ held_after (changes_of_events (events_of (kept plain_script))) none_held 4
send_udp-mem_example =
    send_udp-mem config 100 refl (omega arith) (codes "a b") plain_script
      (start (codes "/tmp/hidra.kbd") 0) (unfold typed_text key_of_char in refl)
      (omega arith, (omega arith, (omega arith, (omega arith, (omega arith, (omega arith, tt))))))
      (unfold start initial in refl) 4

workload-one_key_example :
    (length (state_machine (take 5 (workload_events (codes "apt\n") 2 10)) []) ≤ 1)
    × (state_machine (workload_events (codes "apt\n") 2 10) [] ≡ [])
workload-one_key_example = workload-one_key (codes "apt\n") 2 10 5
