-- ===== src/Examples/Interleavings.antt =====
-- Two threads, say the UDP loop and a worker of MsQuic, and what the monitor does in the end.
use quic_keys.Common.{
  ℕ, ◌<◌, ◌≡◌, true, false, [], ◌∷◌, ◌++◌, refl, arith, Bytes, length, All, List, codes, some,
}
use quic_keys.KeySet.{mem}
use quic_keys.Keyboard.{Action, edge, initial, apply}
use quic_keys.Daemon
use quic_keys.Daemon.{Daemon, edge_message, monitor}
use quic_keys.HidSocket.{connected, destroy}
use quic_keys.HidSocket.Descriptors.{perform_all}
use quic_keys.HidSocket.Race.{interleave, finished}
use quic_keys.HidSocket.Race.Leak
use quic_keys.HidSocket.Race.Leak.{opens, schedule, race_leaks}
use quic_keys.Report.{report_of}
use quic_keys.Daemon.Liveness.{edge_message-NamesNone, unnamed_key_ends}
use quic_keys.Stream.{deliver_loop, deliver}
use quic_keys.Stream.Framing.{concat, deliver_loop-ends}
use quic_keys.Threads.{
  idle, edited, picked, announces, current, entered, emitted, update, Shared, System, init, Reach,
  begun, later, turn, section, pick, emit,
}
use quic_keys.Threads.Consistency.{WasCurrent, IsConsistent, Reach-IsConsistent}
use quic_keys.Threads.Delivery.{WasGiven, idle-WasGiven}
use quic_keys.Threads.Overtaking.{reports_overtake}
use quic_keys.Device.{read_all}
use quic_keys.Device.Ingest.{apply_all}
use quic_keys.EndToEnd.Interleaved.{report_bytes, guest_follows}
use quic_keys.Examples.Reports.{guest-Holds}
use quic_keys.Examples.Keyboards.{typing-IsValid}
use quic_keys.Examples.{config, limits, willing, desk, guest}

-- An edge of the reliable stream: `a` down, sent at 8 ms.
abbrev again : Bytes
again = 0 ∷ 0 ∷ 0 ∷ 1 ∷ 0 ∷ 0 ∷ 0 ∷ 0 ∷ 0 ∷ 0 ∷ 0 ∷ 8 ∷ 0 ∷ 4 ∷ 1 ∷ 0 ∷ []

abbrev down_a : Action
down_a = edge 1 4 true

abbrev down_b : Action
down_b = edge 2 5 true

-- Thread 0 handles an edge from its section to its report.
abbrev pressed_shared : Shared
pressed_shared = emitted (current (apply limits down_a initial)) (entered limits down_a init.shared)

abbrev pressed : System
unfolding init
pressed = record {
  shared = pressed_shared;
  pc =
      update (update (update init.pc 0 edited) 0 (picked (current (apply limits down_a initial)))) 0
        idle;
}

pressed-Reach : Reach limits 1 pressed
unfolding init announces
pressed-Reach =
    let first = later begun (turn 0 (omega arith) (section down_a (omega arith))) in
    let second = later first (turn 0 (omega arith) pick) in
    later second (turn 0 (omega arith) (emit (current (apply limits down_a initial))))

Reach-IsConsistent_example : IsConsistent limits pressed.shared
Reach-IsConsistent_example = Reach-IsConsistent limits 1 pressed pressed-Reach

idle-WasGiven_example :
    WasGiven (current pressed.shared.keyboard) (current (apply limits down_a initial) ∷ [])
unfolding pressed apply
idle-WasGiven_example =
    idle-WasGiven limits 1 pressed pressed-Reach (λ i h. unfold init in ground arith)
      (unfold announces in refl)

-- The bytes of its one report come in one read.
guest_follows_example :
    let reads : List Bytes = (current pressed.shared.keyboard).bytes ∷ [] in
    ((read_all 16 reads guest).hid ≡ apply_all 16 (report_bytes pressed.shared.sent) guest.hid)
    × All (WasCurrent limits pressed.shared.history) pressed.shared.sent
guest_follows_example =
    guest_follows limits 1 16 pressed ((current pressed.shared.keyboard).bytes ∷ []) guest
      pressed-Reach guest-Holds (unfold pressed apply in refl)

-- `a` was named at 5 ms, then it is pressed again, and at 206 ms the monitor scans.
unnamed_key_ends_example :
    mem 4
      (Daemon.run config
        ((edge_message willing 9000000 again ∷ []) ++ monitor willing 206000000 ∷ [])
        desk).keyboard.pressed
    ≡ false
unnamed_key_ends_example =
    unnamed_key_ends config willing 206000000 200 (edge_message willing 9000000 again ∷ []) desk 4
      typing-IsValid refl (omega arith) (omega arith) (omega arith) (omega arith) (omega arith)
      (edge_message-NamesNone config 4 willing 9000000 again, tt)

deliver_loop-ends_example :
    let d = deliver 2 (1 ∷ 2 ∷ 3 ∷ []) in
    (deliver_loop 2 7 (1 ∷ 2 ∷ 3 ∷ []) ≡ d)
    × (length d.pending < 2)
    × All (λ m. length m ≡ 2) d.messages
    × (concat d.messages ++ d.pending ≡ 1 ∷ 2 ∷ 3 ∷ [])
deliver_loop-ends_example = deliver_loop-ends 2 7 (1 ∷ 2 ∷ 3 ∷ []) (omega arith) (omega arith)

reports_overtake_example :
    (t : System) × Reach limits 2 t
    × ((k : ℕ) → init.pc k ≡ idle → t.pc k ≡ idle)
    × (t.shared.keyboard ≡ apply limits down_b (apply limits down_a initial))
    × (t.shared.sent
        ≡ current (apply limits down_b (apply limits down_a initial))
          ∷ current (apply limits down_a initial)
          ∷ [])
unfolding init
reports_overtake_example =
    reports_overtake limits 2 init 0 1 down_a down_b begun (omega arith) (omega arith)
      (λ h. absurd (omega arith)) refl refl (omega arith) (omega arith) (unfold announces in refl)
      (unfold announces in refl)

-- The daemon before any event, on a connected socket.
abbrev fresh : Daemon
fresh = record desk { keyboard = initial }

-- Descriptors 4 and 5.
race_leaks_example :
    let path = codes "/tmp/hidra.kbd" in
    let s =
      interleave
        (opens 4 true)
        (opens 5 false)
        (report_of (4 ∷ []) 0)
        (report_of [] 2)
        schedule
        (Leak.begun path) in
    (s.first ≡ finished)
    × (s.second ≡ finished)
    × (s.used.hid ≡ connected path)
    × (perform_all (s.used.calls ++ destroy s.used.hid) [] ≡ some (4 ∷ []))
race_leaks_example =
    race_leaks (codes "/tmp/hidra.kbd") 4 5 (report_of (4 ∷ []) 0) (report_of [] 2)
      (λ h. absurd (omega arith))
