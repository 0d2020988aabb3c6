-- ===== src/Daemon/Reports.antt =====
-- What reaches the HID socket: the report of a handler, and the state and the report after a
-- snapshot of the client.
use quic_keys.Common.{
  ℕ, ◌/◌, ◌%◌, ◌^◌, ◌≤◌, ◌<◌, Bool, ◌&&◌, List, [], ◌∷◌, Bytes, some, ◌≡◌, ◌≢◌, refl, ◌∙◌, ap,
  arith, length, ◌==◌, if◌then◌else◌,
}
use quic_keys.Wire.{byte_at}
use quic_keys.KeySet.{mem}
use quic_keys.Report.{report_of}
use quic_keys.Report.Keys.{shown, mem-shown}
use quic_keys.HidSocket.{Kernel, send_called, send_report}
use quic_keys.Snapshot.{build_snapshot, is_keyboard_usage, test_bit}
use quic_keys.Snapshot.RoundTrip.{parse-build}
use quic_keys.Keyboard.{Keyboard, udp_edge, edge_set, reconcile}
use quic_keys.Keyboard.Snapshots.{reconcile-pressed}
use quic_keys.Keyboard.Edges.{mem-edge_set}
use quic_keys.Daemon.{Config, Daemon, Event, run, send_state, snapshot_arrived, handle_snapshot}

-- On a connected socket whose `send` succeeds, one call carries the report of the state.
pub send_state-connected :
    (os : Kernel) (d : Daemon) (fd n : ℕ)
    → d.hid.fd ≡ some fd
    → os.send_result ≡ some n
    → send_state os d
      ≡ (d, send_called fd (report_of d.keyboard.pressed d.keyboard.modifiers).bytes (some n) ∷ [])
unfolding send_state send_report
send_state-connected os d fd n hf hn = ground arith

-- A press or release shows in the report of the state after it, and no other key changes there,
-- while at most six keys are down after it; the usage 0 is no key.
pub edge_shown :
    (k : Keyboard) (now_ns u j : ℕ) (down : Bool)
    → j ≢ 0
    → length (udp_edge now_ns u down k).pressed ≤ 6
    → mem j
        (shown (report_of (udp_edge now_ns u down k).pressed (udp_edge now_ns u down k).modifiers))
      ≡ (if j == u then down else mem j k.pressed)
unfolding udp_edge
edge_shown k now_ns u j down h few =
    mem-shown (edge_set u down k.pressed) k.modifiers j h few ∙ mem-edge_set j u down k.pressed

-- Whatever happened before (`events`, from any state), when a snapshot of the client with a bitmap
-- of 32 bytes and a version and modifiers of 32 bits arrives, the keys held are the keyboard
-- usages in its bitmap and the modifiers are the low byte of its modifiers; on a connected socket
-- whose `send` succeeds, one report of just that state is sent.
pub snapshot_heals :
    (c : Config) (events : List Event) (d : Daemon) (os : Kernel) (now_ns : ℕ)
    (mods version seq t_ms : ℕ) (pressed_bits : Bytes) (fd n : ℕ)
    → mods < 2 ^ 32
    → version < 2 ^ 32
    → length pressed_bits ≡ 32
    → (run c events d).hid.fd ≡ some fd
    → os.send_result ≡ some n
    → let o =
        handle_snapshot os now_ns
          (build_snapshot mods pressed_bits version seq t_ms)
          (run c events d) in
      ((u : ℕ)
        → mem u o.daemon.keyboard.pressed
          ≡ (is_keyboard_usage u && test_bit (byte_at pressed_bits (u / 8)) (u % 8)))
      × (o.daemon.keyboard.modifiers ≡ mods % 256)
      × (o.calls
          ≡ send_called fd
              (report_of o.daemon.keyboard.pressed o.daemon.keyboard.modifiers).bytes
              (some n)
            ∷ [])
unfolding handle_snapshot snapshot_arrived
snapshot_heals c events d os now_ns mods version seq t_ms bits fd n hm hv hl hf hn =
    let (s, parsed, v, m, named) = parse-build mods version seq t_ms bits hm hv hl in
    let before = run c events d in
    let k = (reconcile now_ns s.snap_mods s.new_pressed before.keyboard).0 in
    let (keys, low) = reconcile-pressed now_ns s.snap_mods s.new_pressed before.keyboard in
    let sent = send_state-connected os (record before { keyboard = k }) fd n hf hn in
    rw (parsed, handle_snapshot) (rw sent ((λ u. ap (mem u) keys ∙ named u), low ∙ m, refl))
