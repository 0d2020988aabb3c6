-- ===== src/Daemon/Streams.antt =====
-- From the client's snapshots to the daemon's state: the records go through
-- `MsQuicServer::stream_cb` and the snapshot callback of `main`, record by record.
use quic_keys.Common.{
  ℕ, ◌/◌, ◌%◌, ◌^◌, ◌<◌, ◌&&◌, List, [], ◌∷◌, ◌++◌, ◌≡◌, refl, ◌∙◌, ap, arith, Bytes, All, length,
  map, map-append, true, All-append,
}
use quic_keys.KeySet.{mem}
use quic_keys.HidSocket.{Kernel}
use quic_keys.Wire.{byte_at}
use quic_keys.Stream.{Receiver, receive_all}
use quic_keys.Stream.Framing.{concat, bytes_of, deliver-concat, receive_all-deliver}
use quic_keys.Snapshot.{build_snapshot, is_keyboard_usage, test_bit}
use quic_keys.Snapshot.RoundTrip.{parse-build, built_length}
use quic_keys.Keyboard.Snapshots.{reconcile-pressed}
use quic_keys.Daemon.{
  Config, Daemon, Event, snapshot_message, step, run, handle_snapshot, snapshot_arrived, send_state,
}

-- `quicServer.start(…, /*record_size*/52)` with the snapshot callback
abbrev pub snapshot_receiver : Receiver
snapshot_receiver = record { has_callback = true; record_size = 52 }

pub run-append :
    (c : Config) (xs ys : List Event) (d : Daemon) → run c (xs ++ ys) d ≡ run c ys (run c xs d)
unfolding run
run-append c [] ys d = refl
run-append c (x ∷ xs) ys d = run-append c xs ys (step c x d).daemon

-- A snapshot of the client decides the keys and the modifiers, connected or not.
pub snapshot_decides :
    (os : Kernel) (now_ns mods version seq t_ms : ℕ) (pressed_bits : Bytes) (d : Daemon)
    → mods < 2 ^ 32
    → version < 2 ^ 32
    → length pressed_bits ≡ 32
    → let k =
        (handle_snapshot os now_ns
          (build_snapshot mods pressed_bits version seq t_ms)
          d).daemon.keyboard in
      ((u : ℕ)
        → mem u k.pressed
          ≡ (is_keyboard_usage u && test_bit (byte_at pressed_bits (u / 8)) (u % 8)))
      × (k.modifiers ≡ mods % 256)
unfolding handle_snapshot snapshot_arrived send_state
snapshot_decides os now_ns mods version seq t_ms bits d hm hv hl =
    let (s, parsed, v, m, named) = parse-build mods version seq t_ms bits hm hv hl in
    let (keys, low) = reconcile-pressed now_ns s.snap_mods s.new_pressed d.keyboard in
    rw (parsed, handle_snapshot) (λ u. ap (mem u) keys ∙ named u, low ∙ m)

-- If the bytes of a stream are records of 52 bytes and then a snapshot of the client (a bitmap of
-- 32 bytes, a version and modifiers of 32 bits), however they are split over RECEIVE events and
-- their buffers, then after the handler got its messages the keys held are the keyboard usages in
-- the bitmap and the modifiers the low byte of the snapshot's.
pub stream_heals :
    (c : Config) (os : Kernel) (now_ns mods version seq t_ms : ℕ) (pressed_bits : Bytes)
    (events : List (List Bytes)) (before : List Bytes) (d : Daemon)
    → mods < 2 ^ 32
    → version < 2 ^ 32
    → length pressed_bits ≡ 32
    → All (λ m. length m ≡ 52) before
    → bytes_of events ≡ concat (before ++ build_snapshot mods pressed_bits version seq t_ms ∷ [])
    → let records = (receive_all snapshot_receiver events []).messages in
      let k = (run c (map (snapshot_message os now_ns) records) d).keyboard in
      ((u : ℕ)
        → mem u k.pressed
          ≡ (is_keyboard_usage u && test_bit (byte_at pressed_bits (u / 8)) (u % 8)))
      × (k.modifiers ≡ mods % 256)
unfolding run step
stream_heals c os now_ns mods version seq t_ms bits events before d hm hv hl sizes same =
    let last = build_snapshot mods bits version seq t_ms in
    let whole : length last ≡ 52 = omega (arith, built_length mods version seq t_ms bits) in
    let cut : receive_all snapshot_receiver events []
        ≡ record { messages = before ++ last ∷ []; pending = [] } =
      receive_all-deliver 52 events [] (omega arith) (omega arith)
      ∙ rw same (
          deliver-concat 52 (before ++ last ∷ []) (omega arith)
            (All-append _ before (last ∷ []) sizes (whole, tt))) in
    let apart = map-append (snapshot_message os now_ns) before (last ∷ []) in
    let earlier = map (snapshot_message os now_ns) before in
    let runs = run-append c earlier (snapshot_message os now_ns last ∷ []) d in
    rw cut (
      rw apart (
        rw runs (snapshot_decides os now_ns mods version seq t_ms bits (run c earlier d) hm hv hl)))
