-- ===== src/Daemon/Edges.antt =====
-- The edge records of client/baselines_quic_only.py, as the edge callback of daemon/src/main.cpp takes
-- them.
use quic_keys.Common.{
  ℕ, ◌+◌, ◌/◌, ◌^◌, ◌≤◌, ◌<◌, Bool, true, [], ◌∷◌, ◌++◌, ◌≡◌, refl, ◌∙◌, arith, Bytes, length,
  if◌then◌else◌, lt→ltb, le→ltb, leb, ◌-◌,
}
use quic_keys.Common.Int.{pos}
use quic_keys.Wire.{be_u16, be_u64, put_u16, put_u32, put_u64}
use quic_keys.Wire.RoundTrip.{be_u16_value, be_u64-put}
use quic_keys.HidSocket.{Kernel}
use quic_keys.Keyboard.{quic_edge}
use quic_keys.Daemon.{Config, Daemon, dropped_quic, edge_age, is_late_ms, handle_quic_edge}
use quic_keys.Daemon.Deadlines.{handle_quic_edge-on_time}

-- struct.pack("!IQHBB", seq, t_ms, usage, 1 if cmd == "down" else 0, 0)
unfoldable pub build_edge_record : ℕ → ℕ → ℕ → Bool → Bytes
build_edge_record seq t_ms usage down =
    put_u32 seq ++ (put_u64 t_ms ++ (put_u16 usage ++ (if down then 1 else 0) ∷ 0 ∷ []))

module _ (c : Config) (os : Kernel) (now_ns seq t_ms usage : ℕ) (down : Bool) (d : Daemon) (ms : ℕ)
    (deadline : c.deadline_ms ≡ pos ms) (time : t_ms < 2 ^ 64) (known : usage < 256) where
  record_time : be_u64 (build_edge_record seq t_ms usage down) 4 ≡ t_ms
  unfolding build_edge_record
  record_time = be_u64-put seq t_ms (put_u16 usage ++ (if down then 1 else 0) ∷ 0 ∷ []) time

  record_usage : be_u16 (build_edge_record seq t_ms usage down) 12 ≡ usage
  unfolding build_edge_record
  record_usage = be_u16_value (build_edge_record seq t_ms usage down) 12 (omega arith) ∙ omega arith

  -- A record of a usage below 256 that the client sent at most `deadline_ms` before its arrival,
  -- or that its clock puts ahead of the daemon's, presses or releases the key that it names and
  -- clears the modifiers.
  pub edge_record_applied :
      now_ns / 1000000 ≤ t_ms + ms
      → (handle_quic_edge c os now_ns (build_edge_record seq t_ms usage down) d).daemon.keyboard
        ≡ quic_edge now_ns usage (if down then 1 else 0) 0 d.keyboard
  unfolding build_edge_record
  edge_record_applied recent =
      let message = build_edge_record seq t_ms usage down in
      let fresh : now_ns / 1000000 ≤ be_u64 message 4 + ms = omega (arith, record_time) in
      handle_quic_edge-on_time c os now_ns message d ms (omega arith) deadline fresh
      ∙ rw (record_usage, lt→ltb usage 256 known) refl

  -- An older record, where the deadline is on, changes nothing and sends nothing; its age and usage
  -- are reported.
  pub edge_record_late :
      0 < ms
      → t_ms + ms < now_ns / 1000000
      → handle_quic_edge c os now_ns (build_edge_record seq t_ms usage down) d ≡ record {
        daemon = d;
        lines = dropped_quic (now_ns / 1000000 - t_ms) usage ∷ [];
        calls = [];
      }
  unfolding handle_quic_edge edge_age
  edge_record_late on old =
      let message = build_edge_record seq t_ms usage down in
      let long : 16 ≤ length message = unfold build_edge_record in omega arith in
      let past : leb t_ms (now_ns / 1000000) ≡ true = ground arith in
      let late : is_late_ms c (now_ns / 1000000 - t_ms) ≡ true =
        unfold is_late_ms in ground arith in
      rw (le→ltb (length message) 16 long) (rw record_time (rw (past, record_usage) (rw late)))
