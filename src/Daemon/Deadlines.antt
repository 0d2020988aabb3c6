-- ===== src/Daemon/Deadlines.antt =====
-- Which edges are dropped as late, what a dropped edge leaves, and what an edge on time does.
use quic_keys.Common.{
  ℕ, ◌+◌, ◌*◌, ◌^◌, ◌/◌, ◌≤◌, ◌<◌, true, false, [], ◌∷◌, Bytes, some, ◌≡◌, ◌≢◌, arith, codes,
  length, ltb, if◌then◌else◌, u64_mod, sub64, add64, same_bytes, le→ltb,
}
use quic_keys.Common.Int.{pos}
use quic_keys.Wire.{byte_at, be_u16, be_u64}
use quic_keys.HidSocket.{Kernel}
use quic_keys.Keyboard.{udp_edge, mark_up, quic_edge}
use quic_keys.Udp.{Datagram, parse_datagram, usage_of}
use quic_keys.Daemon.{
  Config, Daemon, Outcome, dropped_udp, is_late_ns, is_late_ms, stamp, key_command, heartbeat,
  count_rx, run_command, handle_udp, edge_age, edge_arrived, handle_quic_edge, send_state,
}

handle_udp-parsed :
    (c : Config) (os os' : Kernel) (now_ns now : ℕ) (received : Bytes) (m : Datagram) (d : Daemon)
    → parse_datagram received ≡ some m
    → handle_udp c os os' now_ns now received d ≡ run_command c os os' now_ns now m d
unfolding handle_udp
handle_udp-parsed c os os' now_ns now received m d e = rw (e, handle_udp)

-- What a dropped datagram leaves: one more received, one line, and nothing else.
pub drop_outcome : ℕ → Datagram → Daemon → Outcome
drop_outcome now_ns m d = record {
  daemon = record d { cnt_rx = add64 d.cnt_rx 1 };
  lines = dropped_udp (sub64 now_ns (stamp now_ns m)) m.cmd m.key ∷ [];
  calls = [];
}

pub heartbeat-keyboard :
    (c : Config) (os : Kernel) (now : ℕ) (o : Outcome)
    → (heartbeat c os now o).daemon.keyboard ≡ o.daemon.keyboard
unfolding heartbeat
heartbeat-keyboard c os now o = ground arith

-- A datagram of a key that is not known, late or not, leaves the keyboard as it is.
pub handle_udp-unknown :
    (c : Config) (os os' : Kernel) (now_ns now : ℕ) (received : Bytes) (m : Datagram) (d : Daemon)
    → parse_datagram received ≡ some m
    → usage_of m.key ≡ 0
    → (handle_udp c os os' now_ns now received d).daemon.keyboard ≡ d.keyboard
unfolding run_command count_rx
handle_udp-unknown c os os' now_ns now received m d parsed unknown =
    rw (handle_udp-parsed c os os' now_ns now received m d parsed, heartbeat-keyboard)
      (ground (arith, unknown))

module _ (c : Config) (os os' : Kernel) (now_ns now : ℕ) (received : Bytes) (m : Datagram)
    (d : Daemon) (ms : ℕ) (parsed : parse_datagram received ≡ some m)
    (deadline : c.deadline_ms ≡ pos ms) (small : ms < 2 ^ 31) (range : now_ns < u64_mod) where
  -- With a deadline that is on, a datagram whose stamp lies ahead of the daemon's clock by any
  -- amount below 2 ^ 63 ns is dropped too: the age wraps around.
  pub handle_udp-ahead :
      0 < ms
      → now_ns < stamp now_ns m
      → stamp now_ns m < now_ns + 2 ^ 63
      → stamp now_ns m < u64_mod
      → handle_udp c os os' now_ns now received d ≡ drop_outcome now_ns m d
  unfolding run_command drop_outcome
  handle_udp-ahead on ahead near fits =
      let is_late : is_late_ns c (sub64 now_ns (stamp now_ns m)) ≡ true =
        unfold is_late_ns in ground arith in
      rw (handle_udp-parsed c os os' now_ns now received m d parsed, is_late)

  on_time :
      stamp now_ns m ≤ now_ns
      → now_ns ≤ stamp now_ns m + ms * 1000000
      → is_late_ns c (sub64 now_ns (stamp now_ns m)) ≡ false
  unfolding is_late_ns
  on_time past recent = ground arith

  -- A datagram whose stamp lies in the past by at most the deadline, with a key that is known,
  -- takes effect on the state under the lock by its command: a marker, a press, a release, or
  -- nothing.
  pub handle_udp-on_time :
      stamp now_ns m ≤ now_ns
      → now_ns ≤ stamp now_ns m + ms * 1000000
      → usage_of m.key ≢ 0
      → (handle_udp c os os' now_ns now received d).daemon.keyboard ≡ (
          if same_bytes m.cmd (codes "mup")
          then mark_up (stamp now_ns m) (usage_of m.key) d.keyboard
          else if same_bytes m.cmd (codes "down")
          then udp_edge now_ns (usage_of m.key) true d.keyboard
          else if same_bytes m.cmd (codes "up")
          then udp_edge now_ns (usage_of m.key) false d.keyboard
          else d.keyboard)
  unfolding run_command key_command send_state count_rx
  handle_udp-on_time past recent known =
      rw
        (
          handle_udp-parsed c os os' now_ns now received m d parsed,
          on_time past recent,
          heartbeat-keyboard,
        )
        (ground arith)

-- An edge by QUIC is dropped for its age only where the stamp lies in the past: one ahead of the
-- daemon's clock, or not older than the deadline, takes effect if its usage has an entry in `keymeta`,
-- and changes nothing otherwise.
pub handle_quic_edge-on_time :
    (c : Config) (os : Kernel) (now_ns : ℕ) (message : Bytes) (d : Daemon) (ms : ℕ)
    → 16 ≤ length message
    → c.deadline_ms ≡ pos ms
    → now_ns / 1000000 ≤ be_u64 message 4 + ms
    → (handle_quic_edge c os now_ns message d).daemon.keyboard ≡ (
        if ltb (be_u16 message 12) 256
        then quic_edge now_ns
            (be_u16 message 12)
            (byte_at message 14)
            (byte_at message 15)
            d.keyboard
        else d.keyboard)
unfolding handle_quic_edge edge_arrived send_state
handle_quic_edge-on_time c os now_ns message d ms long deadline recent =
    let fresh : is_late_ms c (edge_age now_ns message) ≡ false =
      unfold is_late_ms edge_age in ground arith in
    rw (le→ltb (length message) 16 long, fresh) (ground arith)
