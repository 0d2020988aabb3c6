-- ===== src/Daemon.antt =====
-- The handlers of `main` in daemon/src/main.cpp: the UDP loop, the snapshot callback and the edge
-- callback of the two QUIC servers, and the monitor thread. Each takes the clock readings and the
-- operating system's answers that it meets and returns the new state, what it writes to std::cerr
-- and the calls on the HID socket.
pub mod Deadlines
pub mod Validity
pub mod Reports
pub mod Streams
pub mod Edges
pub mod Liveness
pub mod Sends
pub mod Loops
pub mod Snapshots
use quic_keys.Common.{
  ℕ, ◌+◌, ◌-◌, ◌*◌, ◌/◌, ◌%◌, Bool, true, false, ◌&&◌, ◌||◌, List, [], ◌∷◌, ◌++◌, Option, none,
  some, Bytes, codes, ltb, leb, ◌==◌, if◌then◌else◌, length, sub64, add64, same_bytes, map,
}
use quic_keys.Common.Int.{ℤ, is_positive, pos_part}
use quic_keys.Report.{HidReport8, report_of}
use quic_keys.Wire.{byte_at, be_u32, be_u16, be_u64}
use quic_keys.Snapshot.{Snapshot, parse_snapshot}
use quic_keys.Keyboard.{
  Keyboard, Limits, Log, initial, reconcile, expire, udp_edge, mark_up, quic_edge,
}
use quic_keys.HidSocket.{HidSocket, Kernel, Syscall, ensure_connected, send_report, connected}
use quic_keys.Udp.{Datagram, parse_datagram, usage_of}

-- The options that the handlers read.
pub record Config : Type 0 where
  pub limits : Limits
  pub deadline_ms : ℤ
  pub verbose : Bool

pub record Daemon : Type 0 where
  pub keyboard : Keyboard
  pub hid : HidSocket
  pub cnt_rx : ℕ
  pub cnt_emit : ℕ
  pub cnt_quic_snapshots : ℕ
  pub last_beat : ℕ

-- Lines of std::cerr; ages are kept in nanoseconds (UDP) or milliseconds (QUIC).
pub data Line : Type 0 where
  about : Log → Line
  dropped_udp : ℕ → Bytes → Bytes → Line
  dropped_quic : ℕ → ℕ → Line
  latency_udp : ℕ → Bytes → Bytes → Line
  latency_quic : ℕ → ℕ → ℕ → Line

pub record Outcome : Type 0 where
  pub daemon : Daemon
  pub lines : List Line
  pub calls : List Syscall

abbrev pub unchanged : Daemon → Outcome
unchanged d = record { daemon = d; lines = []; calls = [] }

-- `HidSocket hid(…)`, the empty set and the zero counters of `main`.
unfoldable pub start : Bytes → ℕ → Daemon
start hid_socket now = record {
  keyboard = initial;
  hid = connected hid_socket;
  cnt_rx = 0;
  cnt_emit = 0;
  cnt_quic_snapshots = 0;
  last_beat = now;
}

-- Picking the keys under the lock, building the report and sending it.
unfoldable pub send_state : Kernel → Daemon → Daemon × List Syscall
send_state os d =
    let (h, calls) = send_report os (report_of d.keyboard.pressed d.keyboard.modifiers) d.hid in
    (record d { hid = h }, calls)

-- `args.deadline_ms > 0 && dt_ms > (double)args.deadline_ms` for an age in nanoseconds. The age is
-- divided by 1e6 as a double there; for an `int` of milliseconds the rounding cannot move it over
-- the limit, and the comparison is that of the exact numbers.
pub is_late_ns : Config → ℕ → Bool
is_late_ns c dt_ns = is_positive c.deadline_ms && ltb (pos_part c.deadline_ms * 1000000) dt_ns

-- The same test for an age in milliseconds.
pub is_late_ms : Config → ℕ → Bool
is_late_ms c dt_ms = is_positive c.deadline_ms && ltb (pos_part c.deadline_ms) dt_ms

-- The UDP loop.

-- What a datagram that is not late does with a known key, before `++cnt_rx`.
key_command : Kernel → ℕ → ℕ → Datagram → ℕ → Daemon → Outcome
key_command os now_ns t_ns m usage d =
    let down = same_bytes m.cmd (codes "down") in
    let marked = record d { keyboard = mark_up t_ns usage d.keyboard } in
    let edged = record d { keyboard = udp_edge now_ns usage down d.keyboard } in
    let (sent, calls) = send_state os edged in
    if same_bytes m.cmd (codes "mup")
    then unchanged marked
    else if down || same_bytes m.cmd (codes "up")
    then record {
      daemon = record sent { cnt_emit = add64 sent.cnt_emit 1 };
      lines = latency_udp (sub64 now_ns t_ns) m.cmd m.key ∷ [];
      calls = calls;
    }
    else unchanged d

-- The verbose progress line, every two seconds: it connects the HID socket.
pub heartbeat : Config → Kernel → ℕ → Outcome → Outcome
heartbeat c os now o =
    let (ready, h, calls) = ensure_connected os o.daemon.hid in
    if c.verbose && leb 2000000000 (now - o.daemon.last_beat)
    then record {
      daemon = record (o.daemon) { hid = h; last_beat = now };
      lines = o.lines;
      calls = o.calls ++ calls;
    }
    else o

count_rx : Outcome → Outcome
count_rx o = record o { daemon = record (o.daemon) { cnt_rx = add64 o.daemon.cnt_rx 1 } }

-- The time stamp of a datagram; 0 stands for the time of arrival.
unfoldable pub stamp : ℕ → Datagram → ℕ
stamp now_ns m = if m.t_ns == 0 then now_ns else m.t_ns

-- A datagram with a command. `os` answers the calls of `send_report`, `os'` those of the progress
-- line, which is printed at `now`.
run_command : Config → Kernel → Kernel → ℕ → ℕ → Datagram → Daemon → Outcome
run_command c os os' now_ns now m d =
    let t_ns = stamp now_ns m in
    let dt_ns = sub64 now_ns t_ns in
    let usage = usage_of m.key in
    let acted = if usage == 0 then unchanged d else key_command os now_ns t_ns m usage d in
    if is_late_ns c dt_ns
    then record {
      daemon = record d { cnt_rx = add64 d.cnt_rx 1 };
      lines = dropped_udp dt_ns m.cmd m.key ∷ [];
      calls = [];
    }
    else heartbeat c os' now (count_rx acted)

pub handle_udp : Config → Kernel → Kernel → ℕ → ℕ → Bytes → Daemon → Outcome
handle_udp c os os' now_ns now received d = elim (parse_datagram received) [
  | none ↦ unchanged d
  | some m ↦ run_command c os os' now_ns now m d
]

-- The snapshot callback.
snapshot_arrived : Kernel → ℕ → Snapshot → Daemon → Outcome
snapshot_arrived os now_ns s d =
    let (k, logs) = reconcile now_ns s.snap_mods s.new_pressed d.keyboard in
    let (sent, calls) = send_state os (record d { keyboard = k }) in
    record {
      daemon = record sent {
        cnt_emit = add64 sent.cnt_emit 1;
        cnt_quic_snapshots = add64 sent.cnt_quic_snapshots 1;
      };
      lines = map about logs;
      calls = calls;
    }

pub handle_snapshot : Kernel → ℕ → Bytes → Daemon → Outcome
handle_snapshot os now_ns message d = elim (parse_snapshot message) [
  | none ↦ unchanged d
  | some s ↦ snapshot_arrived os now_ns s d
]

-- The edge callback.
edge_arrived : Kernel → ℕ → ℕ → Bytes → Daemon → Outcome
edge_arrived os now_ns dt_ms message d =
    let usage = be_u16 message 12 in
    let k = quic_edge now_ns usage (byte_at message 14) (byte_at message 15) d.keyboard in
    let (sent, calls) = send_state os (record d { keyboard = k }) in
    record {
      daemon = record sent { cnt_emit = add64 sent.cnt_emit 1 };
      lines = latency_quic dt_ms (be_u32 message 0) usage ∷ [];
      calls = calls;
    }

-- The age of a QUIC edge: 0 if its time lies ahead.
pub edge_age : ℕ → Bytes → ℕ
edge_age now_ns message =
    let now_ms = now_ns / 1000000 in
    let t_ms = be_u64 message 4 in if leb t_ms now_ms then now_ms - t_ms else 0

pub handle_quic_edge : Config → Kernel → ℕ → Bytes → Daemon → Outcome
handle_quic_edge c os now_ns message d =
    let dt_ms = edge_age now_ns message in
    if ltb (length message) 16
    then unchanged d
    else if is_late_ms c dt_ms
    then record { daemon = d; lines = dropped_quic dt_ms (be_u16 message 12) ∷ []; calls = [] }
    else if ltb (be_u16 message 12) 256
    then edge_arrived os now_ns dt_ms message d
    else unchanged d

-- A round of the monitor thread; it reports a release without counting it.
unfoldable pub watchdog_round : Config → Kernel → ℕ → Daemon → Outcome
watchdog_round c os now_ns d =
    let (k, changed, logs) = expire c.limits now_ns d.keyboard in
    let scanned = record d { keyboard = k } in
    let (sent, calls) = send_state os scanned in
    record {
      daemon = if changed then sent else scanned;
      lines = map about logs;
      calls = if changed then calls else [];
    }

-- What may happen next, with the answers and clock readings that the handler meets.
pub data Event : Type 0 where
  udp : Kernel → Kernel → ℕ → ℕ → Bytes → Event
  snapshot_message : Kernel → ℕ → Bytes → Event
  edge_message : Kernel → ℕ → Bytes → Event
  monitor : Kernel → ℕ → Event

unfoldable pub step : Config → Event → Daemon → Outcome
step c (udp os os' now_ns now received) d = handle_udp c os os' now_ns now received d
step c (snapshot_message os now_ns message) d = handle_snapshot os now_ns message d
step c (edge_message os now_ns message) d = handle_quic_edge c os now_ns message d
step c (monitor os now_ns) d = watchdog_round c os now_ns d

unfoldable pub run : Config → List Event → Daemon → Daemon
run c [] d = d
run c (e ∷ es) d = run c es (step c e d).daemon
