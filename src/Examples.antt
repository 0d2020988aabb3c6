-- ===== src/Examples.antt =====
-- Concrete states, records and datagrams, at which the theorems are applied and the definitions run.
mod Reports
mod Keyboards
mod Handlers
mod Records
mod Datagrams
mod Sockets
mod Servers
mod Messages
mod Devices
mod Interleavings
mod Clients
mod Parsing
mod Typing
mod Scripts
use quic_keys.Common.{
  ℕ, ◌==◌, if◌then◌else◌, Bool, true, false, [], ◌∷◌, ◌++◌, some, none, Bytes, codes, List,
  replicate,
}
use quic_keys.Common.Int.{pos}
use quic_keys.Keyboard.{Keyboard, KeyMeta, KeyTable, Limits, fresh_meta}
use quic_keys.HidSocket.{HidSocket, Kernel}
use quic_keys.Daemon.{Config, Daemon}
use quic_keys.Device.{keyboard, HidState, UsbHidState}

abbrev pub limits : Limits
limits = record { stuck_ms = pos 300; watchdog_ms = pos 200 }

abbrev pub config : Config
config = record { limits = limits; deadline_ms = pos 100; verbose = false }

-- The operating system connects and sends.
abbrev pub willing : Kernel
willing = record { socket_result = some 4; connect_result = true; send_result = some 8 }

-- It has no descriptor to give.
abbrev pub exhausted : Kernel
exhausted = record { socket_result = none; connect_result = false; send_result = none }

-- The socket is there, but a send fails.
abbrev pub broken : Kernel
broken = record { socket_result = some 5; connect_result = true; send_result = none }

-- `a` was named by a snapshot at 5 ms and went up at the client at 6 ms; `b` was pressed at 7 ms.
abbrev pub table : KeyTable
table u =
    if u == 4
    then record {
      pressed = true;
      last_edge_ns = 4000000;
      last_snapshot_ns = 5000000;
      up_marker_ns = some 6000000;
      stuck_reported = false;
    }
    else if u == 5
    then record {
      pressed = true;
      last_edge_ns = 7000000;
      last_snapshot_ns = 0;
      up_marker_ns = none;
      stuck_reported = false;
    }
    else fresh_meta

abbrev pub typing : Keyboard
typing = record { pressed = 4 ∷ 5 ∷ []; modifiers = 2; keymeta = table }

abbrev pub desk : Daemon
desk = record {
  keyboard = typing;
  hid = record { path = codes "/tmp/hidra.kbd"; fd = some 4 };
  cnt_rx = 3;
  cnt_emit = 2;
  cnt_quic_snapshots = 0;
  last_beat = 0;
}

-- A bitmap with `a` (4) and `i` (12), and with bit 0, which is no keyboard usage.
abbrev pub bits : Bytes
bits = 17 ∷ 16 ∷ replicate 30 0

abbrev pub guest : UsbHidState
guest = record {
  hid = record {
    kind = keyboard;
    protocol = 1;
    idle = 0;
    modifiers = 0;
    key = replicate 16 0;
    keys = 0;
    n = 0;
    idle_pending = false;
    wakeups = 0;
  };
  kbd_sock_buf = replicate 16 0;
  kbd_sock_len = 0;
}
