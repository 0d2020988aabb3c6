-- ===== src/HidSocket.antt =====
-- `class HidSocket` of daemon/src/main.cpp: the connection to QEMU's HID socket. The operating
-- system answers each call through a `Kernel`; what the class asks of it is a list of `Syscall`.
pub mod Descriptors
pub mod Race
use quic_keys.Common.{ℕ, Bool, true, false, List, [], ◌∷◌, ◌++◌, Option, none, some, Bytes, take}
use quic_keys.Report.{HidReport8}

-- `none` is a negative descriptor.
pub record HidSocket : Type 0 where
  pub path : Bytes
  pub fd : Option ℕ

-- The answers to the calls that one operation may make: the descriptor that `socket` gives, whether
-- `connect` succeeds, and the number of bytes that `send` takes (`none` is a negative result).
pub record Kernel : Type 0 where
  pub socket_result : Option ℕ
  pub connect_result : Bool
  pub send_result : Option ℕ

pub data Syscall : Type 0 where
  socket_failed : Syscall
  socket_opened : ℕ → Syscall
  connect_called : ℕ → Bytes → Bool → Syscall
  send_called : ℕ → Bytes → Option ℕ → Syscall
  close_called : ℕ → Syscall

-- `snprintf(addr.sun_path, sizeof(addr.sun_path), "%s", …)`: 108 bytes, the last of which is the
-- terminator.
pub sun_path : Bytes → Bytes
sun_path path = take 107 path

pub connected : Bytes → HidSocket
connected path = record { path = path; fd = none }

-- The part of `ensure_connected` behind a successful `socket`.
connect_new : Kernel → ℕ → HidSocket → Bool × HidSocket × List Syscall
connect_new os fd h = elim os.connect_result [
  | true ↦ (
    true,
    record h { fd = some fd },
    socket_opened fd ∷ connect_called fd (sun_path h.path) true ∷ [],
  )
  | false ↦ (
    false,
    record h { fd = none },
    socket_opened fd ∷ connect_called fd (sun_path h.path) false ∷ close_called fd ∷ [],
  )
]

unfoldable pub ensure_connected : Kernel → HidSocket → Bool × HidSocket × List Syscall
unfolding connect_new
ensure_connected os h = elim h.fd [
  | some fd ↦ (true, h, [])
  | none ↦ elim os.socket_result [
    | none ↦ (false, h, socket_failed ∷ [])
    | some fd ↦ connect_new os fd h
  ]
]

-- `send`, and `close` where it fails.
send_on : Kernel → ℕ → Bytes → HidSocket → HidSocket × List Syscall
send_on os fd bytes h = elim os.send_result [
  | some n ↦ (h, send_called fd bytes (some n) ∷ [])
  | none ↦ (record h { fd = none }, send_called fd bytes none ∷ close_called fd ∷ [])
]

-- `if (fd_ < 0 && !ensure_connected()) return;` and what follows it; with a descriptor at hand
-- `ensure_connected` does nothing.
after_connect : Kernel → Bytes → Bool × HidSocket × List Syscall → HidSocket × List Syscall
after_connect os bytes (false, h, calls) = (h, calls)
after_connect os bytes (true, h, calls) = elim h.fd [
  | none ↦ (h, calls)
  | some fd ↦ let (h', more) = send_on os fd bytes h in (h', calls ++ more)
]

unfoldable pub send_report : Kernel → HidReport8 → HidSocket → HidSocket × List Syscall
unfolding ensure_connected after_connect send_on
send_report os r h = after_connect os r.bytes (ensure_connected os h)

-- `~HidSocket`
pub destroy : HidSocket → List Syscall
destroy h = elim h.fd [ none ↦ [] | some fd ↦ close_called fd ∷ [] ]

-- The class's operations as calls, with the answers that each meets.
pub data Call : Type 0 where
  ensures : Kernel → Call
  sends : Kernel → HidReport8 → Call

pub step : Call → HidSocket → HidSocket × List Syscall
unfolding ensure_connected send_report
step (ensures os) h = let (ready, h', calls) = ensure_connected os h in (h', calls)
step (sends os r) h = send_report os r h

unfoldable pub run : List Call → HidSocket → HidSocket × List Syscall
run [] h = (h, [])
run (x ∷ xs) h = let (h', calls) = step x h in let (h'', more) = run xs h' in (h'', calls ++ more)
