-- ===== src/HidSocket/Race.antt =====
-- `HidSocket::send_report` of daemon/src/main.cpp cut at its uses of `fd_`, for two threads that call it on
-- one object with no lock.
pub mod Alone
pub mod Leak
use quic_keys.Common.{
  ℕ, Bool, true, false, List, [], ◌∷◌, ◌++◌, Option, none, some, Bytes, if◌then◌else◌,
}
use quic_keys.Report.{HidReport8}
use quic_keys.HidSocket.{
  HidSocket, Kernel, Syscall, socket_failed, socket_opened, connect_called, send_called,
  close_called, sun_path,
}

-- What a thread does next: the first test of `fd_`, that of `ensure_connected`, the call of `socket`
-- with the assignment, the test behind it, `connect`, `send`, the `close` of either failure, and the
-- assignment of -1.
pub data Place : Type 0 where
  testing asking opening opened connecting sending closing clearing finished : Place

-- The object, with the system calls so far.
pub record Used : Type 0 where
  pub hid : HidSocket
  pub calls : List Syscall

abbrev called : Syscall → Used → Used
called x s = record s { calls = s.calls ++ x ∷ [] }

abbrev with_fd : Option ℕ → Used → Used
with_fd fd s = record s { hid = record (s.hid) { fd = fd } }

-- A call on the descriptor -1 fails and is not noted.
pub move : Kernel → HidReport8 → Place → Used → Place × Used
move os r testing s = elim s.hid.fd [ none ↦ (asking, s) | some fd ↦ (sending, s) ]
move os r asking s = elim s.hid.fd [ none ↦ (opening, s) | some fd ↦ (sending, s) ]
move os r opening s = elim os.socket_result [
  | none ↦ (opened, called socket_failed (with_fd none s))
  | some fd ↦ (opened, called (socket_opened fd) (with_fd (some fd) s))
]
move os r opened s = elim s.hid.fd [ none ↦ (finished, s) | some fd ↦ (connecting, s) ]
move os r connecting s = elim s.hid.fd [
  | none ↦ (closing, s)
  | some fd ↦ (
    if os.connect_result then sending else closing,
    called (connect_called fd (sun_path s.hid.path) os.connect_result) s,
  )
]
move os r sending s = elim s.hid.fd [
  | none ↦ (closing, s)
  | some fd ↦ (
    elim os.send_result [ none ↦ closing | some n ↦ finished ],
    called (send_called fd r.bytes os.send_result) s,
  )
]
move os r closing s = elim s.hid.fd [
  | none ↦ (clearing, s)
  | some fd ↦ (clearing, called (close_called fd) s)
]
move os r clearing s = (finished, with_fd none s)
move os r finished s = (finished, s)

-- Two threads, with the answers that each meets and the report that each sends.
pub record Pair : Type 0 where
  pub used : Used
  pub first : Place
  pub second : Place

module _ (os os' : Kernel) (r r' : HidReport8) where
  pub turn : Bool → Pair → Pair
  turn false s = let (p, u) = move os r s.first s.used in record s { used = u; first = p }
  turn true s = let (p, u) = move os' r' s.second s.used in record s { used = u; second = p }

  -- A schedule says whose turn it is, `true` for the second thread.
  pub interleave : List Bool → Pair → Pair
  interleave [] s = s
  interleave (t ∷ ts) s = interleave ts (turn t s)
