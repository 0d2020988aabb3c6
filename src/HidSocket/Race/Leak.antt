-- ===== src/HidSocket/Race/Leak.antt =====
-- Two threads in `HidSocket::send_report` at once, and the descriptors that are left.
use quic_keys.Common.{ℕ, Bool, true, false, List, [], ◌∷◌, ◌++◌, none, some, ◌≡◌, ◌≢◌, arith, Bytes}
use quic_keys.Report.{HidReport8}
use quic_keys.HidSocket.{Kernel, connected, destroy}
use quic_keys.HidSocket.Descriptors.{perform_all}
use quic_keys.HidSocket.Race.{testing, finished, move, Pair, turn, interleave}

-- Both threads test `fd_` before either has opened a socket.
abbrev pub schedule : List Bool
schedule =
    false ∷ false ∷ true ∷ true ∷ false ∷ true ∷ false ∷ true ∷ false ∷ true ∷ true ∷ true ∷ false
    ∷ false ∷ false ∷ []

abbrev pub begun : Bytes → Pair
begun path = record {
  used = record { hid = connected path; calls = [] };
  first = testing;
  second = testing;
}

abbrev pub opens : ℕ → Bool → Kernel
opens fd accepted = record {
  socket_result = some fd;
  connect_result = accepted;
  send_result = none;
}

-- Two threads that find the object without a descriptor can both open one, `a` and `b`: the second
-- assignment hides `a`, the second `connect` on `b` is refused, and both are done with no report sent and
-- the object without a descriptor. Its destructor then leaves `a` open.
pub race_leaks :
    (path : Bytes) (a b : ℕ) (r r' : HidReport8)
    → a ≢ b
    → let s = interleave (opens a true) (opens b false) r r' schedule (begun path) in
      (s.first ≡ finished)
      × (s.second ≡ finished)
      × (s.used.hid ≡ connected path)
      × (perform_all (s.used.calls ++ destroy s.used.hid) [] ≡ some (a ∷ []))
unfolding interleave turn move perform_all destroy connected
race_leaks path a b r r' differ = ground arith
