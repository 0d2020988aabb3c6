-- ===== src/HidSocket/Race/Alone.antt =====
-- `HidSocket::send_report` cut into moves, against the uncut function.
use quic_keys.Common.{false, [], ◌≡◌, arith, replicate}
use quic_keys.Report.{HidReport8}
use quic_keys.HidSocket.{HidSocket, Kernel, ensure_connected, send_report}
use quic_keys.HidSocket.Race.{Place, testing, finished, move, turn, interleave}

-- In eight moves of its own, from any state of the object, a thread comes to the end of `send_report`,
-- with the object and the calls that the uncut function gives; the other thread stays where it is.
pub alone-send_report :
    (os os' : Kernel) (r r' : HidReport8) (h : HidSocket) (p : Place)
    → let (h', calls) = send_report os r h in
      interleave os os' r r'
        (replicate 8 false)
        (record { used = record { hid = h; calls = [] }; first = testing; second = p })
      ≡ record { used = record { hid = h'; calls = calls }; first = finished; second = p }
unfolding interleave turn move send_report ensure_connected
alone-send_report os os' r r' h p = ground arith
