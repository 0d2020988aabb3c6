-- ===== src/Examples/Servers.antt =====
-- The theorems on `MsQuicServer`: a start that fails at the certificate, and a stream.
use quic_keys.Common.{◌≡◌, true, false, [], ◌∷◌, ◌++◌, arith, some, none, map}
use quic_keys.Stream.{deliver}
use quic_keys.Stream.Framing.{bytes_of}
use quic_keys.MsQuic.{Answers, closed, new_server, start, stop, received, peer_send_shutdown}
use quic_keys.MsQuic.Handles.{perform_all, start-stop}
use quic_keys.MsQuic.Streams.{run_stream, by_peer, stream_lifetime}

-- No certificate.
abbrev uncertified : Answers
uncertified = record {
  open2 = some 1;
  registration_open = some 2;
  configuration_open = some 3;
  load_credential = false;
  listener_open = some 4;
  listener_start = true;
}

start-stop_example :
    let (ok, s, calls) = start uncertified 4445 52 new_server in
    (perform_all (calls ++ (stop s).1) [] ≡ some []) × ((stop s).0 ≡ new_server)
start-stop_example = start-stop uncertified 4445 52

stream_lifetime_example :
    run_stream
      (record { has_callback = true; record_size = 2 })
      7
      (map received (((1 ∷ []) ∷ []) ∷ ((2 ∷ 3 ∷ []) ∷ []) ∷ []) ++ peer_send_shutdown ∷ [])
      (some [])
    ≡ some (record {
      context = none;
      messages = (deliver 2 (bytes_of (((1 ∷ []) ∷ []) ∷ ((2 ∷ 3 ∷ []) ∷ []) ∷ []))).messages;
      calls = closed 7 ∷ [];
    })
stream_lifetime_example =
    stream_lifetime 2 7 (((1 ∷ []) ∷ []) ∷ ((2 ∷ 3 ∷ []) ∷ []) ∷ []) peer_send_shutdown
      (omega arith) by_peer
