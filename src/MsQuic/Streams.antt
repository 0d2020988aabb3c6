-- ===== src/MsQuic/Streams.antt =====
-- A stream from its first byte to its shutdown.
use quic_keys.Common.{
  ℕ, ◌<◌, true, List, [], ◌∷◌, ◌++◌, append-nil, append_assoc, Option, none, some, ◌≡◌, refl, ◌∙◌,
  Bytes, map,
}
use quic_keys.Stream.{Receiver, receive, receive_all, deliver}
use quic_keys.Stream.Framing.{bytes_of, receive_all-deliver}
use quic_keys.MsQuic.{
  closed, StreamEvent, received, peer_send_shutdown, stream_shutdown_complete, StreamState,
  on_stream_event, stream_cb,
}

join_states : StreamState → StreamState → StreamState
join_states a b = record {
  context = b.context;
  messages = a.messages ++ b.messages;
  calls = a.calls ++ b.calls;
}

-- A run of events on one stream; `none` is a fault.
pub run_stream : Receiver → ℕ → List StreamEvent → Option Bytes → Option StreamState
run_stream r stream [] context = some (record { context = context; messages = []; calls = [] })
run_stream r stream (e ∷ es) context = elim (stream_cb r stream e context) [
  | none ↦ none
  | some s ↦ elim (run_stream r stream es s.context) [
    | none ↦ none
    | some s' ↦ some (join_states s s')
  ]
]

-- The two events after which a context is gone.
pub data IsShutdown : StreamEvent → Type 0 where
  by_peer : IsShutdown peer_send_shutdown
  complete : IsShutdown stream_shutdown_complete

run-received :
    (r : Receiver) (stream : ℕ) (events : List (List Bytes)) (rest : List StreamEvent)
    (pending : Bytes) (s : StreamState)
    → let d = receive_all r events pending in
      run_stream r stream rest (some d.pending) ≡ some s
      → run_stream r stream (map received events ++ rest) (some pending)
        ≡ some
            (record { context = s.context; messages = d.messages ++ s.messages; calls = s.calls })
unfolding receive_all run_stream stream_cb on_stream_event join_states
run-received r stream [] rest pending s h = h
run-received r stream (e ∷ es) rest pending s h =
    let first = receive r e pending in
    let rest_of = receive_all r es first.pending in
    rw (run-received r stream es rest first.pending s h)
      (rw (append_assoc first.messages rest_of.messages s.messages) refl)

run_stream-last :
    (r : Receiver) (stream : ℕ) (last : StreamEvent) (pending : Bytes)
    → IsShutdown last
    → run_stream r stream (last ∷ []) (some pending)
      ≡ some (record { context = none; messages = []; calls = closed stream ∷ [] })
unfolding run_stream stream_cb on_stream_event join_states
run_stream-last r stream last pending by_peer = refl
run_stream-last r stream last pending complete = refl

-- With a callback and a record size that is not 0: whatever way the bytes of a stream come in, up
-- to the first shutdown event the handler gets the records of the whole stream, in order; then the
-- stream is closed once and the context is gone.
pub stream_lifetime :
    (record_size stream : ℕ) (events : List (List Bytes)) (last : StreamEvent)
    → 0 < record_size
    → IsShutdown last
    → run_stream
        (record { has_callback = true; record_size = record_size })
        stream
        (map received events ++ last ∷ [])
        (some [])
      ≡ some (record {
        context = none;
        messages = (deliver record_size (bytes_of events)).messages;
        calls = closed stream ∷ [];
      })
stream_lifetime n stream events last h shut =
    let r : Receiver = record { has_callback = true; record_size = n } in
    run-received r stream events (last ∷ []) [] _ (run_stream-last r stream last _ shut)
    ∙ rw (receive_all-deliver n events [] h h, append-nil (deliver n (bytes_of events)).messages)
        refl
