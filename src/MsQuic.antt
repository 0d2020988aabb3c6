-- ===== src/MsQuic.antt =====
-- The life of `MsQuicServer` of daemon/src/msquic_server.cpp: `start` with its early returns, `stop`,
-- and the callbacks of the listener, the connections and the streams. MsQuic itself answers through
-- `Answers`; what the class asks of it is a list of `ApiCall`.
pub mod Handles
pub mod Streams
use quic_keys.Common.{
  ℕ, ◌-◌, Bool, true, false, List, [], ◌∷◌, ◌++◌, Option, none, some, Bytes, codes, take,
}
use quic_keys.Stream.{Receiver, Delivery, receive}

-- The members; a null handle is `none`.
pub record MsQuicServer : Type 0 where
  pub api : Option ℕ
  pub registration : Option ℕ
  pub configuration : Option ℕ
  pub listener : Option ℕ
  pub has_callback : Bool
  pub record_size : ℕ

-- MsQuic's answers to the calls of `start`: a handle, or a status that is not success, in which case
-- the handle is not written.
pub record Answers : Type 0 where
  pub open2 : Option ℕ
  pub registration_open : Option ℕ
  pub configuration_open : Option ℕ
  pub load_credential : Bool
  pub listener_open : Option ℕ
  pub listener_start : Bool

pub data ApiCall : Type 0 where
  opened : ℕ → ApiCall
  open_failed : ApiCall
  credential_loaded : ℕ → Bool → ApiCall
  listener_started : ℕ → ℕ → Bool → ApiCall
  closed : ℕ → ApiCall
  handler_set : ℕ → ApiCall
  configuration_set : ℕ → Option ℕ → ApiCall

pub new_server : MsQuicServer
new_server = record {
  api = none;
  registration = none;
  configuration = none;
  listener = none;
  has_callback = false;
  record_size = 0;
}

abbrev pub Started : Type 0
Started = Bool × MsQuicServer × List ApiCall

-- `ListenerStart` on the port.
start_listening : Answers → ℕ → ℕ → MsQuicServer → Started
start_listening a port l s = (a.listener_start, s, listener_started l port a.listener_start ∷ [])

-- What a step adds in front of the calls of the rest.
after_call : ApiCall → Started → Started
after_call x (done, s, calls) = (done, s, x ∷ calls)

open_listener : Answers → ℕ → MsQuicServer → Started
open_listener a port s = elim a.listener_open [
  | none ↦ (false, s, open_failed ∷ [])
  | some l ↦ after_call (opened l) (start_listening a port l (record s { listener = some l }))
]

load_certificate : Answers → ℕ → ℕ → MsQuicServer → Started
load_certificate a port c s = elim a.load_credential [
  | false ↦ (false, s, credential_loaded c false ∷ [])
  | true ↦ after_call (credential_loaded c true) (open_listener a port s)
]

open_configuration : Answers → ℕ → MsQuicServer → Started
open_configuration a port s = elim a.configuration_open [
  | none ↦ (false, s, open_failed ∷ [])
  | some c ↦ after_call (opened c) (load_certificate a port c (record s { configuration = some c }))
]

open_registration : Answers → ℕ → MsQuicServer → Started
open_registration a port s = elim a.registration_open [
  | none ↦ (false, s, open_failed ∷ [])
  | some r ↦ after_call (opened r) (open_configuration a port (record s { registration = some r }))
]

pub start : Answers → ℕ → ℕ → MsQuicServer → Started
start a port size s =
    let s' = record s { has_callback = true; record_size = size } in
    elim a.open2 [
      | none ↦ (false, s', open_failed ∷ [])
      | some q ↦ after_call (opened q) (open_registration a port (record s' { api = some q }))
    ]

close_call : Option ℕ → List ApiCall
close_call none = []
close_call (some h) = closed h ∷ []

-- Also the destructor.
pub stop : MsQuicServer → MsQuicServer × List ApiCall
unfolding new_server
stop s = (
  new_server,
  close_call s.listener
      ++ (close_call s.configuration ++ (close_call s.registration ++ close_call s.api)),
)

-- The files of the certificate and its key: the relative ones if they can be read, else beside the
-- folder of the executable, if `readlink` gives it. `dirname` is the C library's.
abbrev path_max : ℕ
path_max = 4096

beside : Bytes → Bytes → Bytes
beside dir file = take (path_max - 1) (dir ++ file)

pub certificate_paths : Bool → Option Bytes → Bytes × Bytes
certificate_paths readable exe_dir = elim readable [
  | true ↦ (codes "daemon/cert.pem", codes "daemon/cert.key")
  | false ↦ elim exe_dir [
    | none ↦ (codes "daemon/cert.pem", codes "daemon/cert.key")
    | some dir ↦ (beside dir (codes "/../cert.pem"), beside dir (codes "/../cert.key"))
  ]
]

-- The listener's callback: a new connection gets its handler and the configuration.
pub data ListenerEvent : Type 0 where
  new_connection : ℕ → ListenerEvent
  other_listener_event : ListenerEvent

pub listener_cb : MsQuicServer → ListenerEvent → List ApiCall
listener_cb s (new_connection conn) = handler_set conn ∷ configuration_set conn s.configuration ∷ []
listener_cb s other_listener_event = []

-- The callback of a connection. A stream that the peer starts gets a context of its own.
pub data ConnectionEvent : Type 0 where
  connected : ConnectionEvent
  peer_stream_started : ℕ → ConnectionEvent
  shutdown_by_transport : ConnectionEvent
  shutdown_by_peer : ConnectionEvent
  shutdown_complete : ConnectionEvent
  other_connection_event : ConnectionEvent

pub data ConnectionLine : Type 0 where
  connected_line peer_stream_started_line by_transport_line by_peer_line complete_line :
      ConnectionLine

pub record ConnectionOutcome : Type 0 where
  pub lines : List ConnectionLine
  pub calls : List ApiCall
  pub context : Option Bytes

-- The three shutdown cases fall through, each to the next.
pub conn_cb : ℕ → ConnectionEvent → ConnectionOutcome
conn_cb conn connected = record { lines = connected_line ∷ []; calls = []; context = none }
conn_cb conn (peer_stream_started stream) = record {
  lines = peer_stream_started_line ∷ [];
  calls = handler_set stream ∷ [];
  context = some [];
}
conn_cb conn shutdown_by_transport = record {
  lines = by_transport_line ∷ complete_line ∷ [];
  calls = closed conn ∷ [];
  context = none;
}
conn_cb conn shutdown_by_peer = record {
  lines = by_peer_line ∷ complete_line ∷ [];
  calls = closed conn ∷ [];
  context = none;
}
conn_cb conn shutdown_complete = record {
  lines = complete_line ∷ [];
  calls = closed conn ∷ [];
  context = none;
}
conn_cb conn other_connection_event = record { lines = []; calls = []; context = none }

-- The callback of a stream. `context` is `pending` of the stream's `StreamCtx`, `none` once that is
-- deleted; an event that finds it deleted is a fault, which is `none`.
pub data StreamEvent : Type 0 where
  received : List Bytes → StreamEvent
  peer_send_shutdown : StreamEvent
  stream_shutdown_complete : StreamEvent
  other_stream_event : StreamEvent

pub record StreamState : Type 0 where
  pub context : Option Bytes
  pub messages : List Bytes
  pub calls : List ApiCall

on_stream_event : Receiver → ℕ → StreamEvent → Bytes → StreamState
on_stream_event r stream (received buffers) pending =
    let d = receive r buffers pending in
    record { context = some d.pending; messages = d.messages; calls = [] }
on_stream_event r stream peer_send_shutdown pending = record {
  context = none;
  messages = [];
  calls = closed stream ∷ [];
}
on_stream_event r stream stream_shutdown_complete pending = record {
  context = none;
  messages = [];
  calls = closed stream ∷ [];
}
on_stream_event r stream other_stream_event pending = record {
  context = some pending;
  messages = [];
  calls = [];
}

touches_context : StreamEvent → Bool
touches_context other_stream_event = false
touches_context _ = true

pub stream_cb : Receiver → ℕ → StreamEvent → Option Bytes → Option StreamState
stream_cb r stream e (some pending) = some (on_stream_event r stream e pending)
stream_cb r stream e none = elim (touches_context e) [
  | true ↦ none
  | false ↦ some (record { context = none; messages = []; calls = [] })
]
