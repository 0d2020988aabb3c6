-- ===== src/MsQuic/Handles.antt =====
-- The handles of a server: how `start` opens and `stop` closes them.
use quic_keys.Common.{
  ℕ, Bool, true, false, ◌&&◌, List, [], ◌∷◌, ◌++◌, Option, none, some, ◌≡◌, refl, arith, ◌==◌,
  if◌then◌else◌,
}
use quic_keys.MsQuic.{
  Answers, ApiCall, opened, open_failed, credential_loaded, listener_started, closed, handler_set,
  configuration_set, new_server, start, start_listening, open_listener, load_certificate,
  open_configuration, open_registration, after_call, close_call, stop,
}

-- The open handles as a stack, the last opened on top. MsQuic wants the handles under another closed
-- before it: `none` is a close of a handle that is not on top.
pop_handle : ℕ → List ℕ → Option (List ℕ)
pop_handle h [] = none
pop_handle h (x ∷ xs) = if h == x then some xs else none

perform : ApiCall → List ℕ → Option (List ℕ)
perform (opened h) hs = some (h ∷ hs)
perform (closed h) hs = pop_handle h hs
perform open_failed hs = some hs
perform (credential_loaded h ok) hs = some hs
perform (listener_started h port ok) hs = some hs
perform (handler_set h) hs = some hs
perform (configuration_set h c) hs = some hs

abbrev bind_handles : Option (List ℕ) → (List ℕ → Option (List ℕ)) → Option (List ℕ)
bind_handles none f = none
bind_handles (some hs) f = f hs

pub is_some : Option ℕ → Bool
is_some none = false
is_some (some h) = true

pub perform_all : List ApiCall → List ℕ → Option (List ℕ)
perform_all [] hs = some hs
perform_all (x ∷ xs) hs = bind_handles (perform x hs) (perform_all xs)

-- From a new server, start it with any answers of MsQuic and stop it, as the destructor does: every
-- handle that was opened is closed once, the last opened first, and the server is as new.
pub start-stop :
    (a : Answers) (port size : ℕ)
    → let (ok, s, calls) = start a port size new_server in
      (perform_all (calls ++ (stop s).1) [] ≡ some []) × ((stop s).0 ≡ new_server)
unfolding start open_registration open_configuration load_certificate open_listener start_listening
    after_call stop close_call new_server perform_all perform pop_handle
start-stop a port size = (ground arith, refl)

-- `start` reports success exactly if every step that opens a handle, the loading of the certificate
-- and the start of the listener succeed.
pub start_succeeds :
    (a : Answers) (port size : ℕ)
    → (start a port size new_server).0 ≡ (
        is_some a.open2
        && is_some a.registration_open
        && is_some a.configuration_open
        && a.load_credential
        && is_some a.listener_open
        && a.listener_start)
unfolding start open_registration open_configuration load_certificate open_listener start_listening
    after_call new_server is_some
start_succeeds a port size = ground arith
