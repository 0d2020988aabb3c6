-- ===== src/HidSocket/Descriptors.antt =====
-- The descriptors that the process holds because of the HID socket.
use quic_keys.Common.{
  ℕ, Bool, true, false, List, [], ◌∷◌, ◌++◌, Option, none, some, ◌≡◌, refl, ◌∙◌, arith, Bytes,
  Option-cases, inl, inr, ◌==◌, if◌then◌else◌,
}
use quic_keys.HidSocket.{
  HidSocket, Syscall, socket_failed, socket_opened, connect_called, send_called, close_called,
  connected, Call, ensures, sends, step, run,
}

-- The descriptors open after a call; `none` is a `close`, `connect` or `send` on one that is not.
remove_fd : ℕ → List ℕ → Option (List ℕ)
remove_fd fd [] = none
remove_fd fd (x ∷ xs) =
    if fd == x then some xs else elim (remove_fd fd xs) [ none ↦ none | some ys ↦ some (x ∷ ys) ]

is_open : ℕ → List ℕ → Bool
is_open fd [] = false
is_open fd (x ∷ xs) = if fd == x then true else is_open fd xs

perform : Syscall → List ℕ → Option (List ℕ)
perform socket_failed fds = some fds
perform (socket_opened fd) fds = some (fd ∷ fds)
perform (connect_called fd path b) fds = if is_open fd fds then some fds else none
perform (send_called fd bytes n) fds = if is_open fd fds then some fds else none
perform (close_called fd) fds = remove_fd fd fds

abbrev bind_fds : Option (List ℕ) → (List ℕ → Option (List ℕ)) → Option (List ℕ)
bind_fds none f = none
bind_fds (some fds) f = f fds

unfoldable pub perform_all : List Syscall → List ℕ → Option (List ℕ)
unfolding perform remove_fd is_open
perform_all [] fds = some fds
perform_all (x ∷ xs) fds = bind_fds (perform x fds) (perform_all xs)

-- what the class holds
abbrev pub held_fds : Option ℕ → List ℕ
held_fds none = []
held_fds (some fd) = fd ∷ []

perform_all-append :
    (xs ys : List Syscall) (fds : List ℕ)
    → perform_all (xs ++ ys) fds ≡ bind_fds (perform_all xs fds) (perform_all ys)
unfolding perform_all
perform_all-append [] ys fds = refl
perform_all-append (x ∷ xs) ys fds = elim (Option-cases (perform x fds)) [
  | inl e ↦ rw e
  | inr (fds', e) ↦ rw e (perform_all-append xs ys fds')
]

-- One operation leaves open exactly the descriptor that the object holds, and touches no other.
step-balanced :
    (x : Call) (h : HidSocket)
    → perform_all (step x h).1 (held_fds h.fd) ≡ some (held_fds (step x h).0.fd)
unfolding step perform_all perform is_open remove_fd
step-balanced (ensures os) h = ground arith
step-balanced (sends os r) h = ground arith

run-balanced :
    (xs : List Call) (h : HidSocket)
    → perform_all (run xs h).1 (held_fds h.fd) ≡ some (held_fds (run xs h).0.fd)
unfolding run
run-balanced [] h = unfold perform_all in refl
run-balanced (x ∷ xs) h =
    perform_all-append (step x h).1 (run xs (step x h).0).1 (held_fds h.fd)
    ∙ rw (step-balanced x h) (run-balanced xs (step x h).0)

-- Between two operations at most one descriptor is open, the one that the object holds.
pub open_at_most_one :
    (path : Bytes) (xs : List Call)
    → perform_all (run xs (connected path)).1 [] ≡ some (held_fds (run xs (connected path)).0.fd)
unfolding connected
open_at_most_one path xs = run-balanced xs (connected path)
