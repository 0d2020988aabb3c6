-- ===== src/Threads.antt =====
-- The threads of daemon/src/main.cpp that share the keyboard: the UDP loop, MsQuic's workers and the
-- monitor. A handler changes the state in one locked section, picks the keys of its report in
-- another, and calls `send_report` with no lock; between these the other threads go on.
pub mod Consistency
pub mod Delivery
pub mod Overtaking
pub mod Moves
pub mod Handlers
use quic_keys.Common.{ℕ, ◌<◌, Bool, true, false, ◌||◌, List, [], ◌∷◌, ◌++◌, ◌==◌, if◌then◌else◌}
use quic_keys.Report.{HidReport8, report_of}
use quic_keys.Keyboard.{
  Keyboard, Limits, Action, edge, marked, reliable_edge, snapshot, scanned, initial, apply, expire,
}
use quic_keys.Keyboard.Invariant.{IsAdmissible}

-- Where a thread stands: between handlers, behind its first section, or with a report in its hands.
pub data Pc : Type 0 where
  idle edited : Pc
  picked : HidReport8 → Pc

-- What the threads share, with the reports in the order in which `send_report` was called with them,
-- whatever the socket made of them. `history` lists the
-- sections in the order in which the lock admitted them, and `announced` says whether any of them
-- asked for a report; no thread reads these two.
pub record Shared : Type 0 where
  pub keyboard : Keyboard
  pub sent : List HidReport8
  pub history : List Action
  pub announced : Bool

-- Whether a handler sends a report after its section: not for a marker, and for a scan only if it
-- released a key.
unfoldable pub announces : Limits → Action → Keyboard → Bool
announces c (marked t_ns u) k = false
announces c (scanned now_ns) k = (expire c now_ns k).1
announces c _ k = true

abbrev pub current : Keyboard → HidReport8
current k = report_of k.pressed k.modifiers

abbrev pub entered : Limits → Action → Shared → Shared
entered c a s = record {
  keyboard = apply c a s.keyboard;
  sent = s.sent;
  history = s.history ++ a ∷ [];
  announced = s.announced || announces c a s.keyboard;
}

abbrev pub emitted : HidReport8 → Shared → Shared
emitted r s = record s { sent = s.sent ++ r ∷ [] }

abbrev pub after_section : Bool → Pc
after_section asks = if asks then edited else idle

-- One move of one thread. `emit` is the call of `send_report`; what comes of it on the socket is that of
-- HidSocket, and leaves what is kept here as it is.
pub data Move (c : Limits) (s : Shared) : Pc → Shared → Pc → Type 0 where
  section :
      (a : Action)
      → IsAdmissible a
      → Move c s idle (entered c a s) (after_section (announces c a s.keyboard))
  pick : Move c s edited s (picked (current s.keyboard))
  emit : (r : HidReport8) → Move c s (picked r) (emitted r s) idle

abbrev pub update : (ℕ → Pc) → ℕ → Pc → ℕ → Pc
update pc i p j = if j == i then p else pc j

pub record System : Type 0 where
  pub shared : Shared
  pub pc : ℕ → Pc

unfoldable pub init : System
init = record {
  shared = record { keyboard = initial; sent = []; history = []; announced = false };
  pc = λ i. idle;
}

-- Thread `i` of `n` moves.
pub data Step (c : Limits) (n : ℕ) (s : System) : System → Type 0 where
  turn :
      (i : ℕ) {m : Shared} {p : Pc}
      → i < n
      → Move c s.shared (s.pc i) m p
      → Step c n s (record { shared = m; pc = update s.pc i p })

pub data Reach (c : Limits) (n : ℕ) : System → Type 0 where
  begun : Reach c n init
  later : {s t : System} → Reach c n s → Step c n s t → Reach c n t
