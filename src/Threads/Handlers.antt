-- ===== src/Threads/Handlers.antt =====
-- The handlers of Daemon as moves of one thread.
use quic_keys.Common.{ℕ, List, ◌≡◌}
use quic_keys.Report.{HidReport8}
use quic_keys.Keyboard
use quic_keys.Keyboard.{Keyboard, Limits}
use quic_keys.Threads.{idle, System, Reach}
use quic_keys.Daemon.{Daemon}

-- Where thread `i` gets by its own moves alone.
abbrev AfterAlone : Limits → ℕ → ℕ → Keyboard → List HidReport8 → Type 0
AfterAlone c n i k sent =
    (t : System) × Reach c n t × (t.pc i ≡ idle) × (t.shared.keyboard ≡ k) × (t.shared.sent ≡ sent)
