-- ===== src/Threads/Moves.antt =====
-- The three moves of a thread whose place is known by an equation, and one that asks for no report.
use quic_keys.Common.{ℕ, ◌<◌, true, false, ◌≡◌, sym, subst}
use quic_keys.Report.{HidReport8}
use quic_keys.Keyboard.{Limits, Action}
use quic_keys.Keyboard.Invariant.{IsAdmissible}
use quic_keys.Threads.{
  idle, edited, picked, announces, current, entered, emitted, after_section, Move, section, pick,
  emit, update, System, turn, Reach, later,
}

-- One move of thread `i`, given where it stands before and after.
module _ (c : Limits) (n : ℕ) (s : System) (i : ℕ) (h : i < n) (reached : Reach c n s) where
  pub do_section :
      (a : Action)
      → IsAdmissible a
      → s.pc i ≡ idle
      → announces c a s.shared.keyboard ≡ true
      → Reach c n (record { shared = entered c a s.shared; pc = update s.pc i edited })
  do_section a ok at asks =
      let entered_now =
        subst (λ b. Move c s.shared idle (entered c a s.shared) (after_section b)) asks
          (section a ok) in
      later reached (
        turn i h
          (subst (λ p. Move c s.shared p (entered c a s.shared) edited) (sym at) entered_now))

  pub do_pick :
      s.pc i ≡ edited
      → Reach c n (record s { pc = update s.pc i (picked (current s.shared.keyboard)) })
  do_pick at = later reached (
      turn i h (
        subst (λ p. Move c s.shared p s.shared (picked (current s.shared.keyboard))) (sym at) pick))

  pub do_emit :
      (r : HidReport8)
      → s.pc i ≡ picked r
      → Reach c n (record { shared = emitted r s.shared; pc = update s.pc i idle })
  do_emit r at =
      later reached
        (turn i h (subst (λ p. Move c s.shared p (emitted r s.shared) idle) (sym at) (emit r)))

  pub do_quiet :
      (a : Action)
      → IsAdmissible a
      → s.pc i ≡ idle
      → announces c a s.shared.keyboard ≡ false
      → Reach c n (record { shared = entered c a s.shared; pc = update s.pc i idle })
  do_quiet a ok at asks =
      let entered_now =
        subst (λ b. Move c s.shared idle (entered c a s.shared) (after_section b)) asks
          (section a ok) in
      later reached
        (turn i h (subst (λ p. Move c s.shared p (entered c a s.shared) idle) (sym at) entered_now))
