-- ===== src/Threads/Overtaking.antt =====
-- The order of the sections and the order of the reports of two threads.
use quic_keys.Common.{ℕ, ◌<◌, true, [], ◌∷◌, ◌++◌, append_assoc, ◌≡◌, ◌≢◌, refl, arith}
use quic_keys.Keyboard.{Limits, Action, apply}
use quic_keys.Keyboard.Invariant.{IsAdmissible}
use quic_keys.Threads.Moves.{do_section, do_pick, do_emit}
use quic_keys.Threads.{idle, announces, current, System, Reach}

-- From any state that can be reached, two idle threads can run two handlers that ask for a report so
-- that the sections are entered in one order and the reports sent in the other: the last report
-- shows the state before the second section, while the keyboard has gone on, and every thread that was
-- idle is idle again.
pub reports_overtake :
    (c : Limits) (n : ℕ) (s : System) (i j : ℕ) (a b : Action)
    → Reach c n s
    → i < n
    → j < n
    → i ≢ j
    → s.pc i ≡ idle
    → s.pc j ≡ idle
    → IsAdmissible a
    → IsAdmissible b
    → announces c a s.shared.keyboard ≡ true
    → announces c b (apply c a s.shared.keyboard) ≡ true
    → let first = apply c a s.shared.keyboard in
      let second = apply c b first in
      (t : System) × Reach c n t
      × ((k : ℕ) → s.pc k ≡ idle → t.pc k ≡ idle)
      × (t.shared.keyboard ≡ second)
      × (t.shared.sent ≡ s.shared.sent ++ current second ∷ current first ∷ [])
reports_overtake c n s i j a b reached hi hj differ at_i at_j ok_a ok_b asks_a asks_b =
    let r1 = do_section c n s i hi reached a ok_a at_i asks_a in
    let r2 = do_pick c n _ i hi r1 (ground (arith, differ, at_i, at_j)) in
    let r3 = do_section c n _ j hj r2 b ok_b (ground (arith, differ, at_i, at_j)) asks_b in
    let r4 = do_pick c n _ j hj r3 (ground (arith, differ, at_i, at_j)) in
    let r5 = do_emit c n _ j hj r4 _ (ground (arith, differ, at_i, at_j)) in
    let r6 = do_emit c n _ i hi r5 _ (ground (arith, differ, at_i, at_j)) in
    (
      _,
      r6,
      λ k rest. ground (arith, differ, at_i, at_j, rest),
      refl,
      append_assoc s.shared.sent _ _,
    )
