-- ===== src/Report/Layout.antt =====
-- The bytes of a report, and which keys reach it.
use quic_keys.Common.{
  ℕ, zero, suc, ◌+◌, ◌-◌, List, [], ◌∷◌, ◌++◌, ◌≡◌, refl, lt→ltb, ◌≤◌, length-replicate, ◌∙◌, arith,
  length, take, replicate, append_assoc, append-nil, length-append, take_all, length-take,
}
use quic_keys.Report.{build_hid_report, pick, pick_usages, report_of}

-- The report is the modifiers, a zero byte, the first six usages in order, and zeros up to the
-- eighth byte.
pub build_hid_report_layout :
    (usages : List ℕ) (modifiers : ℕ)
    → (build_hid_report usages modifiers).bytes
      ≡ modifiers ∷ 0 ∷ (take 6 usages ++ replicate (6 - length usages) 0)
unfolding build_hid_report
build_hid_report_layout [] m = refl
build_hid_report_layout (a ∷ []) m = refl
build_hid_report_layout (a ∷ b ∷ []) m = refl
build_hid_report_layout (a ∷ b ∷ c ∷ []) m = refl
build_hid_report_layout (a ∷ b ∷ c ∷ d ∷ []) m = refl
build_hid_report_layout (a ∷ b ∷ c ∷ d ∷ e ∷ []) m = refl
build_hid_report_layout (a ∷ b ∷ c ∷ d ∷ e ∷ f ∷ us) m = rw (full) refl
  where
    full : 6 - length (a ∷ b ∷ c ∷ d ∷ e ∷ f ∷ us) ≡ 0
    full = omega arith

pick_full : (us v : List ℕ) → length v ≡ 6 → pick us v ≡ v
unfolding pick
pick_full [] v h = refl
pick_full (u ∷ us) v h = rw (h) (pick_full us v h)

-- `n` more keys fit behind those already picked.
pick-take : (us v : List ℕ) (n : ℕ) → length v + n ≡ 6 → pick us v ≡ v ++ take n us
unfolding pick
pick-take us v zero h = rw append-nil (pick_full us v (omega arith))
pick-take [] v (suc n) h = rw append-nil
pick-take (u ∷ us) v (suc n) h =
    let fits : length (v ++ u ∷ []) + n ≡ 6 = omega (arith, length-append v (u ∷ [])) in
    rw (lt→ltb (length v) 6 (omega arith))
      (pick-take us (v ++ u ∷ []) n fits ∙ append_assoc v (u ∷ []) (take n us))

-- The loop picks the first six keys of the iteration.
pub pick_usages-take : (us : List ℕ) → pick_usages us ≡ take 6 us
unfolding pick_usages
pick_usages-take us = pick-take us [] 6 refl

-- The bytes of the report of a set of keys.
pub report_of_bytes :
    (pressed : List ℕ) (modifiers : ℕ)
    → (report_of pressed modifiers).bytes
      ≡ modifiers ∷ 0 ∷ (take 6 pressed ++ replicate (6 - length (take 6 pressed)) 0)
unfolding report_of
report_of_bytes pressed modifiers =
    let few : length (take 6 pressed) ≤ 6 = omega (arith, length-take 6 pressed) in
    build_hid_report_layout (pick_usages pressed) modifiers
    ∙ rw (pick_usages-take pressed) (rw (take_all 6 (take 6 pressed) few))

-- A report has eight bytes.
pub length-report_of :
    (pressed : List ℕ) (modifiers : ℕ) → length (report_of pressed modifiers).bytes ≡ 8
length-report_of pressed modifiers =
    let six = take 6 pressed in
    rw (report_of_bytes pressed modifiers) (
      omega (
        arith,
        length-append six (replicate (6 - length six) 0),
        length-replicate (6 - length six) zero,
        length-take 6 pressed,
      ))
