-- ===== src/Examples/Keyboards.antt =====
-- The theorems on the guarded state, at a state with two keys down.
use quic_keys.Common.{none, ℕ, ◌≡◌, false, if◌then◌else◌, [], ◌∷◌, refl, arith}
use quic_keys.KeySet.{mem, Distinct}
use quic_keys.Keyboard.{scanned, apply, reconcile, release_meta, expire, is_expired, report_stuck}
use quic_keys.Keyboard.Snapshots.{reconcile-keymeta}
use quic_keys.Keyboard.Watchdog.{expire_effect, fresh_keys, any_expired, expire-drops_newer}
use quic_keys.Keyboard.Invariant.{IsValid}
use quic_keys.Keyboard.Spec.{held, meaning, expired_at, held-apply}
use quic_keys.Examples.{limits, typing, table}

typing-Distinct : Distinct (4 ∷ 5 ∷ [])
unfolding mem
typing-Distinct = (refl, (refl, tt))

pub typing-IsValid : IsValid typing
unfolding mem
typing-IsValid = record {
  distinct = typing-Distinct;
  in_range = (omega arith, (omega arith, tt));
  flagged = λ u. ground arith;
}

reconcile-keymeta_example :
    (reconcile 9000000 0 (5 ∷ 6 ∷ []) typing).0.keymeta 4
    ≡ record (table 4) { pressed = false; up_marker_ns = none }
unfolding mem
reconcile-keymeta_example = reconcile-keymeta 9000000 0 (5 ∷ 6 ∷ []) typing 4

expire_effect_example :
    ((expire limits 400000000 typing).0.pressed ≡ fresh_keys limits 400000000 table typing.pressed)
    × ((expire limits 400000000 typing).1 ≡ any_expired limits 400000000 table typing.pressed)
    × ((expire limits 400000000 typing).0.modifiers ≡ 2)
    × ((j : ℕ)
        → (expire limits 400000000 typing).0.keymeta j ≡ (
            if mem j typing.pressed
            then (if is_expired limits 400000000 (table j)
                then release_meta (report_stuck limits 400000000 (table j))
                else report_stuck limits 400000000 (table j))
            else table j))
expire_effect_example = expire_effect limits 400000000 typing typing-Distinct

expire-drops_newer_example : mem 4 (expire limits 4999000 typing).0.pressed ≡ false
expire-drops_newer_example =
    expire-drops_newer limits 4999000 typing 4 200 typing-Distinct refl (omega arith) (omega arith)
      (omega arith) (omega arith) (omega arith)

held-apply_example :
    held (apply limits (scanned 400000000) typing)
    ≡ meaning (expired_at limits (scanned 400000000) typing) (scanned 400000000) (held typing)
held-apply_example = held-apply limits (scanned 400000000) typing typing-IsValid
