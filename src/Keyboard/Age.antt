-- ===== src/Keyboard/Age.antt =====
-- The time of the last snapshot that named a key, over the sections.
use quic_keys.Common.{ℕ, Bool, true, false, List, [], ◌∷◌, ◌≡◌, refl, ◌∙◌, arith, All, ◌==◌}
use quic_keys.KeySet.{mem}
use quic_keys.Keyboard.{
  KeyMeta, Keyboard, Limits, Action, edge, marked, reliable_edge, snapshot, scanned, apply, run,
  edge_meta, udp_edge, mark_up, quic_edge, report_stuck, release_meta,
}
use quic_keys.Keyboard.Snapshots.{reconcile-table}
use quic_keys.Keyboard.Watchdog.{expire_effect}
use quic_keys.Keyboard.Invariant.{IsValid, IsAdmissible, apply-IsValid}

unfoldable pub names : ℕ → Action → Bool
names u (snapshot now_ns snap_mods new_pressed) = mem u new_pressed
names u _ = false

edge_meta-last_snapshot :
    (now_ns : ℕ) (down : Bool) (km : KeyMeta)
    → (edge_meta now_ns down km).last_snapshot_ns ≡ km.last_snapshot_ns
unfolding edge_meta
edge_meta-last_snapshot now_ns true km = refl
edge_meta-last_snapshot now_ns false km = refl

apply-last_snapshot :
    (c : Limits) (a : Action) (k : Keyboard) (u : ℕ)
    → IsValid k
    → names u a ≡ false
    → ((apply c a k).keymeta u).last_snapshot_ns ≡ (k.keymeta u).last_snapshot_ns
unfolding apply udp_edge mark_up quic_edge names
apply-last_snapshot c (edge now_ns j down) k u v e =
    ground (arith, edge_meta-last_snapshot now_ns down (k.keymeta j))
apply-last_snapshot c (marked t_ns j) k u v e = ground arith
apply-last_snapshot c (reliable_edge now_ns j cmd mods) k u v e =
    ground (arith, edge_meta-last_snapshot now_ns (cmd == 1) (k.keymeta j))
apply-last_snapshot c (snapshot now_ns snap_mods new) k u v e =
    unfold release_meta in ground (arith, reconcile-table now_ns snap_mods new k u)
apply-last_snapshot c (scanned now_ns) k u v e =
    unfold release_meta report_stuck in ground (arith, (expire_effect c now_ns k v.distinct).3 u)

-- Sections that do not name a key leave that time as it was.
pub run-last_snapshot :
    (c : Limits) (xs : List Action) (k : Keyboard) (u : ℕ)
    → IsValid k
    → All IsAdmissible xs
    → All (λ a. names u a ≡ false) xs
    → ((run c xs k).keymeta u).last_snapshot_ns ≡ (k.keymeta u).last_snapshot_ns
unfolding run
run-last_snapshot c [] k u v h e = refl
run-last_snapshot c (a ∷ xs) k u v (ha, h) (ea, e) =
    run-last_snapshot c xs (apply c a k) u (apply-IsValid c a k ha v) h e
    ∙ apply-last_snapshot c a k u v ea
