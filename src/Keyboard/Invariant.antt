-- ===== src/Keyboard/Invariant.antt =====
-- What holds of the guarded state between two critical sections, whatever their order.
use quic_keys.Common.{ℕ, Bool, true, false, List, [], ◌∷◌, ◌≡◌, refl, arith, ◌==◌, All, IsByte}
use quic_keys.KeySet.{mem, Distinct}
use quic_keys.KeySet.Laws.{insert-Distinct, erase-Distinct, insert-All, erase-All}
use quic_keys.Keyboard.{
  KeyMeta, Keyboard, Limits, Action, edge, marked, reliable_edge, snapshot, scanned, apply, run,
  initial, edge_set, edge_meta, udp_edge, mark_up, quic_edge, reconcile, expire, report_stuck,
  release_meta, seen_meta,
}
use quic_keys.Keyboard.Snapshots.{reconcile-table}
use quic_keys.Keyboard.Watchdog.{expire_effect, mem-expire, fresh_keys-All, fresh_keys-Distinct}
use quic_keys.Keyboard.Edges.{mem-edge_set}

-- The set holds no key twice and only indices of `keymeta`, and the flag in a key's record says
-- whether the set holds the key.
pub record IsValid (k : Keyboard) : Type 0 where
  pub distinct : Distinct k.pressed
  pub in_range : All IsByte k.pressed
  pub flagged : (u : ℕ) → (k.keymeta u).pressed ≡ mem u k.pressed

-- What the handlers see to before they enter the section.
abbrev pub IsAdmissible : Action → Type 0
IsAdmissible (edge now_ns u down) = IsByte u
IsAdmissible (marked t_ns u) = IsByte u
IsAdmissible (reliable_edge now_ns u cmd mods) = IsByte u
IsAdmissible (snapshot now_ns snap_mods new_pressed) = Distinct new_pressed × All IsByte new_pressed
IsAdmissible (scanned now_ns) = Unit {0}

pub initial-IsValid : IsValid initial
unfolding initial mem
initial-IsValid = record { distinct = tt; in_range = tt; flagged = λ u. refl }

edge_set-Distinct : (u : ℕ) (down : Bool) (s : List ℕ) → Distinct s → Distinct (edge_set u down s)
unfolding edge_set
edge_set-Distinct u true s d = insert-Distinct u s d
edge_set-Distinct u false s d = erase-Distinct u s d

edge_set-All :
    (u : ℕ) (down : Bool) (s : List ℕ) → IsByte u → All IsByte s → All IsByte (edge_set u down s)
unfolding edge_set
edge_set-All u true s hu h = insert-All IsByte u s hu h
edge_set-All u false s hu h = erase-All IsByte u s h

edge_meta-pressed :
    (now_ns : ℕ) (down : Bool) (km : KeyMeta) → (edge_meta now_ns down km).pressed ≡ down
unfolding edge_meta
edge_meta-pressed now_ns true km = refl
edge_meta-pressed now_ns false km = refl

flagged_expire :
    (c : Limits) (now_ns : ℕ) (k : Keyboard)
    → IsValid k
    → (u : ℕ) → ((expire c now_ns k).0.keymeta u).pressed ≡ mem u (expire c now_ns k).0.pressed
unfolding report_stuck release_meta
flagged_expire c now_ns k v u = ground (
  arith,
  (expire_effect c now_ns k v.distinct).3 u,
  mem-expire c now_ns k u v.distinct,
  v.flagged u,
)

-- Every section that is entered with what it wants (usages that index `keymeta`, a set without
-- repetitions) keeps a valid state valid.
pub apply-IsValid :
    (c : Limits) (a : Action) (k : Keyboard) → IsAdmissible a → IsValid k → IsValid (apply c a k)
unfolding apply udp_edge mark_up quic_edge
apply-IsValid c (edge now_ns u down) k h v = record {
  distinct = edge_set-Distinct u down k.pressed v.distinct;
  in_range = edge_set-All u down k.pressed h v.in_range;
  flagged = λ j. ground (
    arith,
    v.flagged j,
    mem-edge_set j u down k.pressed,
    edge_meta-pressed now_ns down (k.keymeta u),
  );
}
apply-IsValid c (marked t_ns u) k h v = record {
  distinct = v.distinct;
  in_range = v.in_range;
  flagged = λ j. ground (arith, v.flagged j, v.flagged u);
}
apply-IsValid c (reliable_edge now_ns u cmd mods) k h v = record {
  distinct = edge_set-Distinct u (cmd == 1) k.pressed v.distinct;
  in_range = edge_set-All u (cmd == 1) k.pressed h v.in_range;
  flagged = λ j. ground (
    arith,
    v.flagged j,
    mem-edge_set j u (cmd == 1) k.pressed,
    edge_meta-pressed now_ns (cmd == 1) (k.keymeta u),
  );
}
apply-IsValid c (snapshot now_ns snap_mods new) k (d, h) v = record {
  distinct = unfold reconcile in d;
  in_range = unfold reconcile in h;
  flagged = λ j.
      unfold reconcile seen_meta release_meta in
      ground (arith, v.flagged j, reconcile-table now_ns snap_mods new k j);
}
apply-IsValid c (scanned now_ns) k h v = record {
  distinct =
      rw ((expire_effect c now_ns k v.distinct).0)
        (fresh_keys-Distinct c now_ns k.keymeta k.pressed v.distinct);
  in_range =
      rw ((expire_effect c now_ns k v.distinct).0)
        (fresh_keys-All c now_ns k.keymeta k.pressed v.in_range);
  flagged = flagged_expire c now_ns k v;
}

-- From the initial state, any sequence of admissible sections, so any interleaving of the threads,
-- leaves a valid state.
pub run-IsValid :
    (c : Limits) (as' : List Action) (k : Keyboard)
    → All IsAdmissible as'
    → IsValid k
    → IsValid (run c as' k)
unfolding run
run-IsValid c [] k h v = v
run-IsValid c (a ∷ as') k (ha, h) v = run-IsValid c as' (apply c a k) h (apply-IsValid c a k ha v)
