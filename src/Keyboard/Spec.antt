-- ===== src/Keyboard/Spec.antt =====
-- The abstract keyboard: which keys are held, and the modifiers; what each section means for it.
use quic_keys.Common.{ℕ, Bool, false, not, ◌&&◌, ◌≡◌, refl, ◌==◌, if◌then◌else◌}
use quic_keys.KeySet.{mem}
use quic_keys.Keyboard.{
  Keyboard, Limits, Action, edge, marked, reliable_edge, snapshot, scanned, apply, udp_edge,
  mark_up, quic_edge, reconcile, is_expired,
}
use quic_keys.Keyboard.Edges.{mem-edge_set}
use quic_keys.Keyboard.Watchdog.{mem-expire, expire_effect}
use quic_keys.Keyboard.Invariant.{IsValid}

pub record Held : Type 0 where
  pub keys : ℕ → Bool
  pub mods : ℕ

abbrev pub held : Keyboard → Held
held k = record { keys = λ u. mem u k.pressed; mods = k.modifiers }

-- What a section means for the keys held: an edge sets one key, a snapshot replaces them all, a scan
-- lets go of those that have expired, a marker changes nothing.
pub meaning : (ℕ → Bool) → Action → Held → Held
meaning expired (edge now_ns u down) h = record h { keys = λ j. if j == u then down else h.keys j }
meaning expired (marked t_ns u) h = h
meaning expired (reliable_edge now_ns u cmd mods) h = record {
  keys = λ j. if j == u then cmd == 1 else h.keys j;
  mods = mods;
}
meaning expired (snapshot now_ns snap_mods new) h = record {
  keys = λ j. mem j new;
  mods = snap_mods;
}
meaning expired (scanned now_ns) h = record h { keys = λ j. h.keys j && not (expired j) }

abbrev pub expired_at : Limits → Action → Keyboard → ℕ → Bool
expired_at c (scanned now_ns) k j = is_expired c now_ns (k.keymeta j)
expired_at c _ k j = false

-- On a valid state every section does to the keys held and the modifiers what it means: an edge
-- sets one key, and by QUIC also the modifiers; a snapshot replaces both; a marker changes
-- nothing; a scan lets go of the keys that have expired.
pub held-apply :
    (c : Limits) (a : Action) (k : Keyboard)
    → IsValid k
    → held (apply c a k) ≡ meaning (expired_at c a k) a (held k)
unfolding apply meaning udp_edge mark_up quic_edge reconcile
held-apply c (edge now_ns u down) k v =
    λ i. record { keys = λ j. mem-edge_set j u down k.pressed i; mods = k.modifiers }
held-apply c (marked t_ns u) k v = refl
held-apply c (reliable_edge now_ns u cmd mods) k v =
    λ i. record { keys = λ j. mem-edge_set j u (cmd == 1) k.pressed i; mods = mods }
held-apply c (snapshot now_ns snap_mods new) k v = refl
held-apply c (scanned now_ns) k v = λ i. record {
  keys = λ j. mem-expire c now_ns k j v.distinct i;
  mods = (expire_effect c now_ns k v.distinct).2 i;
}
