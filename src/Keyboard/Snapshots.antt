-- ===== src/Keyboard/Snapshots.antt =====
-- What reconciling with a snapshot leaves of each key, and which healings it reports.
use quic_keys.Common.{
  none, ℕ, true, false, not, ◌&&◌, List, [], ◌∷◌, ◌++◌, ◌≡◌, refl, arith, if◌then◌else◌,
}
use quic_keys.KeySet.{mem, Distinct}
use quic_keys.Keyboard.{
  KeyMeta, KeyTable, Keyboard, Log, heal_log, update, release_meta, release_missing, seen_meta,
  mark_seen, reconcile,
}

-- `release_missing` reaches exactly the keys of the old set that the new set lacks.
release_missing-table :
    (now_ns : ℕ) (new us : List ℕ) (t : KeyTable) (j : ℕ)
    → (release_missing now_ns new us t).0 j
      ≡ (if mem j us && not (mem j new) then release_meta (t j) else t j)
unfolding release_missing mem release_meta
release_missing-table now_ns new [] t j = refl
release_missing-table now_ns new (u ∷ us) t j = ground (
  arith,
  release_missing-table now_ns new us t j,
  release_missing-table now_ns new us (update t u (release_meta (t u))) j,
)

mark_seen-table :
    (now_ns : ℕ) (us : List ℕ) (t : KeyTable) (j : ℕ)
    → mark_seen now_ns us t j ≡ (if mem j us then seen_meta now_ns (t j) else t j)
unfolding mark_seen mem seen_meta
mark_seen-table now_ns [] t j = refl
mark_seen-table now_ns (u ∷ us) t j =
    ground (arith, mark_seen-table now_ns us (update t u (seen_meta now_ns (t u))) j)

-- The record of every key by the two loops.
pub reconcile-table :
    (now_ns snap_mods : ℕ) (new : List ℕ) (k : Keyboard) (j : ℕ)
    → (reconcile now_ns snap_mods new k).0.keymeta j ≡ (
        if mem j new
        then seen_meta now_ns (k.keymeta j)
        else if mem j k.pressed
        then release_meta (k.keymeta j)
        else k.keymeta j)
unfolding reconcile
reconcile-table now_ns snap_mods new k j = ground (
  arith,
  release_missing-table now_ns new k.pressed k.keymeta j,
  mark_seen-table now_ns new (release_missing now_ns new k.pressed k.keymeta).0 j,
)

-- After a snapshot the record of every key is determined: a key that the snapshot names is pressed
-- and was seen at the time of the snapshot; a key that was pressed and is not named is released and its marker
-- cleared; what else the record says stays, and so does the record of any other key.
pub reconcile-keymeta :
    (now_ns snap_mods : ℕ) (new : List ℕ) (k : Keyboard) (j : ℕ)
    → let km = k.keymeta j in
      (reconcile now_ns snap_mods new k).0.keymeta j ≡ (
        if mem j new
        then record {
          pressed = true;
          last_edge_ns = km.last_edge_ns;
          last_snapshot_ns = now_ns;
          up_marker_ns = km.up_marker_ns;
          stuck_reported = km.stuck_reported;
        }
        else if mem j k.pressed
        then record {
          pressed = false;
          last_edge_ns = km.last_edge_ns;
          last_snapshot_ns = km.last_snapshot_ns;
          up_marker_ns = none;
          stuck_reported = km.stuck_reported;
        }
        else km)
unfolding seen_meta release_meta
reconcile-keymeta now_ns snap_mods new k j = reconcile-table now_ns snap_mods new k j

-- One line for each key released that had a marker, in the order of the old set.
pub heal_lines : ℕ → List ℕ → KeyTable → List ℕ → List Log
heal_lines now_ns new t [] = []
heal_lines now_ns new t (u ∷ us) =
    (if mem u new then [] else heal_log u now_ns (t u).up_marker_ns) ++ heal_lines now_ns new t us

-- An update of `u` is not seen by the other keys.
pub update-agrees :
    (u : ℕ) (us : List ℕ) (t t0 : KeyTable) (km : KeyMeta)
    → mem u us ≡ false
    → ((j : ℕ) → mem j us ≡ true → t j ≡ t0 j)
    → (j : ℕ) → mem j us ≡ true
    → update t u km j ≡ t0 j
update-agrees u us t t0 km out same j member = ground (arith, same j member)

pub agrees-tail :
    (u : ℕ) (us : List ℕ) (t t0 : KeyTable)
    → ((j : ℕ) → mem j (u ∷ us) ≡ true → t j ≡ t0 j)
    → (j : ℕ) → mem j us ≡ true
    → t j ≡ t0 j
unfolding mem
agrees-tail u us t t0 same j member = ground (arith, same j)

pub agrees-head :
    (u : ℕ) (us : List ℕ) (t t0 : KeyTable)
    → ((j : ℕ) → mem j (u ∷ us) ≡ true → t j ≡ t0 j)
    → t u ≡ t0 u
unfolding mem
agrees-head u us t t0 same = ground (arith, same u)

release_missing-lines :
    (now_ns : ℕ) (new us : List ℕ) (t t0 : KeyTable)
    → Distinct us
    → ((j : ℕ) → mem j us ≡ true → t j ≡ t0 j)
    → (release_missing now_ns new us t).1 ≡ heal_lines now_ns new t0 us
unfolding release_missing heal_lines
release_missing-lines now_ns new [] t t0 d same = refl
release_missing-lines now_ns new (u ∷ us) t t0 (du, d) same =
    let tail = agrees-tail u us t t0 same in
    let after = update-agrees u us t t0 (release_meta (t u)) du tail in
    let first = release_missing-lines now_ns new us t t0 d tail in
    let second = release_missing-lines now_ns new us (update t u (release_meta (t u))) t0 d after in
    ground (arith, first, second, agrees-head u us t t0 same)

-- For a set without repetitions, the healings reported are those of the released keys that had a
-- marker, with the age of the marker, in the order of the set.
pub reconcile-lines :
    (now_ns snap_mods : ℕ) (new : List ℕ) (k : Keyboard)
    → Distinct k.pressed
    → (reconcile now_ns snap_mods new k).1 ≡ heal_lines now_ns new k.keymeta k.pressed
unfolding reconcile
reconcile-lines now_ns snap_mods new k d =
    release_missing-lines now_ns new k.pressed k.keymeta k.keymeta d (λ j m. refl)

-- The set and the modifiers are those of the snapshot.
pub reconcile-pressed :
    (now_ns snap_mods : ℕ) (new : List ℕ) (k : Keyboard)
    → ((reconcile now_ns snap_mods new k).0.pressed ≡ new)
      × ((reconcile now_ns snap_mods new k).0.modifiers ≡ snap_mods)
unfolding reconcile
reconcile-pressed now_ns snap_mods new k = (refl, refl)
