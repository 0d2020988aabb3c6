-- ===== src/Keyboard/Watchdog.antt =====
-- What the scan of the monitor thread releases, keeps and reports.
use quic_keys.Common.{
  ℕ, ◌*◌, ◌^◌, ◌↔◌, ◌+◌, ◌≤◌, ◌<◌, Bool, true, false, not, ◌&&◌, ◌||◌, List, [], ◌∷◌, ◌≡◌, refl,
  sym, ◌∙◌, arith, All, IsByte, if◌then◌else◌, u64_mod, Bool-cases, inl, inr,
}
use quic_keys.Common.Int.{pos}
use quic_keys.KeySet.{mem, Distinct}
use quic_keys.Keyboard.Snapshots.{update-agrees, agrees-tail, agrees-head}
use quic_keys.Keyboard.{
  KeyMeta, KeyTable, Keyboard, Limits, update, release_meta, is_stuck, is_expired, report_stuck,
  scan_pressed, expire,
}

-- The test on a key's snapshot age is not changed by the note that it is stuck.
pub is_expired-report_stuck :
    (c : Limits) (now_ns : ℕ) (km : KeyMeta)
    → is_expired c now_ns (report_stuck c now_ns km) ≡ is_expired c now_ns km
unfolding is_expired report_stuck
is_expired-report_stuck c now_ns km = elim (Bool-cases (is_stuck c now_ns km)) [
  | inl e ↦ rw e
  | inr e ↦ rw e
]

-- The keys of a set that have not expired.
pub fresh_keys : Limits → ℕ → KeyTable → List ℕ → List ℕ
fresh_keys c now_ns t [] = []
fresh_keys c now_ns t (u ∷ us) =
    if is_expired c now_ns (t u) then fresh_keys c now_ns t us else u ∷ fresh_keys c now_ns t us

pub any_expired : Limits → ℕ → KeyTable → List ℕ → Bool
any_expired c now_ns t [] = false
any_expired c now_ns t (u ∷ us) = is_expired c now_ns (t u) || any_expired c now_ns t us

module _ (c : Limits) (now_ns : ℕ) where
  scan-kept :
      (us : List ℕ) (t t0 : KeyTable)
      → Distinct us
      → ((j : ℕ) → mem j us ≡ true → t j ≡ t0 j)
      → ((scan_pressed c now_ns us t).kept ≡ fresh_keys c now_ns t0 us)
        × ((scan_pressed c now_ns us t).changed ≡ any_expired c now_ns t0 us)
  unfolding scan_pressed fresh_keys any_expired
  scan-kept [] t t0 d same = (refl, refl)
  scan-kept (u ∷ us) t t0 (du, d) same =
      let km = report_stuck c now_ns (t u) in
      let km' = if is_expired c now_ns km then release_meta km else km in
      let after = update-agrees u us t t0 km' du (agrees-tail u us t t0 same) in
      ground (
        arith,
        scan-kept us (update t u km') t0 d after,
        agrees-head u us t t0 same,
        is_expired-report_stuck c now_ns (t u),
      )

  -- the record of a key after the scan
  scan-table :
      (us : List ℕ) (t : KeyTable) (j : ℕ)
      → Distinct us
      → (scan_pressed c now_ns us t).table j ≡ (
          if mem j us
          then (if is_expired c now_ns (t j)
              then release_meta (report_stuck c now_ns (t j))
              else report_stuck c now_ns (t j))
          else t j)
  unfolding scan_pressed mem
  scan-table [] t j d = refl
  scan-table (u ∷ us) t j (du, d) =
      let km = report_stuck c now_ns (t u) in
      let km' = if is_expired c now_ns km then release_meta km else km in
      ground (arith, scan-table us (update t u km') j d, is_expired-report_stuck c now_ns (t u))

pub mem-fresh_keys :
    (c : Limits) (now_ns : ℕ) (t : KeyTable) (us : List ℕ) (j : ℕ)
    → mem j (fresh_keys c now_ns t us) ≡ (mem j us && not (is_expired c now_ns (t j)))
unfolding fresh_keys mem
mem-fresh_keys c now_ns t [] j = refl
mem-fresh_keys c now_ns t (u ∷ us) j = ground (arith, mem-fresh_keys c now_ns t us j)

pub fresh_keys-Distinct :
    (c : Limits) (now_ns : ℕ) (t : KeyTable) (us : List ℕ)
    → Distinct us
    → Distinct (fresh_keys c now_ns t us)
unfolding fresh_keys
fresh_keys-Distinct c now_ns t [] d = tt
fresh_keys-Distinct c now_ns t (u ∷ us) (du, d) =
    let rest = fresh_keys-Distinct c now_ns t us d in
    ground (arith, rest, mem-fresh_keys c now_ns t us u)

pub fresh_keys-All :
    (c : Limits) (now_ns : ℕ) (t : KeyTable) (us : List ℕ)
    → All IsByte us
    → All IsByte (fresh_keys c now_ns t us)
unfolding fresh_keys
fresh_keys-All c now_ns t [] h = tt
fresh_keys-All c now_ns t (u ∷ us) (hu, h) = ground (arith, fresh_keys-All c now_ns t us h)

fresh_keys-none :
    (c : Limits) (now_ns : ℕ) (t : KeyTable) (us : List ℕ)
    → any_expired c now_ns t us ≡ false
    → fresh_keys c now_ns t us ≡ us
unfolding fresh_keys any_expired
fresh_keys-none c now_ns t [] e = refl
fresh_keys-none c now_ns t (u ∷ us) e = ground (arith, fresh_keys-none c now_ns t us)

-- For a set without repetitions, one scan keeps the keys that have not expired, in their order,
-- says whether any key was released, and leaves of every key's record what the two tests make of
-- it; keys that are not pressed and the modifiers stay as they are.
pub expire_effect :
    (c : Limits) (now_ns : ℕ) (k : Keyboard)
    → Distinct k.pressed
    → ((expire c now_ns k).0.pressed ≡ fresh_keys c now_ns k.keymeta k.pressed)
      × ((expire c now_ns k).1 ≡ any_expired c now_ns k.keymeta k.pressed)
      × ((expire c now_ns k).0.modifiers ≡ k.modifiers)
      × ((j : ℕ)
          → (expire c now_ns k).0.keymeta j ≡ (
              if mem j k.pressed
              then (if is_expired c now_ns (k.keymeta j)
                  then release_meta (report_stuck c now_ns (k.keymeta j))
                  else report_stuck c now_ns (k.keymeta j))
              else k.keymeta j))
unfolding expire
expire_effect c now_ns k d =
    let (kept, changed) = scan-kept c now_ns k.pressed k.keymeta k.keymeta d (λ j m. refl) in
    (kept, changed, refl, λ j. scan-table c now_ns k.pressed k.keymeta j d)

-- A scan that releases no key leaves the set and the modifiers as they are.
pub expire-quiet :
    (c : Limits) (now_ns : ℕ) (k : Keyboard)
    → Distinct k.pressed
    → (expire c now_ns k).1 ≡ false
    → ((expire c now_ns k).0.pressed ≡ k.pressed) × ((expire c now_ns k).0.modifiers ≡ k.modifiers)
expire-quiet c now_ns k d quiet =
    let (kept, changed, mods, table) = expire_effect c now_ns k d in
    (kept ∙ fresh_keys-none c now_ns k.keymeta k.pressed (sym changed ∙ quiet), mods)

-- Membership after a scan.
pub mem-expire :
    (c : Limits) (now_ns : ℕ) (k : Keyboard) (j : ℕ)
    → Distinct k.pressed
    → mem j (expire c now_ns k).0.pressed
      ≡ (mem j k.pressed && not (is_expired c now_ns (k.keymeta j)))
mem-expire c now_ns k j d =
    rw ((expire_effect c now_ns k d).0) (mem-fresh_keys c now_ns k.keymeta k.pressed j)

-- The test, on clocks that do not run backwards: a key has expired exactly if the watchdog is on, a
-- snapshot named the key before, and more than `watchdog_ms` went by since the last one did.
pub is_expired_iff :
    (c : Limits) (now_ns : ℕ) (km : KeyMeta) (ms : ℕ)
    → c.watchdog_ms ≡ pos ms
    → ms < 2 ^ 31
    → km.last_snapshot_ns ≤ now_ns
    → now_ns < u64_mod
    → (is_expired c now_ns km ≡ true)
      ↔ ((0 < ms) × (0 < km.last_snapshot_ns) × (km.last_snapshot_ns + ms * 1000000 < now_ns))
unfolding is_expired
is_expired_iff c now_ns km ms e small past range = ground arith

-- A key that no snapshot has named is never released by the watchdog, however old its press.
pub expire-keeps_unseen :
    (c : Limits) (now_ns : ℕ) (k : Keyboard) (j : ℕ)
    → Distinct k.pressed
    → (k.keymeta j).last_snapshot_ns ≡ 0
    → mem j (expire c now_ns k).0.pressed ≡ mem j k.pressed
unfolding is_expired
expire-keeps_unseen c now_ns k j d unseen = ground (arith, mem-expire c now_ns k j d)

-- With the watchdog on, a snapshot that is noted after the monitor thread read its clock, by less
-- than 2 ^ 63 ns, makes the age wrap around, and the key that was just confirmed is released.
pub expire-drops_newer :
    (c : Limits) (now_ns : ℕ) (k : Keyboard) (j ms : ℕ)
    → Distinct k.pressed
    → c.watchdog_ms ≡ pos ms
    → 0 < ms
    → ms < 2 ^ 31
    → now_ns < (k.keymeta j).last_snapshot_ns
    → (k.keymeta j).last_snapshot_ns < now_ns + 2 ^ 63
    → (k.keymeta j).last_snapshot_ns < u64_mod
    → mem j (expire c now_ns k).0.pressed ≡ false
unfolding is_expired
expire-drops_newer c now_ns k j ms d e on small newer near range =
    ground (arith, mem-expire c now_ns k j d)
