-- ===== src/Keyboard/Lines.antt =====
-- The lines that a scan of the monitor thread writes about the keys that it releases.
use quic_keys.Common.{
  ℕ, true, not, append_assoc, ◌&&◌, List, [], ◌∷◌, ◌++◌, ◌≡◌, refl, arith, if◌then◌else◌,
  Bool-cases, inl, inr,
}
use quic_keys.KeySet.{mem, Distinct}
use quic_keys.Keyboard.Snapshots.{update-agrees, agrees-tail, agrees-head}
use quic_keys.Keyboard.Watchdog.{is_expired-report_stuck, mem-expire}
use quic_keys.Keyboard.{
  KeyMeta, KeyTable, Keyboard, Limits, Log, watchdog, update, release_meta, is_stuck, is_expired,
  report_stuck, stuck_log, watchdog_log, scan_pressed, expire,
}

-- The keys that lines say were released by the watchdog.
unfoldable pub released : List Log → List ℕ
released [] = []
released (watchdog u ns ∷ ls) = u ∷ released ls
released (l ∷ ls) = released ls

released-stuck :
    (c : Limits) (now_ns u : ℕ) (t : KeyTable) (ls : List Log)
    → released (stuck_log c now_ns u (t u) ++ ls) ≡ released ls
unfolding stuck_log released
released-stuck c now_ns u t ls = elim (Bool-cases (is_stuck c now_ns (t u))) [
  | inl e ↦ rw e refl
  | inr e ↦ rw e refl
]

released-watchdog :
    (c : Limits) (now_ns u : ℕ) (km : KeyMeta) (ls : List Log)
    → released (watchdog_log c now_ns u km ++ ls)
      ≡ (if is_expired c now_ns km then u ∷ released ls else released ls)
unfolding watchdog_log released
released-watchdog c now_ns u km ls = elim (Bool-cases (is_expired c now_ns km)) [
  | inl e ↦ rw e refl
  | inr e ↦ rw e refl
]

module _ (c : Limits) (now_ns j : ℕ) where
  scan-released :
      (us : List ℕ) (t t0 : KeyTable)
      → Distinct us
      → ((i : ℕ) → mem i us ≡ true → t i ≡ t0 i)
      → mem j (released (scan_pressed c now_ns us t).lines)
        ≡ (mem j us && is_expired c now_ns (t0 j))
  unfolding scan_pressed released mem
  scan-released [] t t0 d same = refl
  scan-released (u ∷ us) t t0 (du, d) same =
      let km = report_stuck c now_ns (t u) in
      let km' = if is_expired c now_ns km then release_meta km else km in
      let after = update-agrees u us t t0 km' du (agrees-tail u us t t0 same) in
      let rest = scan_pressed c now_ns us (update t u km') in
      let first = released-stuck c now_ns u t (watchdog_log c now_ns u km ++ rest.lines) in
      let second = released-watchdog c now_ns u km rest.lines in
      ground (
        arith,
        append_assoc (stuck_log c now_ns u (t u)) (watchdog_log c now_ns u km) rest.lines,
        first,
        second,
        scan-released us (update t u km') t0 d after,
        agrees-head u us t t0 same,
        is_expired-report_stuck c now_ns (t u),
      )

  -- A scan writes a line of the watchdog about just the keys that it releases.
  pub mem-released :
      (k : Keyboard)
      → Distinct k.pressed
      → mem j (released (expire c now_ns k).2)
        ≡ (mem j k.pressed && not (mem j (expire c now_ns k).0.pressed))
  mem-released k d =
      let written : mem j (released (expire c now_ns k).2)
          ≡ (mem j k.pressed && is_expired c now_ns (k.keymeta j)) =
        unfold expire in scan-released k.pressed k.keymeta k.keymeta d (λ i m. refl) in
      ground (arith, written, mem-expire c now_ns k j d)
