-- ===== src/Report.antt =====
-- daemon/include/hid_report.h: the 8-byte boot keyboard report, and the loop that handlers of
-- daemon/src/main.cpp use to pick at most six pressed keys for it.
pub mod Layout
pub mod Keys
use quic_keys.Common.{
  ℕ, zero, suc, ◌+◌, List, [], ◌∷◌, ◌++◌, Bytes, if◌then◌else◌, ltb, length, set, replicate,
}

-- `struct HidReport8`: [mods][0x00][k0][k1][k2][k3][k4][k5]
pub record HidReport8 : Type 0 where
  pub bytes : Bytes

-- `for (size_t i = 0; i < 6 && i < pressed_usages.size(); ++i)`: `n` rounds are left before `i`
-- reaches 6, and the list holds `pressed_usages` from `i` on.
fill : ℕ → ℕ → List ℕ → Bytes → Bytes
fill zero i usages bytes = bytes
fill (suc n) i [] bytes = bytes
fill (suc n) i (u ∷ usages) bytes = fill n (i + 1) usages (set bytes (2 + i) u)

unfoldable pub build_hid_report : List ℕ → ℕ → HidReport8
unfolding fill
build_hid_report pressed_usages modifiers = record {
  bytes = fill 6 0 pressed_usages (set (set (replicate 8 0) 0 modifiers) 1 0);
}

-- `for (auto u : pressed) { if (v.size() < 6) v.push_back(u); }`
pick : List ℕ → List ℕ → List ℕ
pick [] v = v
pick (u ∷ pressed) v = pick pressed (if ltb (length v) 6 then v ++ u ∷ [] else v)

unfoldable pub pick_usages : List ℕ → List ℕ
unfolding pick
pick_usages pressed = pick pressed []

-- The report that a handler sends for a set of pressed keys.
unfoldable pub report_of : List ℕ → ℕ → HidReport8
unfolding pick_usages build_hid_report
report_of pressed modifiers = build_hid_report (pick_usages pressed) modifiers
