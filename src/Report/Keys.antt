-- ===== src/Report/Keys.antt =====
-- Which keys a report shows: the bytes behind the modifiers and the reserved byte.
use quic_keys.Common.{
  ℕ, ◌-◌, ◌≤◌, true, List, ◌++◌, ◌≡◌, ◌≢◌, ◌∙◌, arith, length, take, drop, replicate, take_all,
  length-take, ap,
}
use quic_keys.KeySet.{mem}
use quic_keys.KeySet.Laws.{mem-append, mem-replicate_zero, mem-take_le}
use quic_keys.Report.{HidReport8, pick_usages, report_of}
use quic_keys.Report.Layout.{build_hid_report_layout, pick_usages-take}

abbrev pub shown : HidReport8 → List ℕ
shown r = drop 2 r.bytes

shown-report_of :
    (pressed : List ℕ) (modifiers : ℕ)
    → shown (report_of pressed modifiers)
      ≡ take 6 (take 6 pressed) ++ replicate (6 - length (take 6 pressed)) 0
unfolding report_of
shown-report_of pressed modifiers =
    ap (drop 2) (build_hid_report_layout (pick_usages pressed) modifiers) ∙ rw pick_usages-take

mem-shown-take :
    (pressed : List ℕ) (modifiers u : ℕ)
    → u ≢ 0
    → mem u (shown (report_of pressed modifiers)) ≡ mem u (take 6 pressed)
mem-shown-take pressed modifiers u h =
    let six = take 6 pressed in
    ap (mem u) (shown-report_of pressed modifiers)
    ∙ mem-append u (take 6 six) (replicate (6 - length six) 0)
    ∙ rw
        (
          mem-replicate_zero u (6 - length six) h,
          take_all 6 six (omega (arith, length-take 6 pressed)),
        )
        (ground arith)

-- A report shows every pressed key and no other, while at most six are pressed; the usage 0 is no
-- key.
pub mem-shown :
    (pressed : List ℕ) (modifiers u : ℕ)
    → u ≢ 0
    → length pressed ≤ 6
    → mem u (shown (report_of pressed modifiers)) ≡ mem u pressed
mem-shown pressed modifiers u h few =
    mem-shown-take pressed modifiers u h ∙ ap (mem u) (take_all 6 pressed few)

-- With any number of keys pressed, the keys that a report shows are pressed.
pub shown-pressed :
    (pressed : List ℕ) (modifiers u : ℕ)
    → u ≢ 0
    → mem u (shown (report_of pressed modifiers)) ≡ true
    → mem u pressed ≡ true
shown-pressed pressed modifiers u h m =
    mem-take_le u 6 pressed (rw (mem-shown-take pressed modifiers u h) at m)
