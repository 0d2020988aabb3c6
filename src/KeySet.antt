-- ===== src/KeySet.antt =====
-- `std::unordered_set<uint8_t>` as daemon/src/main.cpp uses it (`pressed`, `new_pressed`): a list
-- without repetitions in the order in which the set is iterated. The standard leaves that order
-- open; a new item is put in front here, and what is stated of a set holds for every list.
pub mod Laws
use quic_keys.Common.{
  ℕ, Bool, true, false, not, ◌&&◌, ◌||◌, List, [], ◌∷◌, ◌≡◌, ◌==◌, if◌then◌else◌,
}

-- `s.find(u) != s.end()`
unfoldable pub mem : ℕ → List ℕ → Bool
mem u [] = false
mem u (x ∷ s) = (u == x) || mem u s

-- `s.insert(u)`
unfoldable pub insert : ℕ → List ℕ → List ℕ
unfolding mem
insert u s = if mem u s then s else u ∷ s

-- `s.erase(u)` by key
unfoldable pub erase : ℕ → List ℕ → List ℕ
erase u [] = []
erase u (x ∷ s) = if u == x then erase u s else x ∷ erase u s

-- No item stands twice.
abbrev pub Distinct : List ℕ → Type 0
Distinct [] = Unit {0}
Distinct (x ∷ s) = (mem x s ≡ false) × Distinct s
