-- ===== src/KeySet/Laws.antt =====
-- Membership after each operation on a key set, and that an operation keeps the items distinct.
use quic_keys.Common.{
  ℕ, zero, suc, ◌+◌, ◌≤◌, ◌≢◌, ◌++◌, refl, replicate, take, length, true, false, not, ◌&&◌, ◌||◌,
  List, [], ◌∷◌, ◌≡◌, ◌==◌, arith, All, Bool-cases, inl, inr, subst, sym, ==_iff,
}
use quic_keys.KeySet.{mem, insert, erase, Distinct}

pub mem-insert : (j u : ℕ) (s : List ℕ) → mem j (insert u s) ≡ ((j == u) || mem j s)
unfolding insert mem
mem-insert j u s = ground arith

pub mem-erase : (j u : ℕ) (s : List ℕ) → mem j (erase u s) ≡ (not (j == u) && mem j s)
unfolding mem erase
mem-erase j u [] = ground arith
mem-erase j u (x ∷ s) = ground (arith, mem-erase j u s)

pub insert-Distinct : (u : ℕ) (s : List ℕ) → Distinct s → Distinct (insert u s)
unfolding insert
insert-Distinct u s h = ground arith

pub erase-Distinct : (u : ℕ) (s : List ℕ) → Distinct s → Distinct (erase u s)
unfolding erase
erase-Distinct u [] h = tt
erase-Distinct u (x ∷ s) (hx, h) = ground (arith, erase-Distinct u s h, mem-erase x u s)

module _ {ℓ} (P : ℕ → Type ℓ) where
  pub insert-All : (u : ℕ) (s : List ℕ) → P u → All P s → All P (insert u s)
  unfolding insert
  insert-All u s pu h = elim (Bool-cases (mem u s)) [ inl e ↦ rw e h | inr e ↦ rw e (pu, h) ]

  pub erase-All : (u : ℕ) (s : List ℕ) → All P s → All P (erase u s)
  unfolding erase
  erase-All u [] h = tt
  erase-All u (x ∷ s) (px, h) = elim (Bool-cases (u == x)) [
    | inl e ↦ rw e (erase-All u s h)
    | inr e ↦ rw e (px, erase-All u s h)
  ]

-- What holds of every item holds of an item found.
pub All-mem {ℓ} : (P : ℕ → Type ℓ) (u : ℕ) (s : List ℕ) → All P s → mem u s ≡ true → P u
unfolding mem
All-mem P u [] h m = cc
All-mem P u (x ∷ s) (px, h) m = elim (Bool-cases (u == x)) [
  | inl e ↦ subst P (sym ((==_iff u x).0 e)) px
  | inr e ↦ All-mem P u s h (rw e at m)
]

pub All-of_mem {ℓ} : (P : ℕ → Type ℓ) (s : List ℕ) → ((u : ℕ) → mem u s ≡ true → P u) → All P s
unfolding mem
All-of_mem P [] h = tt
All-of_mem P (x ∷ s) h = (h x (ground arith), All-of_mem P s (λ u m. h u (ground arith)))

pub mem-append : (u : ℕ) (xs ys : List ℕ) → mem u (xs ++ ys) ≡ (mem u xs || mem u ys)
unfolding mem
mem-append u [] ys = refl
mem-append u (x ∷ xs) ys = ground (arith, mem-append u xs ys)

-- Padding with zeros adds no other key.
pub mem-replicate_zero : (u n : ℕ) → u ≢ 0 → mem u (replicate n 0) ≡ false
unfolding mem
mem-replicate_zero u zero h = refl
mem-replicate_zero u (suc n) h = ground (arith, mem-replicate_zero u n)

pub mem-take_le : (u n : ℕ) (s : List ℕ) → mem u (take n s) ≡ true → mem u s ≡ true
unfolding mem
mem-take_le u zero s h = cc
mem-take_le u (suc n) [] h = cc
mem-take_le u (suc n) (x ∷ s) h = ground (arith, mem-take_le u n s)

pub length-insert : (u : ℕ) (s : List ℕ) → length (insert u s) ≤ length s + 1
unfolding insert
length-insert u s = ground arith

pub length-erase : (u : ℕ) (s : List ℕ) → length (erase u s) ≤ length s
unfolding erase
length-erase u [] = omega arith
length-erase u (x ∷ s) = ground (arith, length-erase u s)
