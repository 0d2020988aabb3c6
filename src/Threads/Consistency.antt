-- ===== src/Threads/Consistency.antt =====
-- The guarded state and the reports of the threads, against the sections in the order of the lock.
use quic_keys.Common.{
  ℕ, Bool, true, false, List, [], ◌∷◌, ◌++◌, append_assoc, append-nil, ◌≡◌, refl, sym, ap, ◌∙◌, All,
  Bool-cases, inl, inr, ◌==◌,
}
use quic_keys.Report.{HidReport8}
use quic_keys.Keyboard.{Keyboard, Limits, Action, initial, apply, run}
use quic_keys.Keyboard.Invariant.{IsValid, initial-IsValid, apply-IsValid}
use quic_keys.Threads.{
  Pc, idle, edited, picked, Shared, announces, current, Move, section, pick, emit, update, System,
  init, turn, Reach, begun, later, after_section,
}

-- A report of the state after the first sections of the history.
abbrev pub WasCurrent : Limits → List Action → HidReport8 → Type 0
WasCurrent c history r =
    (first : List Action) × (rest : List Action) × (first ++ rest ≡ history)
    × (r ≡ current (run c first initial))

abbrev PcHolds : Limits → List Action → Pc → Type 0
PcHolds c history idle = Unit {0}
PcHolds c history edited = Unit {0}
PcHolds c history (picked r) = WasCurrent c history r

pub record IsConsistent (c : Limits) (s : Shared) : Type 0 where
  pub valid : IsValid s.keyboard
  pub replayed : s.keyboard ≡ run c s.history initial
  pub reports : All (WasCurrent c s.history) s.sent

run-append :
    (c : Limits) (xs ys : List Action) (k : Keyboard) → run c (xs ++ ys) k ≡ run c ys (run c xs k)
unfolding run
run-append c [] ys k = refl
run-append c (a ∷ xs) ys k = run-append c xs ys (apply c a k)

module _ (c : Limits) where
  extend :
      (a : Action) (h : List Action) (r : HidReport8)
      → WasCurrent c h r
      → WasCurrent c (h ++ a ∷ []) r
  extend a h r (first, rest, whole, shown) = (
    first,
    rest ++ a ∷ [],
    sym (append_assoc first rest (a ∷ [])) ∙ ap (λ t. t ++ a ∷ []) whole,
    shown,
  )

  extend-All :
      (a : Action) (h : List Action) (rs : List HidReport8)
      → All (WasCurrent c h) rs
      → All (WasCurrent c (h ++ a ∷ [])) rs
  extend-All a h [] w = tt
  extend-All a h (r ∷ rs) (w, ws) = (extend a h r w, extend-All a h rs ws)

  extend_pc : (a : Action) (h : List Action) (p : Pc) → PcHolds c h p → PcHolds c (h ++ a ∷ []) p
  extend_pc a h idle w = tt
  extend_pc a h edited w = tt
  extend_pc a h (picked r) w = extend a h r w

  snoc-All :
      (h : List Action) (rs : List HidReport8) (r : HidReport8)
      → All (WasCurrent c h) rs
      → WasCurrent c h r
      → All (WasCurrent c h) (rs ++ r ∷ [])
  snoc-All h [] r w v = (v, tt)
  snoc-All h (x ∷ rs) r (w, ws) v = (w, snoc-All h rs r ws v)

  quiet_pc : (h : List Action) (asks : Bool) → PcHolds c h (after_section asks)
  quiet_pc h true = tt
  quiet_pc h false = tt

  move-IsConsistent :
      (s m : Shared) (p p' : Pc)
      → Move c s p m p'
      → IsConsistent c s
      → PcHolds c s.history p
      → IsConsistent c m
        × PcHolds c m.history p'
        × ((q : Pc) → PcHolds c s.history q → PcHolds c m.history q)
  unfolding run
  move-IsConsistent s m p p' (section a h) v held = (
    record {
      valid = apply-IsValid c a s.keyboard h v.valid;
      replayed = ap (apply c a) v.replayed ∙ sym (run-append c s.history (a ∷ []) initial);
      reports = extend-All a s.history s.sent v.reports;
    },
    quiet_pc (s.history ++ a ∷ []) (announces c a s.keyboard),
    extend_pc a s.history,
  )
  move-IsConsistent s m p p' pick v held =
      (v, (s.history, [], append-nil s.history, ap current v.replayed), λ q w. w)
  move-IsConsistent s m p p' (emit r) v held = (
    record {
      valid = v.valid;
      replayed = v.replayed;
      reports = snoc-All s.history s.sent r v.reports held;
    },
    tt,
    λ q w. w,
  )

  Reach-holds :
      (n : ℕ) (s : System)
      → Reach c n s
      → IsConsistent c s.shared × ((i : ℕ) → PcHolds c s.shared.history (s.pc i))
  unfolding init run
  Reach-holds n _ begun =
      (record { valid = initial-IsValid; replayed = refl; reports = tt }, λ i. tt)
  Reach-holds n _ (later {s} r (turn i {m} {p} h mv)) =
      let (v, pcs) = Reach-holds n s r in
      let (v', held, others) = move-IsConsistent s.shared m (s.pc i) p mv v (pcs i) in
      (v', λ j. moved s m i j p held (others (s.pc j) (pcs j)))
    where
      moved :
          (s : System) (m : Shared) (i j : ℕ) (p : Pc)
          → PcHolds c m.history p
          → PcHolds c m.history (s.pc j)
          → PcHolds c m.history (update s.pc i p j)
      moved s m i j p held other = elim (Bool-cases (j == i)) [
        | inl e ↦ rw e held
        | inr e ↦ rw e other
      ]

-- However many threads there are and however they interleave: the guarded state is valid, it is what
-- the sections make of the initial state one after another in the order in which the lock admitted
-- them, and every report that was sent shows the state after the first of these sections, up to some
-- point.
pub Reach-IsConsistent : (c : Limits) (n : ℕ) (s : System) → Reach c n s → IsConsistent c s.shared
Reach-IsConsistent c n s r = (Reach-holds c n s r).0
