-- ===== src/Threads/Delivery.antt =====
-- Which reports `send_report` was called with once all threads are between two handlers.
use quic_keys.Common.{
  ℕ, ◌<◌, Bool, true, false, List, [], ◌∷◌, ◌++◌, append_assoc, ◌≡◌, ◌≢◌, refl, sym, ap, ◌∙◌, arith,
  Bool-cases, inl, inr, ◌==◌, ==_iff, subst,
}
use quic_keys.Report.{HidReport8}
use quic_keys.Keyboard.{
  Keyboard, Limits, Action, edge, marked, reliable_edge, snapshot, scanned, apply, mark_up,
}
use quic_keys.Keyboard.Invariant.{IsValid}
use quic_keys.Keyboard.Watchdog.{expire-quiet}
use quic_keys.Threads.{
  Pc, idle, edited, picked, Shared, announces, current, entered, emitted, after_section, Move,
  section, pick, emit, update, System, init, turn, Reach, begun, later,
}
use quic_keys.Threads.Consistency.{Reach-IsConsistent}

abbrev pub WasGiven : HidReport8 → List HidReport8 → Type 0
WasGiven r sent =
    (before : List HidReport8) × (after : List HidReport8) × (before ++ r ∷ after ≡ sent)

-- `send_report` was called with the report of the current state, or a thread will pick it or make the call, or
-- nothing asked for one yet.
data IsCovered (n : ℕ) (s : System) : Type 0 where
  was_given : WasGiven (current s.shared.keyboard) s.shared.sent → IsCovered n s
  to_pick : (i : ℕ) → i < n → s.pc i ≡ edited → IsCovered n s
  to_send : (i : ℕ) → i < n → s.pc i ≡ picked (current s.shared.keyboard) → IsCovered n s
  silent : s.shared.announced ≡ false → IsCovered n s

quiet-current :
    (c : Limits) (a : Action) (k : Keyboard)
    → IsValid k
    → announces c a k ≡ false
    → current (apply c a k) ≡ current k
unfolding announces apply mark_up
quiet-current c (edge now_ns u down) k v e = absurd (ground arith)
quiet-current c (marked t_ns u) k v e = refl
quiet-current c (reliable_edge now_ns u cmd mods) k v e = absurd (ground arith)
quiet-current c (snapshot now_ns snap_mods new) k v e = absurd (ground arith)
quiet-current c (scanned now_ns) k v e =
    let (pressed, mods) = expire-quiet c now_ns k v.distinct e in rw (pressed, mods) refl

sent_more :
    (r r' : HidReport8) (sent : List HidReport8) → WasGiven r sent → WasGiven r (sent ++ r' ∷ [])
sent_more r r' sent (before, after, whole) = (
  before,
  after ++ r' ∷ [],
  sym (append_assoc before (r ∷ after) (r' ∷ [])) ∙ ap (λ t. t ++ r' ∷ []) whole,
)

update_same : (pc : ℕ → Pc) (i : ℕ) (p : Pc) → update pc i p i ≡ p
update_same pc i p = ground arith

abbrev rank : Pc → ℕ
rank idle = 0
rank edited = 1
rank (picked r) = 2

abbrev report_in : HidReport8 → Pc → HidReport8
report_in r (picked r') = r'
report_in r _ = r

module _ (s : System) (i : ℕ) (m : Shared) (p' : Pc) where
  abbrev next : System
  next = record { shared = m; pc = update s.pc i p' }

  -- Another thread stays where it is.
  elsewhere : (j : ℕ) (p q : Pc) → s.pc i ≡ p → s.pc j ≡ q → rank p ≢ rank q → next.pc j ≡ q
  elsewhere j p q at at_j differ = elim (Bool-cases (j == i)) [
    | inl e ↦ absurd (differ (ap rank (sym at ∙ ap s.pc (sym ((==_iff j i).0 e)) ∙ at_j)))
    | inr e ↦ rw e at_j
  ]

module _ (c : Limits) (n : ℕ) (s : System) (i : ℕ) (h : i < n) where
  section-IsCovered :
      (a : Action)
      → s.pc i ≡ idle
      → IsValid s.shared.keyboard
      → IsCovered n s
      → IsCovered n
          (next s i (entered c a s.shared) (after_section (announces c a s.shared.keyboard)))
  section-IsCovered a at v covered = elim (Bool-cases (announces c a s.shared.keyboard)) [
    | inl e ↦ to_pick i h (update_same s.pc i _ ∙ ap after_section e)
    | inr e ↦ quiet e (quiet-current c a s.shared.keyboard v e) covered
  ]
    where
      asks : Bool
      asks = announces c a s.shared.keyboard

      quiet :
          asks ≡ false
          → current (apply c a s.shared.keyboard) ≡ current s.shared.keyboard
          → IsCovered n s
          → IsCovered n (next s i (entered c a s.shared) (after_section asks))
      quiet e same (was_given w) = was_given (subst (λ r. WasGiven r s.shared.sent) (sym same) w)
      quiet e same (to_pick j hj ej) = to_pick j hj (
          elsewhere s i (entered c a s.shared) (after_section asks) j idle edited at ej
            (λ x. absurd (omega arith)))
      quiet e same (to_send j hj ej) = to_send j hj (
          elsewhere s i (entered c a s.shared) (after_section asks) j idle _ at ej
            (λ x. absurd (omega arith))
          ∙ ap picked (sym same))
      quiet e same (silent none_yet) = silent (rw (none_yet, e) refl)

  emit-IsCovered :
      (r : HidReport8)
      → s.pc i ≡ picked r
      → IsCovered n s
      → IsCovered n (next s i (emitted r s.shared) idle)
  emit-IsCovered r at (was_given w) = was_given (sent_more _ r s.shared.sent w)
  emit-IsCovered r at (to_pick j hj ej) = to_pick j hj (
      elsewhere s i (emitted r s.shared) idle j (picked r) edited at ej (λ x. absurd (omega arith)))
  emit-IsCovered r at (to_send j hj ej) = elim (Bool-cases (j == i)) [
    | inl e ↦ was_given (s.shared.sent, [], ap (λ x. s.shared.sent ++ x ∷ []) (sent_now e))
    | inr e ↦ to_send j hj (rw e ej)
  ]
    where
      sent_now : (j == i) ≡ true → current s.shared.keyboard ≡ r
      sent_now e = ap (report_in r) (sym ej ∙ ap s.pc ((==_iff j i).0 e) ∙ at)
  emit-IsCovered r at (silent none_yet) = silent none_yet

  move-IsCovered :
      (q p : Pc) (m : Shared)
      → Move c s.shared q m p
      → s.pc i ≡ q
      → IsValid s.shared.keyboard
      → IsCovered n s
      → IsCovered n (next s i m p)
  move-IsCovered idle p m (section a ok) at v covered = section-IsCovered a at v covered
  move-IsCovered edited p m pick at v covered = to_send i h (update_same s.pc i _)
  move-IsCovered (picked x) p m (emit r) at v covered = emit-IsCovered x at covered

Reach-IsCovered : (c : Limits) (n : ℕ) (s : System) → Reach c n s → IsCovered n s
unfolding init
Reach-IsCovered c n _ begun = silent refl
Reach-IsCovered c n _ (later {s} r (turn i {m} {p} h mv)) =
    let v = (Reach-IsConsistent c n s r).valid in
    move-IsCovered c n s i h (s.pc i) p m mv refl v (Reach-IsCovered c n s r)

-- With any number of threads in any interleaving: whenever all of them are between two handlers,
-- `send_report` has been called with the report of the current state, unless no section so far asked for a
-- report. Whether the socket is connected and takes the report is not part of it.
pub idle-WasGiven :
    (c : Limits) (n : ℕ) (s : System)
    → Reach c n s
    → ((i : ℕ) → i < n → s.pc i ≡ idle)
    → s.shared.announced ≡ true
    → WasGiven (current s.shared.keyboard) s.shared.sent
idle-WasGiven c n s r quiet some_asked = elim (Reach-IsCovered c n s r) [
  | was_given w ↦ w
  | to_pick i h e ↦
      let clash : rank idle ≡ rank edited = ap rank (sym (quiet i h) ∙ e) in
      absurd (omega (arith, clash))
  | to_send i h e ↦
      let clash : rank idle ≡ rank (picked (current s.shared.keyboard)) =
        ap rank (sym (quiet i h) ∙ e) in
      absurd (omega (arith, clash))
  | silent e ↦ absurd (ground (arith, some_asked, e))
]
