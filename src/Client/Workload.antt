-- ===== src/Client/Workload.antt =====
-- The workload of client/hybrid_run.py: what its events press and release.
use quic_keys.Common.{
  ℕ, zero, suc, ◌+◌, ◌≤◌, true, not, List, [], ◌∷◌, ◌++◌, append_assoc, ◌≡◌, inl, inr, refl, sym,
  ap, ap₂, subst, ==_iff, ==_refl, ◌∙◌, arith, Bytes, codes, ◌==◌, if◌then◌else◌, same_bytes,
  length, take, Bool-cases,
}
use quic_keys.KeySet.{mem, insert, erase}
use quic_keys.Client.{
  KeyEvent, set_key, usage_for_key, key_of_char, char_events, text_events, repeat_events,
  fold_noops, workload_events, press_or_release, state_machine,
}

state_machine-append :
    (xs ys : List KeyEvent) (p : List ℕ)
    → state_machine (xs ++ ys) p ≡ state_machine ys (state_machine xs p)
unfolding state_machine
state_machine-append [] ys p = refl
state_machine-append (x ∷ xs) ys p = state_machine-append xs ys (press_or_release x p)

same_bytes_eq : (xs ys : Bytes) → same_bytes xs ys ≡ true → xs ≡ ys
unfolding same_bytes
same_bytes_eq [] [] h = refl
same_bytes_eq [] (y ∷ ys) h = absurd (ground arith)
same_bytes_eq (x ∷ xs) [] h = absurd (ground arith)
same_bytes_eq (x ∷ xs) (y ∷ ys) h = elim (Bool-cases (x == y)) [
  | inl e ↦
      ap₂ (λ (a : ℕ) (as' : Bytes). a ∷ as') ((==_iff x y).0 e) (same_bytes_eq xs ys (rw e at h))
  | inr e ↦ absurd (ground (arith, h, e))
]

noop_keeps :
    (e : KeyEvent) (p : List ℕ) → same_bytes e.cmd (codes "noop") ≡ true → press_or_release e p ≡ p
unfolding press_or_release set_key same_bytes
noop_keeps e p h = rw (same_bytes_eq e.cmd (codes "noop") h) refl

-- A noop presses and releases nothing, so that folding it away changes no state.
fold_noops-state :
    (es : List KeyEvent) (carry : ℕ) (p : List ℕ)
    → state_machine (fold_noops carry es) p ≡ state_machine es p
unfolding fold_noops state_machine press_or_release set_key
fold_noops-state [] carry p = refl
fold_noops-state (e ∷ es) carry p = elim (Bool-cases (same_bytes e.cmd (codes "noop"))) [
  | inl n ↦
      rw n
        (fold_noops-state es (carry + e.delay) p ∙ sym (ap (state_machine es) (noop_keeps e p n)))
  | inr n ↦ rw n (fold_noops-state es 0 (press_or_release e p))
]

-- A text typed `n` times.
repeated : ℕ → Bytes → Bytes
repeated zero text = []
repeated (suc n) text = text ++ repeated n text

text_events-append :
    (d : ℕ) (xs ys : Bytes) → text_events d (xs ++ ys) ≡ text_events d xs ++ text_events d ys
unfolding text_events
text_events-append d [] ys = refl
text_events-append d (x ∷ xs) ys =
    ap (λ t. char_events d x ++ t) (text_events-append d xs ys)
    ∙ sym (append_assoc (char_events d x) (text_events d xs) (text_events d ys))

repeat_events-text :
    (n d : ℕ) (text : Bytes) → repeat_events n d text ≡ text_events d (repeated n text)
unfolding repeat_events repeated text_events
repeat_events-text zero d text = refl
repeat_events-text (suc n) d text =
    ap (λ t. text_events d text ++ t) (repeat_events-text n d text)
    ∙ sym (text_events-append d text (repeated n text))

abbrev key_down : ℕ → List ℕ
key_down u = if not (u == 0) then insert u [] else []

key_released : (u : ℕ) → (if not (u == 0) then erase u (key_down u) else key_down u) ≡ []
unfolding insert erase mem
key_released u = ground (arith, ==_refl u)

length-key_down : (u : ℕ) → length (key_down u) ≤ 1
unfolding insert mem
length-key_down u = ground arith

module _ (d : ℕ) where
  typed_ends :
      (text : Bytes) (carry : ℕ) → state_machine (fold_noops carry (text_events d text)) [] ≡ []
  unfolding fold_noops text_events char_events state_machine press_or_release set_key same_bytes
      insert erase mem
  typed_ends [] carry = refl
  typed_ends (ch ∷ text) carry =
      ap (state_machine (fold_noops (0 + d) (text_events d text)))
        (key_released (usage_for_key (key_of_char ch)))
      ∙ typed_ends text (0 + d)

  typed_one :
      (text : Bytes) (carry k : ℕ)
      → length (state_machine (take k (fold_noops carry (text_events d text))) []) ≤ 1
  unfolding fold_noops text_events char_events state_machine press_or_release set_key same_bytes
      insert erase mem
  typed_one [] carry zero = omega arith
  typed_one [] carry (suc k) = omega arith
  typed_one (ch ∷ text) carry zero = omega arith
  typed_one (ch ∷ text) carry (suc zero) = length-key_down (usage_for_key (key_of_char ch))
  typed_one (ch ∷ text) carry (suc (suc zero)) = length-key_down (usage_for_key (key_of_char ch))
  typed_one (ch ∷ text) carry (suc (suc (suc k))) =
      subst (λ p. length (state_machine (take k (fold_noops (0 + d) (text_events d text))) p) ≤ 1)
        (sym (key_released (usage_for_key (key_of_char ch)))) (typed_one text (0 + d) k)

-- However often a text is typed: after any number of the workload's events the client holds at most one
-- key, and after all of them none.
pub workload-one_key :
    (text : Bytes) (n key_delay k : ℕ)
    → (length (state_machine (take k (workload_events text n key_delay)) []) ≤ 1)
      × (state_machine (workload_events text n key_delay) [] ≡ [])
unfolding workload_events
workload-one_key text n d k =
    rw (repeat_events-text n d text)
      (typed_one d (repeated n text) 0 k, typed_ends d (repeated n text) 0)
