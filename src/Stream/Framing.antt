-- ===== src/Stream/Framing.antt =====
-- How `stream_cb` cuts the bytes of a stream into records, over any split into events.
use quic_keys.Common.{
  ℕ, zero, suc, ◌+◌, ◌≤◌, ◌<◌, true, List, [], ◌∷◌, ◌++◌, append-nil, append_assoc, ◌≡◌, refl, sym,
  ap, ◌∙◌, arith, Bytes, All, length, take, drop, ltb, length-append, length-drop, length-take,
  take-append-drop, take-append_le, drop-append_le, lt→ltb, drop_all, take_all,
}
use native.Mathlib.Decide.{dec_lt}
use quic_keys.Stream.{Delivery, append_buffers, deliver_loop, deliver, receive, receive_all}

abbrev pub concat : List Bytes → Bytes
concat [] = []
concat (b ∷ bs) = b ++ concat bs

concat-append : (xs ys : List Bytes) → concat (xs ++ ys) ≡ concat xs ++ concat ys
concat-append [] ys = refl
concat-append (x ∷ xs) ys = rw (concat-append xs ys) (sym (append_assoc x (concat xs) (concat ys)))

append_buffers-concat : (bs : List Bytes) (p : Bytes) → append_buffers bs p ≡ p ++ concat bs
unfolding append_buffers
append_buffers-concat [] p = sym (append-nil p)
append_buffers-concat ([] ∷ bs) p = append_buffers-concat bs p
append_buffers-concat ((x ∷ b) ∷ bs) p =
    let some_bytes : ltb 0 (length (x ∷ b)) ≡ true = ground arith in
    rw some_bytes (append_buffers-concat bs (p ++ x ∷ b) ∙ append_assoc p (x ∷ b) (concat bs))

module _ (n : ℕ) where
  -- One round.
  loop_more :
      (fuel : ℕ) (p : Bytes)
      → n ≤ length p
      → let rest = deliver_loop n fuel (drop n p) in
        deliver_loop n (suc fuel) p
        ≡ record { messages = take n p ∷ rest.messages; pending = rest.pending }
  unfolding deliver_loop
  loop_more fuel p h = ground arith

  loop_done :
      (fuel : ℕ) (p : Bytes)
      → length p < n
      → deliver_loop n fuel p ≡ record { messages = []; pending = p }
  unfolding deliver_loop
  loop_done zero p h = refl
  loop_done (suc fuel) p h = ground arith

module _ (n : ℕ) (positive : 0 < n) where
  loop_parts :
      (fuel : ℕ) (p : Bytes)
      → length p ≤ fuel
      → let d = deliver_loop n fuel p in
        (concat d.messages ++ d.pending ≡ p)
        × All (λ m. length m ≡ n) d.messages
        × (length d.pending < n)
  loop_parts zero p h = rw (loop_done n zero p (omega arith)) (refl, tt, omega arith)
  loop_parts (suc f) p h = elim (dec_lt (length p) n) [
    | yes few ↦ rw (loop_done n (suc f) p few) (refl, tt, few)
    | no many ↦
        let (whole, sizes, short) = loop_parts f (drop n p) (omega (arith, length-drop n p)) in
        rw (loop_more n f p (omega arith)) (
          append_assoc (take n p) _ _ ∙ ap (λ t. take n p ++ t) whole ∙ take-append-drop n p,
          (omega (arith, length-take n p), sizes),
          short,
        )
  ]

  -- More fuel than bytes changes nothing.
  loop_fuel :
      (f g : ℕ) (p : Bytes) → length p ≤ f → length p ≤ g → deliver_loop n f p ≡ deliver_loop n g p
  loop_fuel zero g p hf hg = loop_done n zero p (omega arith) ∙ sym (loop_done n g p (omega arith))
  loop_fuel (suc f) zero p hf hg =
      loop_done n (suc f) p (omega arith) ∙ sym (loop_done n zero p (omega arith))
  loop_fuel (suc f) (suc g) p hf hg = elim (dec_lt (length p) n) [
    | yes few ↦ loop_done n (suc f) p few ∙ sym (loop_done n (suc g) p few)
    | no many ↦
        let rest =
          loop_fuel f g (drop n p) (omega (arith, length-drop n p))
            (omega (arith, length-drop n p)) in
        rw (loop_more n f p (omega arith), loop_more n g p (omega arith)) (rw rest)
  ]

  -- With fuel enough, what comes later is delivered after what is there.
  loop_append :
      (f g h : ℕ) (p q : Bytes)
      → length p ≤ f
      → length p + length q ≤ g
      → length p + length q ≤ h
      → let first = deliver_loop n f p in
        let rest = deliver_loop n g (first.pending ++ q) in
        deliver_loop n h (p ++ q)
        ≡ record { messages = first.messages ++ rest.messages; pending = rest.pending }
  loop_append zero g h p q hf hg hh =
      rw (loop_done n zero p (omega arith)) (
        loop_fuel h g (p ++ q) (omega (arith, length-append p q))
          (omega (arith, length-append p q)))
  loop_append (suc f) g zero p q hf hg hh = rw (loop_done n (suc f) p (omega arith)) (
      loop_fuel zero g (p ++ q) (omega (arith, length-append p q))
        (omega (arith, length-append p q)))
  loop_append (suc f) g (suc h) p q hf hg hh = elim (dec_lt (length p) n) [
    | yes few ↦ rw (loop_done n (suc f) p few) (
        loop_fuel (suc h) g (p ++ q) (omega (arith, length-append p q))
          (omega (arith, length-append p q)))
    | no many ↦
        let later =
          loop_append f g h (drop n p) q (omega (arith, length-drop n p))
            (omega (arith, length-drop n p)) (omega (arith, length-drop n p)) in
        rw (loop_more n f p (omega arith)) (
          rw (loop_more n h (p ++ q) (omega (arith, length-append p q))) (
            rw (take-append_le n p q (omega arith), drop-append_le n p q (omega arith)) (rw later)))
  ]

-- The bytes of a run of events.
abbrev pub bytes_of : List (List Bytes) → Bytes
bytes_of [] = []
bytes_of (e ∷ es) = concat e ++ bytes_of es

-- The cut at the fuel that is used.
deliver_parts :
    (record_size : ℕ) (pending : Bytes)
    → 0 < record_size
    → let d = deliver record_size pending in
      (concat d.messages ++ d.pending ≡ pending)
      × All (λ m. length m ≡ record_size) d.messages
      × (length d.pending < record_size)
unfolding deliver
deliver_parts n p h = loop_parts n h (length p) p (omega arith)

-- The loop of a RECEIVE event ends, for a record size that is not 0: with as many rounds as there are
-- bytes, or more, it always gives the same, its condition no longer holds for what is left, every
-- record has the right size, and records and rest together are the bytes that it was given.
pub deliver_loop-ends :
    (record_size fuel : ℕ) (pending : Bytes)
    → 0 < record_size
    → length pending ≤ fuel
    → let d = deliver record_size pending in
      (deliver_loop record_size fuel pending ≡ d)
      × (length d.pending < record_size)
      × All (λ m. length m ≡ record_size) d.messages
      × (concat d.messages ++ d.pending ≡ pending)
unfolding deliver
deliver_loop-ends n fuel p h enough =
    let (whole, sizes, short) = loop_parts n h (length p) p (omega arith) in
    (loop_fuel n h fuel (length p) p enough (omega arith), short, sizes, whole)

-- Cutting in two goes is cutting at once.
pub deliver-append :
    (n : ℕ) (p q : Bytes)
    → 0 < n
    → let first = deliver n p in
      let rest = deliver n (first.pending ++ q) in
      deliver n (p ++ q)
      ≡ record { messages = first.messages ++ rest.messages; pending = rest.pending }
unfolding deliver
deliver-append n p q h =
    let first = deliver_loop n (length p) p in
    let (whole, sizes, short) = loop_parts n h (length p) p (omega arith) in
    let shorter : length first.pending ≤ length p =
      omega (arith, ap length whole, length-append (concat first.messages) first.pending) in
    let g = length p + length q in
    loop_append n h (length p) g (length (p ++ q)) p q (omega arith) (omega arith)
      (omega (arith, length-append p q))
    ∙ ap (λ (d : Delivery). record { messages = first.messages ++ d.messages; pending = d.pending })
        (loop_fuel n h g (length (first.pending ++ q)) (first.pending ++ q)
          (omega (arith, length-append first.pending q)) (omega arith))

pub deliver_short :
    (n : ℕ) (p : Bytes) → length p < n → deliver n p ≡ record { messages = []; pending = p }
unfolding deliver
deliver_short n p h = loop_done n (length p) p h

-- One record, and nothing behind it.
pub deliver_whole :
    (n : ℕ) (p : Bytes)
    → 0 < n
    → length p ≡ n
    → deliver n p ≡ record { messages = p ∷ []; pending = [] }
unfolding deliver
deliver_whole n [] h e = absurd (omega arith)
deliver_whole n (x ∷ p) h e =
    let none_left : drop n (x ∷ p) ≡ [] = drop_all n (x ∷ p) (omega arith) in
    loop_more n (length p) (x ∷ p) (omega arith)
    ∙ rw (none_left, take_all n (x ∷ p) (omega arith), loop_done n (length p) [] h)

-- Records one behind the other are cut where they meet.
pub deliver-concat :
    (n : ℕ) (ms : List Bytes)
    → 0 < n
    → All (λ m. length m ≡ n) ms
    → deliver n (concat ms) ≡ record { messages = ms; pending = [] }
deliver-concat n [] h sizes = deliver_short n [] h
deliver-concat n (m ∷ ms) h (size, sizes) =
    deliver-append n m (concat ms) h
    ∙ rw (deliver_whole n m h size) (rw (deliver-concat n ms h sizes))

-- One event in the framed mode.
receive_framed :
    (n : ℕ) (e : List Bytes) (p : Bytes)
    → 0 < n
    → receive (record { has_callback = true; record_size = n }) e p ≡ deliver n (p ++ concat e)
unfolding receive
receive_framed n e p h = rw (append_buffers-concat e p, lt→ltb 0 n h)

-- With a callback and a record size that is not 0, and fewer bytes pending than a record: however
-- the bytes of a stream are spread over RECEIVE events and their buffers, the handler is called
-- with the records of the whole stream, in order, and the same bytes are left.
pub receive_all-deliver :
    (record_size : ℕ) (events : List (List Bytes)) (pending : Bytes)
    → 0 < record_size
    → length pending < record_size
    → receive_all (record { has_callback = true; record_size = record_size }) events pending
      ≡ deliver record_size (pending ++ bytes_of events)
unfolding receive_all
receive_all-deliver n [] p h few =
    rw append-nil (unfold deliver in sym (loop_done n (length p) p few))
receive_all-deliver n (e ∷ es) p h few =
    let first = deliver n (p ++ concat e) in
    let short = (deliver_parts n (p ++ concat e) h).2 in
    rw (receive_framed n e p h) (
      rw (receive_all-deliver n es first.pending h short) (
        sym (deliver-append n (p ++ concat e) (bytes_of es) h)
        ∙ ap (deliver n) (append_assoc p (concat e) (bytes_of es))))
