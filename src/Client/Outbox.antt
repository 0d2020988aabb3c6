-- ===== src/Client/Outbox.antt =====
-- `DelayedUdpOutbox` and `DelayedQuicOutbox` of client/hybrid_run.py: a priority queue by the time to send.
-- The second drops whatever is lost, as the first what is not reliable. The heap is the list of
-- its entries in ascending order, which is the order in which `heappop` gives them.
use quic_keys.Common.{
  ℕ, zero, suc, ◌≤◌, ◌<◌, Bool, true, false, not, ◌&&◌, ◌||◌, List, [], ◌∷◌, ◌++◌, map,
  append_assoc, append-nil, map-append, ◌≡◌, refl, sym, ap, ◌∙◌, arith, Bytes, All, All-append, ltb,
  ◌==◌, if◌then◌else◌, length, Bool-cases, inl, inr,
}
use quic_keys.Client.{Enqueue}

pub record Entry : Type 0 where
  pub send_at : ℕ
  pub payload : Bytes

-- `<` of bytes
bytes_before : Bytes → Bytes → Bool
bytes_before xs [] = false
bytes_before [] (y ∷ ys) = true
bytes_before (x ∷ xs) (y ∷ ys) = let rest = bytes_before xs ys in ltb x y || (x == y && rest)

-- `<` of the tuples `(send_at, payload)`
before : Entry → Entry → Bool
before a b = ltb a.send_at b.send_at || (a.send_at == b.send_at && bytes_before a.payload b.payload)

heappush : Entry → List Entry → List Entry
heappush e [] = e ∷ []
heappush e (f ∷ pq) = let rest = heappush e pq in if before e f then e ∷ f ∷ pq else f ∷ rest

pub record Outbox : Type 0 where
  pub pq : List Entry
  pub sent : List Bytes

abbrev pub new_outbox : Outbox
new_outbox = record { pq = []; sent = [] }

-- `if not reliable and self._imp.drop(): return`
unfoldable pub is_dropped : Enqueue → Bool
is_dropped c = not c.reliable && c.lost

enqueue : Enqueue → Outbox → Outbox
enqueue c o =
    if is_dropped c
    then o
    else record o { pq = heappush (record { send_at = c.send_at; payload = c.payload }) o.pq }

-- A round of `run` that finds an entry: it takes the least, waits for its time, and sends it. With an empty
-- queue it waits, or returns if the outbox is closed.
send_next : Outbox → Outbox
send_next o = elim o.pq [ [] ↦ o | e ∷ pq ↦ record { pq = pq; sent = o.sent ++ e.payload ∷ [] } ]

-- The calls of the sender and the rounds of `run`, in any order.
pub data OutboxMove : Type 0 where
  called : Enqueue → OutboxMove
  sends : OutboxMove

outbox_step : OutboxMove → Outbox → Outbox
outbox_step (called c) o = enqueue c o
outbox_step sends o = send_next o

pub outbox_run : List OutboxMove → Outbox → Outbox
outbox_run [] o = o
outbox_run (m ∷ ms) o = outbox_run ms (outbox_step m o)

-- The rounds after `close`, until the queue is empty; a round takes an entry.
drain_rounds : ℕ → Outbox → Outbox
drain_rounds zero o = o
drain_rounds (suc n) o = drain_rounds n (send_next o)

pub drain : Outbox → Outbox
drain o = drain_rounds (length o.pq) o

-- The calls among the moves.
unfoldable pub calls_of : List OutboxMove → List Enqueue
calls_of [] = []
calls_of (called c ∷ ms) = c ∷ calls_of ms
calls_of (sends ∷ ms) = calls_of ms

-- The payloads that are not dropped, in the order of the calls.
unfoldable pub accepted : List Enqueue → List Bytes
accepted [] = []
accepted (c ∷ cs) = let rest = accepted cs in if is_dropped c then rest else c.payload ∷ rest

-- Each call that is not dropped is to be sent later than those before it.
abbrev pub IsIncreasing : ℕ → List Enqueue → Type 0
IsIncreasing last [] = Unit {0}
IsIncreasing last (c ∷ cs) =
    (is_dropped c ≡ false → last < c.send_at)
    × IsIncreasing (if is_dropped c then last else c.send_at) cs

abbrev payloads : List Entry → List Bytes
payloads pq = map (λ (e : Entry). e.payload) pq

-- All that went in and was not dropped: what is sent, and what waits.
contents : Outbox → List Bytes
contents o = o.sent ++ payloads o.pq

heappush-last :
    (e : Entry) (pq : List Entry)
    → All (λ (f : Entry). f.send_at < e.send_at) pq
    → heappush e pq ≡ pq ++ e ∷ []
unfolding heappush before
heappush-last e [] h = refl
heappush-last e (f ∷ pq) (h, hs) =
    let later : ltb e.send_at f.send_at ≡ false = ground (arith, h) in
    let other : (e.send_at == f.send_at) ≡ false = ground (arith, h) in
    rw (later, other) (ap (λ t. f ∷ t) (heappush-last e pq hs))

send_next-pq :
    (pq : List Entry) (sent : List Bytes)
    → contents (send_next (record { pq = pq; sent = sent })) ≡ sent ++ payloads pq
unfolding contents send_next
send_next-pq [] sent = refl
send_next-pq (e ∷ pq) sent = append_assoc sent (e.payload ∷ []) (payloads pq)

-- Sending moves a payload from the queue to what is sent.
contents-send_next : (o : Outbox) → contents (send_next o) ≡ contents o
unfolding contents
contents-send_next o = send_next-pq o.pq o.sent

abbrev Until : ℕ → List Entry → Type 0
Until last = All (λ (f : Entry). f.send_at ≤ last)

Until-before :
    (pq : List Entry) (last at : ℕ)
    → last < at
    → Until last pq
    → All (λ (f : Entry). f.send_at < at) pq
Until-before [] last at h us = tt
Until-before (e ∷ pq) last at h (u, us) = (omega (arith, h, u), Until-before pq last at h us)

Until-later : (pq : List Entry) (last at : ℕ) → last < at → Until last pq → Until at pq
Until-later [] last at h us = tt
Until-later (e ∷ pq) last at h (u, us) = (omega (arith, h, u), Until-later pq last at h us)

Until-next :
    (pq : List Entry) (sent : List Bytes) (last : ℕ)
    → Until last pq
    → Until last (send_next (record { pq = pq; sent = sent })).pq
unfolding send_next
Until-next [] sent last us = us
Until-next (e ∷ pq) sent last (u, us) = us

-- A later entry goes to the end.
contents-enqueue :
    (c : Enqueue) (o : Outbox) (last : ℕ)
    → Until last o.pq
    → last < c.send_at
    → is_dropped c ≡ false
    → (contents (enqueue c o) ≡ contents o ++ c.payload ∷ []) × Until c.send_at (enqueue c o).pq
unfolding contents enqueue
contents-enqueue c o last us later kept =
    let e : Entry = record { send_at = c.send_at; payload = c.payload } in
    let at_end = heappush-last e o.pq (Until-before o.pq last c.send_at later us) in
    rw (kept, at_end)
      (
        ap (λ t. o.sent ++ t) (map-append (λ (f : Entry). f.payload) o.pq (e ∷ []))
            ∙ sym (append_assoc o.sent (payloads o.pq) (c.payload ∷ [])),
        All-append _ o.pq (e ∷ []) (Until-later o.pq last c.send_at later us) (omega arith, tt),
      )

enqueue_dropped : (c : Enqueue) (o : Outbox) → is_dropped c ≡ true → enqueue c o ≡ o
unfolding enqueue
enqueue_dropped c o d = rw d refl

-- The queue keeps the order of the calls.
contents-run :
    (ms : List OutboxMove) (o : Outbox) (last : ℕ)
    → Until last o.pq
    → IsIncreasing last (calls_of ms)
    → contents (outbox_run ms o) ≡ contents o ++ accepted (calls_of ms)
unfolding outbox_run outbox_step calls_of accepted
contents-run [] o last us inc = sym (append-nil (contents o))
contents-run (sends ∷ ms) o last us inc =
    contents-run ms (send_next o) last (Until-next o.pq o.sent last us) inc
    ∙ ap (λ t. t ++ accepted (calls_of ms)) (contents-send_next o)
contents-run (called c ∷ ms) o last us (later, inc) = elim (Bool-cases (is_dropped c)) [
  | inl d ↦ rw d (
      ap (λ o'. contents (outbox_run ms o')) (enqueue_dropped c o d)
      ∙ contents-run ms o last us (rw d at inc))
  | inr k ↦
      let (added, us') = contents-enqueue c o last us (later k) k in
      rw k (
        contents-run ms (enqueue c o) c.send_at us' (rw k at inc)
        ∙ ap (λ t. t ++ accepted (calls_of ms)) added
        ∙ append_assoc (contents o) (c.payload ∷ []) (accepted (calls_of ms)))
]

drains :
    (n : ℕ) (pq : List Entry) (sent : List Bytes)
    → length pq ≤ n
    → (drain_rounds n (record { pq = pq; sent = sent })).sent ≡ sent ++ payloads pq
unfolding drain_rounds send_next
drains zero [] sent h = sym (append-nil sent)
drains zero (e ∷ pq) sent h = absurd (omega arith)
drains (suc n) [] sent h = drains n [] sent (omega arith)
drains (suc n) (e ∷ pq) sent h =
    drains n pq (sent ++ e.payload ∷ []) (omega arith)
    ∙ append_assoc sent (e.payload ∷ []) (payloads pq)

-- After any moves of the sender and of `run`, and the rounds after `close`: the outbox has sent all payloads
-- that were not dropped, in the order of the calls, if each is to be sent later than those before it.
pub sent_in_order :
    (ms : List OutboxMove)
    → IsIncreasing 0 (calls_of ms)
    → (drain (outbox_run ms new_outbox)).sent ≡ accepted (calls_of ms)
unfolding drain contents
sent_in_order ms inc =
    let o = outbox_run ms new_outbox in
    drains (length o.pq) o.pq o.sent (omega arith) ∙ contents-run ms new_outbox 0 tt inc
