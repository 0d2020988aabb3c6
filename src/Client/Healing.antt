-- ===== src/Client/Healing.antt =====
-- The snapshots of client/hybrid_run.py in the stream and the snapshot callback of daemon/src/main.cpp.
use quic_keys.Common.{
  last_or, last_or-append, ℕ, ◌+◌, ◌/◌, ◌%◌, true, false, ◌&&◌, not, List, [], ◌∷◌, ◌++◌, length,
  ◌≡◌, refl, ap, ◌∙◌, arith, Bytes, All, All-append, Bool-cases, inl, inr, codes, ◌==◌, same_bytes,
  if_keeps,
}
use quic_keys.KeySet.{mem, insert, erase}
use quic_keys.KeySet.Laws.{insert-All, erase-All, All-mem}
use quic_keys.Wire.{byte_at}
use quic_keys.HidSocket.{Kernel}
use quic_keys.Snapshot.{is_keyboard_usage, test_bit}
use quic_keys.Snapshot.RoundTrip.{built_length}
use quic_keys.Stream.{receive_all, Delivery}
use quic_keys.Stream.Framing.{concat, bytes_of, receive_all-deliver, deliver-concat}
use quic_keys.Daemon.{Config, Daemon, Event, snapshot_message, step, run}
use quic_keys.Daemon.Streams.{snapshot_receiver, snapshot_decides, run-append}
use quic_keys.Client.{
  KeyEvent, set_key, usage_for_key, bitmap_from_pressed, press_or_release, state_machine, Round,
  snapshot_round, quic_snapshot_sender,
}
use quic_keys.Client.Outbox.{
  OutboxMove, outbox_run, new_outbox, drain, calls_of, is_dropped, accepted, IsIncreasing,
  sent_in_order,
}
use quic_keys.Client.Bitmap.{test_bit-bitmap, length-bitmap}
use quic_keys.Client.Keys.{usage_for_key-range}

abbrev pub AllKeyboard : List ℕ → Type 0
AllKeyboard = All (λ u. is_keyboard_usage u ≡ true)

press_or_release-All :
    (e : KeyEvent) (p : List ℕ) → AllKeyboard p → AllKeyboard (press_or_release e p)
unfolding press_or_release set_key
press_or_release-All e p h =
    let u = usage_for_key e.key in
    elim (Bool-cases (u == 0)) [
      | inl z ↦ rw z (ground (arith, h))
      | inr k ↦
          let known : is_keyboard_usage u ≡ true = usage_for_key-range e.key (ground (arith, k)) in
          if_keeps AllKeyboard (same_bytes e.cmd (codes "down") && not (u == 0)) (insert u p) _
            (insert-All (λ u. is_keyboard_usage u ≡ true) u p known h)
            (if_keeps AllKeyboard (same_bytes e.cmd (codes "up") && not (u == 0)) (erase u p) p
              (erase-All (λ u. is_keyboard_usage u ≡ true) u p h) h)
    ]

pub state_machine-All :
    (es : List KeyEvent) (p : List ℕ) → AllKeyboard p → AllKeyboard (state_machine es p)
unfolding state_machine
state_machine-All [] p h = h
state_machine-All (e ∷ es) p h =
    state_machine-All es (press_or_release e p) (press_or_release-All e p h)

-- Every usage of the set is named by its bitmap, and no other usage of the daemon's range.
named-mem :
    (p : List ℕ) (u : ℕ)
    → AllKeyboard p
    → (is_keyboard_usage u && test_bit (byte_at (bitmap_from_pressed p) (u / 8)) (u % 8)) ≡ mem u p
named-mem p u h = elim (Bool-cases (is_keyboard_usage u)) [
  | inl e ↦ rw e (test_bit-bitmap p u (ground (arith, e)))
  | inr e ↦ elim (Bool-cases (mem u p)) [
    | inl m ↦ absurd (ground (arith, e, All-mem (λ u. is_keyboard_usage u ≡ true) u p h m))
    | inr m ↦ rw (e, m) refl
  ]
]

pub length-round : (seq : ℕ) (r : Round) → length (snapshot_round seq r) ≡ 52
unfolding snapshot_round
length-round seq r =
    built_length 0 1 seq r.t_ms (bitmap_from_pressed r.pressed)
    ∙ omega (arith, length-bitmap r.pressed)

sender-sizes :
    (seq : ℕ) (rs : List Round) → All (λ m. length m ≡ 52) (accepted (quic_snapshot_sender seq rs))
unfolding quic_snapshot_sender accepted is_dropped
sender-sizes seq [] = tt
sender-sizes seq (r ∷ rs) =
    if_keeps (All (λ m. length m ≡ 52)) r.lost _ _ (sender-sizes (seq + 1) rs)
      (length-round seq r, sender-sizes (seq + 1) rs)

-- The rounds before the last are numbered first.
sender-append :
    (seq : ℕ) (rs rs' : List Round)
    → accepted (quic_snapshot_sender seq (rs ++ rs'))
      ≡ accepted (quic_snapshot_sender seq rs)
        ++ accepted (quic_snapshot_sender (length rs + seq) rs')
unfolding quic_snapshot_sender accepted is_dropped snapshot_round
sender-append seq [] rs' = let none_before : 0 + seq ≡ seq = omega arith in rw none_before refl
sender-append seq (r ∷ rs) rs' =
    let one_more : length rs + (seq + 1) ≡ length (r ∷ rs) + seq = omega arith in
    let rest = sender-append (seq + 1) rs rs' in
    elim (Bool-cases r.lost) [
      | inl l ↦ rw l (rest ∙ rw one_more refl)
      | inr l ↦ rw l (ap (λ t. snapshot_round seq r ∷ t) (rest ∙ rw one_more refl))
    ]

-- The messages that the callback gets: that of the last round at the end.
sender-records :
    (rounds : List Round) (last : Round) (moves : List OutboxMove) (events : List (List Bytes))
    → last.lost ≡ false
    → calls_of moves ≡ quic_snapshot_sender 0 (rounds ++ last ∷ [])
    → IsIncreasing 0 (quic_snapshot_sender 0 (rounds ++ last ∷ []))
    → bytes_of events ≡ concat (drain (outbox_run moves new_outbox)).sent
    → (receive_all snapshot_receiver events []).messages
      ≡ accepted (quic_snapshot_sender 0 rounds) ++ snapshot_round (length rounds + 0) last ∷ []
unfolding quic_snapshot_sender accepted is_dropped
sender-records rounds last moves events kept calls inc same =
    let before = accepted (quic_snapshot_sender 0 rounds) in
    let message = snapshot_round (length rounds + 0) last in
    let sent =
      sent_in_order moves (rw calls inc) ∙ ap accepted calls ∙ sender-append 0 rounds (last ∷ []) in
    let single : accepted (quic_snapshot_sender (length rounds + 0) (last ∷ [])) ≡ message ∷ [] =
      rw kept refl in
    let stream : bytes_of events ≡ concat (before ++ message ∷ []) =
      same ∙ ap concat (sent ∙ ap (λ t. before ++ t) single) in
    let cut : receive_all snapshot_receiver events []
        ≡ record { messages = before ++ message ∷ []; pending = [] } =
      receive_all-deliver 52 events [] (omega arith) (omega arith)
      ∙ rw stream (
          deliver-concat 52 (before ++ message ∷ []) (omega arith) (
            All-append _ before (message ∷ []) (sender-sizes 0 rounds)
              (length-round (length rounds + 0) last, tt))) in
    ap (λ (r : Delivery). r.messages) cut

-- The last of the messages is that of the last round.
pub last_or-records :
    (rounds : List Round) (last : Round) (moves : List OutboxMove) (events : List (List Bytes))
    → last.lost ≡ false
    → calls_of moves ≡ quic_snapshot_sender 0 (rounds ++ last ∷ [])
    → IsIncreasing 0 (quic_snapshot_sender 0 (rounds ++ last ∷ []))
    → bytes_of events ≡ concat (drain (outbox_run moves new_outbox)).sent
    → last_or (receive_all snapshot_receiver events []).messages []
      ≡ snapshot_round (length rounds + 0) last
last_or-records rounds last moves events kept calls inc same =
    ap (λ ms. last_or ms []) (sender-records rounds last moves events kept calls inc same)
    ∙ last_or-append (accepted (quic_snapshot_sender 0 rounds))
        (snapshot_round (length rounds + 0) last) []

-- The snapshot path from end to end. Suppose that each snapshot is to be sent later than those before it, that
-- the last of them is of the client's keys after any events and is not lost, and that the bytes that the outbox
-- sends reach `stream_cb`, in any pieces; other snapshots may be lost, and the rounds and those of the outbox
-- take turns in any way. Whatever state the daemon starts in and whatever events it handles before the last
-- message of the stream (other snapshots, edges, monitor rounds, at any readings of the clock): right after it
-- handled that message, it holds exactly the keys that the client's state machine holds, and no modifiers.
pub sender_heals :
    (c : Config) (os : Kernel) (now_ns t_ms send_at : ℕ) (rounds : List Round) (es : List KeyEvent)
    (moves : List OutboxMove) (events : List (List Bytes)) (earlier : List Event) (d : Daemon)
    → let last : Round = record {
      pressed = state_machine es [];
      t_ms = t_ms;
      lost = false;
      send_at = send_at;
    } in
      calls_of moves ≡ quic_snapshot_sender 0 (rounds ++ last ∷ [])
      → IsIncreasing 0 (quic_snapshot_sender 0 (rounds ++ last ∷ []))
      → bytes_of events ≡ concat (drain (outbox_run moves new_outbox)).sent
      → let message = last_or (receive_all snapshot_receiver events []).messages [] in
        let k = (run c (earlier ++ snapshot_message os now_ns message ∷ []) d).keyboard in
        ((u : ℕ) → mem u k.pressed ≡ mem u (state_machine es [])) × (k.modifiers ≡ 0)
unfolding snapshot_round run step
sender_heals c os now_ns t_ms send_at rounds es moves events earlier d calls inc same =
    let p = state_machine es [] in
    let last : Round = record { pressed = p; t_ms = t_ms; lost = false; send_at = send_at } in
    let message = last_or-records rounds last moves events refl calls inc same in
    let (keys, mods) =
      snapshot_decides os now_ns 0 1 (length rounds + 0) t_ms (bitmap_from_pressed p)
        (run c earlier d) (omega arith) (omega arith) (length-bitmap p) in
    let runs =
      run-append c earlier
        (snapshot_message os now_ns (snapshot_round (length rounds + 0) last) ∷ []) d in
    rw message (rw runs ((λ u. keys u ∙ named-mem p u (state_machine-All es [] tt), mods)))
