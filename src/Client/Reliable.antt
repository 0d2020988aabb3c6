-- ===== src/Client/Reliable.antt =====
-- The edges of client/baselines_quic_only.py in the stream and the edge callback of daemon/src/main.cpp.
use quic_keys.Common.{
  Bool, ℕ, ◌+◌, ◌/◌, ◌^◌, ◌<◌, ◌≤◌, true, false, ◌||◌, List, [], ◌∷◌, length, map, ◌≡◌, refl, ap,
  ◌∙◌, sym, arith, Bytes, All, Bool-cases, inl, inr, codes, ◌==◌, if◌then◌else◌, same_bytes,
  if_keeps,
}
use quic_keys.Common.Int.{pos}
use quic_keys.KeySet.{mem}
use quic_keys.HidSocket.{Kernel}
use quic_keys.Keyboard.{edge_set, quic_edge}
use quic_keys.Keyboard.Edges.{mem-edge_set}
use quic_keys.Stream.{Receiver, receive_all}
use quic_keys.Stream.Framing.{concat, bytes_of, receive_all-deliver, deliver-concat}
use quic_keys.Daemon.{Config, Daemon, Event, edge_message, step, run}
use quic_keys.Daemon.Edges.{build_edge_record, edge_record_applied}
use quic_keys.Client.Held.{hid_usage, held_after, none_held, usage_of_script-hid_usage}
use quic_keys.Client.Scripts.{usage_of_script, Turn, edge_sender}

-- `quicEdgeServer.start(…, /*record_size*/16)` with the edge callback
abbrev pub edge_receiver : Receiver
edge_receiver = record { has_callback = true; record_size = 16 }

-- What the turns do that are neither lost nor of an unknown key: a press or a release each.
typed_keys : List Turn → List ℕ → List ℕ
typed_keys [] held = held
typed_keys (t ∷ ts) held =
    let usage = usage_of_script t.event.key in
    if t.lost || usage == 0
    then typed_keys ts held
    else typed_keys ts (edge_set usage (same_bytes t.event.cmd (codes "down")) held)

-- The changes that the turns stand for.
unfoldable pub changes_of_turns : List Turn → List (ℕ × Bool)
changes_of_turns [] = []
changes_of_turns (t ∷ ts) =
    let rest = changes_of_turns ts in
    if t.lost then rest else (hid_usage t.event.key, same_bytes t.event.cmd (codes "down")) ∷ rest

typed_keys-held :
    (ts : List Turn) (held : List ℕ) (f : ℕ → Bool)
    → ((j : ℕ) → mem j held ≡ f j)
    → (u : ℕ) → mem u (typed_keys ts held) ≡ held_after (changes_of_turns ts) f u
unfolding typed_keys changes_of_turns held_after
typed_keys-held [] held f same u = same u
typed_keys-held (t ∷ ts) held f same u =
    let usage = hid_usage t.event.key in
    let down = same_bytes t.event.cmd (codes "down") in
    let known = usage_of_script-hid_usage t.event.key in
    elim (Bool-cases t.lost) [
      | inl l ↦ rw l (typed_keys-held ts held f same u)
      | inr l ↦ elim (Bool-cases (usage == 0)) [
        | inl z ↦ rw (l, known, z) (typed_keys-held ts held _ (λ j. ground (arith, same j, z)) u)
        | inr k ↦
            rw (l, known, k)
              (typed_keys-held ts (edge_set usage down held) _
                (λ j. mem-edge_set j usage down held ∙ ground (arith, same j, k)) u)
      ]
    ]

sender-sizes : (seq : ℕ) (ts : List Turn) → All (λ m. length m ≡ 16) (edge_sender seq ts)
unfolding edge_sender build_edge_record
sender-sizes seq [] = tt
sender-sizes seq (t ∷ ts) =
    if_keeps (All (λ m. length m ≡ 16)) t.lost _ _ (sender-sizes (seq + 1) ts) (
      if_keeps (All (λ m. length m ≡ 16)) (usage_of_script t.event.key == 0) _ _
        (sender-sizes (seq + 1) ts) (omega arith, sender-sizes (seq + 1) ts))

usage_of_script-range : (key : Bytes) → usage_of_script key < 256
unfolding usage_of_script
usage_of_script-range [] = omega arith
usage_of_script-range (c ∷ []) = ground arith
usage_of_script-range (c ∷ d ∷ key) = ground arith

-- A turn with what its record meets at the daemon: the answers of the operating system and the clock.
pub record Sent : Type 0 where
  pub turn : Turn
  pub os : Kernel
  pub now_ns : ℕ

abbrev pub turns : List Sent → List Turn
turns ss = map (λ (s : Sent). s.turn) ss

-- The calls of the edge callback for the messages, one for each turn that wrote a record.
pub edge_arrivals : List Sent → List Bytes → List Event
edge_arrivals [] ms = []
edge_arrivals (s ∷ ss) [] = []
edge_arrivals (s ∷ ss) (m ∷ ms) =
    let skipped = edge_arrivals ss (m ∷ ms) in
    let met = edge_message s.os s.now_ns m ∷ edge_arrivals ss ms in
    if s.turn.lost || usage_of_script s.turn.event.key == 0 then skipped else met

-- Records of a 64-bit time that are not older than the limit.
abbrev pub AllRecent : ℕ → List Sent → Type 0
AllRecent limit =
    All (λ (s : Sent). (s.turn.t_ms < 2 ^ 64) × (s.now_ns / 1000000 ≤ s.turn.t_ms + limit))

no_arrivals : (ss : List Sent) → edge_arrivals ss [] ≡ []
unfolding edge_arrivals
no_arrivals [] = refl
no_arrivals (s ∷ ss) = refl

-- A turn that writes no record meets nothing.
arrivals_skip :
    (s : Sent) (ss : List Sent) (ms : List Bytes)
    → (s.turn.lost || usage_of_script s.turn.event.key == 0) ≡ true
    → edge_arrivals (s ∷ ss) ms ≡ edge_arrivals ss ms
unfolding edge_arrivals
arrivals_skip s ss [] h = sym (no_arrivals ss)
arrivals_skip s ss (m ∷ ms) h = rw h refl

sender_skip :
    (seq : ℕ) (t : Turn) (ts : List Turn)
    → (t.lost || usage_of_script t.event.key == 0) ≡ true
    → edge_sender seq (t ∷ ts) ≡ edge_sender (seq + 1) ts
unfolding edge_sender
sender_skip seq t ts h = ground (arith, h)

sender_writes :
    (seq : ℕ) (t : Turn) (ts : List Turn)
    → (t.lost || usage_of_script t.event.key == 0) ≡ false
    → edge_sender seq (t ∷ ts)
      ≡ build_edge_record seq t.t_ms
          (usage_of_script t.event.key)
          (same_bytes t.event.cmd (codes "down"))
        ∷ edge_sender (seq + 1) ts
unfolding edge_sender
sender_writes seq t ts h = ground (arith, h)

module _ (c : Config) (limit : ℕ) (deadline : c.deadline_ms ≡ pos limit) where
  -- One record sets the key of its turn.
  record-mem :
      (seq : ℕ) (s : Sent) (d : Daemon) (held : List ℕ)
      → (s.turn.t_ms < 2 ^ 64) × (s.now_ns / 1000000 ≤ s.turn.t_ms + limit)
      → ((u : ℕ) → mem u d.keyboard.pressed ≡ mem u held)
      → let usage = usage_of_script s.turn.event.key in
        let down = same_bytes s.turn.event.cmd (codes "down") in
        (u : ℕ)
        → mem u
            (step c
              (edge_message s.os s.now_ns (build_edge_record seq s.turn.t_ms usage down))
              d).daemon.keyboard.pressed
          ≡ mem u (edge_set usage down held)
  unfolding step quic_edge
  record-mem seq s d held (time, recent) same u =
      let usage = usage_of_script s.turn.event.key in
      let down = same_bytes s.turn.event.cmd (codes "down") in
      let range = usage_of_script-range s.turn.event.key in
      let flag : ((if down then 1 else 0) == 1) ≡ down = ground arith in
      rw
        (
          edge_record_applied c s.os s.now_ns seq s.turn.t_ms usage down d limit deadline time range
              recent,
          flag,
        )
        (mem-edge_set u usage down d.keyboard.pressed
          ∙ rw (same u) (sym (mem-edge_set u usage down held)))

  edges-mem :
      (seq : ℕ) (ss : List Sent) (d : Daemon) (held : List ℕ)
      → AllRecent limit ss
      → ((u : ℕ) → mem u d.keyboard.pressed ≡ mem u held)
      → (u : ℕ)
      → mem u (run c (edge_arrivals ss (edge_sender seq (turns ss))) d).keyboard.pressed
        ≡ mem u (typed_keys (turns ss) held)
  unfolding run typed_keys edge_arrivals
  edges-mem seq [] d held h same u = same u
  edges-mem seq (s ∷ ss) d held (h, hs) same u =
      elim (Bool-cases (s.turn.lost || usage_of_script s.turn.event.key == 0)) [
        | inl e ↦
            rw
              (
                sender_skip seq s.turn (turns ss) e,
                arrivals_skip s ss (edge_sender (seq + 1) (turns ss)) e,
                e,
              )
              (edges-mem (seq + 1) ss d held hs same u)
        | inr e ↦
            let usage = usage_of_script s.turn.event.key in
            let down = same_bytes s.turn.event.cmd (codes "down") in
            rw (sender_writes seq s.turn (turns ss) e, e)
              (edges-mem (seq + 1) ss _ (edge_set usage down held) hs
                (record-mem seq s d held h same) u)
      ]

  messages-mem :
      (ss : List Sent) (events : List (List Bytes)) (d : Daemon)
      → AllRecent limit ss
      → d.keyboard.pressed ≡ []
      → bytes_of events ≡ concat (edge_sender 0 (turns ss))
      → (u : ℕ)
      → mem u
          (run c
            (edge_arrivals ss (receive_all edge_receiver events []).messages)
            d).keyboard.pressed
        ≡ mem u (typed_keys (turns ss) [])
  messages-mem ss events d h none_held same u =
      let cut : receive_all edge_receiver events []
          ≡ record { messages = edge_sender 0 (turns ss); pending = [] } =
        receive_all-deliver 16 events [] (omega arith) (omega arith)
        ∙ rw same (
            deliver-concat 16 (edge_sender 0 (turns ss)) (omega arith)
              (sender-sizes 0 (turns ss))) in
      rw cut (edges-mem 0 ss d [] h (λ u'. ap (mem u') none_held) u)

  -- The reliable path from end to end: whatever turns are lost, if the bytes of the records written reach
  -- `stream_cb`, in any pieces, no record is older than the deadline when its callback runs, and the daemon,
  -- which holds no key at first, handles just these records in between (no snapshot, no datagram, no monitor
  -- round), then it holds exactly the keys of the turns that were not lost: each turn presses the key that the
  -- HID usage tables give to its letter, or to Enter, if its command is "down", and releases it otherwise; any other key
  -- changes nothing.
  pub edge_sender-mem :
      (ss : List Sent) (events : List (List Bytes)) (d : Daemon)
      → AllRecent limit ss
      → d.keyboard.pressed ≡ []
      → bytes_of events ≡ concat (edge_sender 0 (turns ss))
      → (u : ℕ)
      → mem u
          (run c
            (edge_arrivals ss (receive_all edge_receiver events []).messages)
            d).keyboard.pressed
        ≡ held_after (changes_of_turns (turns ss)) none_held u
  unfolding mem
  edge_sender-mem ss events d h none_down same u =
      messages-mem ss events d h none_down same u
      ∙ typed_keys-held (turns ss) [] none_held (λ j. refl) u
