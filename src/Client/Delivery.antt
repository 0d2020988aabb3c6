-- ===== src/Client/Delivery.antt =====
-- The edges of client/hybrid_run.py in the UDP loop of daemon/src/main.cpp.
use quic_keys.Common.{
  ℕ, ◌+◌, ◌*◌, ◌^◌, ◌≤◌, ◌<◌, not, ◌&&◌, List, [], ◌∷◌, Option, map, ◌≡◌, refl, ap, ◌∙◌, arith,
  Bytes, if◌then◌else◌, u64_mod,
}
use quic_keys.Common.Int.{pos}
use quic_keys.KeySet.{mem}
use quic_keys.HidSocket.{Kernel}
use quic_keys.Udp.{Datagram}
use quic_keys.Udp.Messages.{build_edge_msg, parse_datagram-build}
use quic_keys.Daemon.{Config, Daemon, Event, udp, step, run, stamp}
use quic_keys.Client.{press_or_release, state_machine, Trip, is_withheld, udp_sender}
use quic_keys.Client.Outbox.{
  OutboxMove, outbox_run, new_outbox, drain, calls_of, is_dropped, accepted, IsIncreasing,
  sent_in_order,
}
use quic_keys.Client.Edges.{IsKeyEvent, key-IsToken, cmd-IsToken, key-usage, datagram-mem}

-- The trips that lead to the outbox.
unfoldable pub passing : Option Bytes → List Trip → List Trip
passing drop_keyup_for [] = []
passing drop_keyup_for (t ∷ ts) =
    let rest = passing drop_keyup_for ts in
    if is_withheld drop_keyup_for t.event
    then rest
    else if not t.event.is_marker && t.lost
    then rest
    else t ∷ rest

abbrev payload : Trip → Bytes
payload t = build_edge_msg t.event.cmd t.event.key t.t_ns

udp_sender-passing :
    (drop_keyup_for : Option Bytes) (ts : List Trip)
    → accepted (udp_sender drop_keyup_for ts) ≡ map payload (passing drop_keyup_for ts)
unfolding udp_sender passing accepted is_dropped
udp_sender-passing dk [] = refl
udp_sender-passing dk (t ∷ ts) = ground (arith, udp_sender-passing dk ts)

-- How a datagram is met: the answers of the operating system and the clock readings.
pub record Meeting : Type 0 where
  pub os : Kernel
  pub os' : Kernel
  pub now_ns : ℕ
  pub now : ℕ

-- The datagrams in their order, each with its meeting.
unfoldable pub arrivals : List Meeting → List Bytes → List Event
arrivals (m ∷ ms) (p ∷ ps) = udp m.os m.os' m.now_ns m.now p ∷ arrivals ms ps
arrivals _ _ = []

-- A datagram that arrives no earlier than it was stamped and at most `limit` milliseconds later.
pub record IsOnTime (limit : ℕ) (m : Meeting) (t : Trip) : Type 0 where
  pub stamped : 0 < t.t_ns
  pub past : t.t_ns ≤ m.now_ns
  pub recent : m.now_ns ≤ t.t_ns + limit * 1000000
  pub range : m.now_ns < u64_mod
  pub event : IsKeyEvent t.event

abbrev pub AllOnTime : ℕ → List Meeting → List Trip → Type 0
AllOnTime limit [] [] = Unit {0}
AllOnTime limit (m ∷ ms) (t ∷ ts) = IsOnTime limit m t × AllOnTime limit ms ts
AllOnTime limit _ _ = ⊥

module _ (c : Config) (limit : ℕ) (deadline : c.deadline_ms ≡ pos limit)
    (small : limit < 2 ^ 31) where
  -- One datagram does to the keys held what the event does to the client's set.
  arrival-mem :
      (m : Meeting) (t : Trip) (d : Daemon) (p : List ℕ)
      → IsOnTime limit m t
      → ((u : ℕ) → mem u d.keyboard.pressed ≡ mem u p)
      → (u : ℕ)
      → mem u (step c (udp m.os m.os' m.now_ns m.now (payload t)) d).daemon.keyboard.pressed
        ≡ mem u (press_or_release t.event p)
  unfolding stamp press_or_release
  arrival-mem m t d p h same u =
      let read : Datagram = record { t_ns = t.t_ns; cmd = t.event.cmd; key = t.event.key } in
      let parsed =
        parse_datagram-build t.event.cmd t.event.key t.t_ns (cmd-IsToken t.event h.event)
          (rw h.event.named (key-IsToken h.event.ch h.event.known h.event.typed))
          (omega (arith, h.past, h.range)) in
      let stamped : stamp m.now_ns read ≡ t.t_ns = ground (arith, h.stamped) in
      datagram-mem c limit deadline small m.os m.os' m.now_ns m.now (payload t) read d p
        h.event.command parsed h.range (rw stamped h.past) (rw stamped h.recent) same u
      ∙ rw (key-usage t.event h.event) refl

  arrivals-mem :
      (ms : List Meeting) (ts : List Trip) (d : Daemon) (p : List ℕ)
      → AllOnTime limit ms ts
      → ((u : ℕ) → mem u d.keyboard.pressed ≡ mem u p)
      → (u : ℕ)
      → mem u (run c (arrivals ms (map payload ts)) d).keyboard.pressed
        ≡ mem u (state_machine (map (λ (t : Trip). t.event) ts) p)
  unfolding arrivals run state_machine
  arrivals-mem [] [] d p h same u = same u
  arrivals-mem [] (t ∷ ts) d p h same u = elim h [ ]
  arrivals-mem (m ∷ ms) [] d p h same u = elim h [ ]
  arrivals-mem (m ∷ ms) (t ∷ ts) d p (h, hs) same u =
      arrivals-mem ms ts _ (press_or_release t.event p) hs (arrival-mem m t d p h same) u

  -- The UDP path from end to end: whatever edges the client withholds or loses, and however its sender and
  -- the rounds of its outbox take turns, if each datagram is to be sent later than those before it, and they
  -- come in the order in which they are sent, each no earlier than its stamp and no later than the deadline
  -- after it, to a daemon that holds no key at first and handles nothing else in between, no snapshot, no
  -- record of an edge and no monitor round (which could release a key that is pressed): then the daemon holds
  -- exactly the keys that the client's own state machine holds after the events that were sent. The events are
  -- those of keys that are known, but for the blank.
  pub udp_sender-mem :
      (drop_keyup_for : Option Bytes) (moves : List OutboxMove) (ms : List Meeting) (ts : List Trip)
      (d : Daemon)
      → calls_of moves ≡ udp_sender drop_keyup_for ts
      → IsIncreasing 0 (udp_sender drop_keyup_for ts)
      → AllOnTime limit ms (passing drop_keyup_for ts)
      → d.keyboard.pressed ≡ []
      → (u : ℕ)
      → mem u (run c (arrivals ms (drain (outbox_run moves new_outbox)).sent) d).keyboard.pressed
        ≡ mem u (state_machine (map (λ (t : Trip). t.event) (passing drop_keyup_for ts)) [])
  udp_sender-mem dk moves ms ts d calls inc h none_held u =
      let sent =
        sent_in_order moves (rw calls inc) ∙ ap accepted calls ∙ udp_sender-passing dk ts in
      rw sent (arrivals-mem ms (passing dk ts) d [] h (λ u'. ap (mem u') none_held) u)
