-- ===== src/Daemon/Loops.antt =====
-- The loops of `main` in daemon/src/main.cpp around its handlers: the UDP loop and the monitor thread, each
-- of which tests `g_running` before a round.
use quic_keys.Common.{
  ℕ, Bool, List, [], ◌∷◌, ◌++◌, Option, none, some, ◌≡◌, refl, Bytes, take, if◌then◌else◌,
  Bool-cases, inl, inr,
}
use quic_keys.HidSocket.{Kernel}
use quic_keys.Daemon.{
  Config, Daemon, Outcome, Event, udp, monitor, unchanged, handle_udp, watchdog_round, step, run,
}

-- What one handler left, and what those after it leave.
followed_by : Outcome → Outcome → Outcome
followed_by first rest = record {
  daemon = rest.daemon;
  lines = first.lines ++ rest.lines;
  calls = first.calls ++ rest.calls;
}

-- A round of the UDP loop: what `g_running` holds, and what `receive_from` gives, nothing where it sets
-- `ec`.
pub record Reception : Type 0 where
  pub running : Bool
  pub datagram : Option Bytes
  pub os : Kernel
  pub os' : Kernel
  pub now_ns : ℕ
  pub now : ℕ

-- `buf` has 1024 bytes; what does not fit is cut off.
pub received : Bytes → Bytes
received datagram = take 1024 datagram

pub udp_loop : Config → List Reception → Daemon → Outcome
udp_loop c [] d = unchanged d
udp_loop c (r ∷ rs) d =
    let skipped = udp_loop c rs d in
    let handled : Outcome = elim r.datagram [
      | none ↦ skipped
      | some datagram ↦
          let o = handle_udp c r.os r.os' r.now_ns r.now (received datagram) d in
          followed_by o (udp_loop c rs o.daemon)
    ] in
    if r.running then handled else unchanged d

-- A round of the monitor thread, after its sleep of 10 ms.
pub record Tick : Type 0 where
  pub running : Bool
  pub os : Kernel
  pub now_ns : ℕ

pub monitor_loop : Config → List Tick → Daemon → Outcome
monitor_loop c [] d = unchanged d
monitor_loop c (t ∷ ts) d =
    let o = watchdog_round c t.os t.now_ns d in
    let rest = monitor_loop c ts o.daemon in if t.running then followed_by o rest else unchanged d

-- The datagrams that the loop handles: those before it stops, without the failed receptions.
pub udp_events : List Reception → List Event
udp_events [] = []
udp_events (r ∷ rs) =
    let rest = udp_events rs in
    let handled : List Event = elim r.datagram [
      | none ↦ rest
      | some datagram ↦ udp r.os r.os' r.now_ns r.now (received datagram) ∷ rest
    ] in
    if r.running then handled else []

pub monitor_events : List Tick → List Event
monitor_events [] = []
monitor_events (t ∷ ts) =
    let rest = monitor_events ts in if t.running then monitor t.os t.now_ns ∷ rest else []

-- The UDP loop is the run of its datagrams.
pub udp_loop-run :
    (c : Config) (rs : List Reception) (d : Daemon)
    → (udp_loop c rs d).daemon ≡ run c (udp_events rs) d
unfolding udp_loop udp_events run step followed_by
udp_loop-run c [] d = refl
udp_loop-run c (r ∷ rs) d = by_datagram (λ d'. udp_loop-run c rs d') r.datagram refl
  where
    by_datagram :
        ((d' : Daemon) → (udp_loop c rs d').daemon ≡ run c (udp_events rs) d')
        → (o : Option Bytes) → r.datagram ≡ o
        → (udp_loop c (r ∷ rs) d).daemon ≡ run c (udp_events (r ∷ rs)) d
    by_datagram later none e = elim (Bool-cases r.running) [
      | inl on ↦ rw (on, e) (later d)
      | inr off ↦ rw off refl
    ]
    by_datagram later (some datagram) e = elim (Bool-cases r.running) [
      | inl on ↦
          rw (on, e) (later (handle_udp c r.os r.os' r.now_ns r.now (received datagram) d).daemon)
      | inr off ↦ rw off refl
    ]

-- The monitor thread is the run of its rounds.
pub monitor_loop-run :
    (c : Config) (ts : List Tick) (d : Daemon)
    → (monitor_loop c ts d).daemon ≡ run c (monitor_events ts) d
unfolding monitor_loop monitor_events run step followed_by
monitor_loop-run c [] d = refl
monitor_loop-run c (t ∷ ts) d = elim (Bool-cases t.running) [
  | inl e ↦ rw e (monitor_loop-run c ts (watchdog_round c t.os t.now_ns d).daemon)
  | inr e ↦ rw e refl
]
