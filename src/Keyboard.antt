-- ===== src/Keyboard.antt =====
-- The state that `state_mu` guards in `main` of daemon/src/main.cpp (`pressed`, `modifiers`,
-- `keymeta`), and the critical sections of the handlers over it, each as one function.
pub mod Snapshots
pub mod Watchdog
pub mod Lines
pub mod Edges
pub mod Invariant
pub mod Spec
pub mod Age
use quic_keys.Common.{
  ℕ, ◌+◌, ◌-◌, ◌*◌, ◌%◌, ◌^◌, Bool, true, false, not, ◌&&◌, ◌||◌, List, [], ◌∷◌, ◌++◌, Option, none,
  some, ltb, ◌==◌, if◌then◌else◌, u64_mod, sub64,
}
use quic_keys.Common.Int.{ℤ, pos_part, is_positive}
use quic_keys.KeySet.{mem, insert, erase}

pub record KeyMeta : Type 0 where
  pub pressed : Bool
  pub last_edge_ns : ℕ
  pub last_snapshot_ns : ℕ
  pub up_marker_ns : Option ℕ
  pub stuck_reported : Bool

-- The value of `keymeta{}` at every key.
abbrev pub fresh_meta : KeyMeta
fresh_meta = record {
  pressed = false;
  last_edge_ns = 0;
  last_snapshot_ns = 0;
  up_marker_ns = none;
  stuck_reported = false;
}

-- `std::array<KeyMeta, 256>` as a function of its index.
abbrev pub KeyTable : Type 0
KeyTable = ℕ → KeyMeta

abbrev pub update : KeyTable → ℕ → KeyMeta → KeyTable
update t u km j = if j == u then km else t j

pub record Keyboard : Type 0 where
  pub pressed : List ℕ
  pub modifiers : ℕ
  pub keymeta : KeyTable

-- What the handlers write to std::cerr whatever the verbosity; ages are kept in nanoseconds, which
-- the source prints as milliseconds.
pub data Log : Type 0 where
  heal : ℕ → ℕ → Log
  stuck : ℕ → ℕ → Log
  watchdog : ℕ → ℕ → Log

unfoldable pub initial : Keyboard
initial = record { pressed = []; modifiers = 0; keymeta = λ u. fresh_meta }

-- `(uint64_t)ms * 1000000ULL`, for an `int` that was tested to be positive
abbrev pub ms_to_ns : ℤ → ℕ
ms_to_ns ms = pos_part ms * 1000000 % u64_mod

-- The locked part of `parse_snapshot`.

-- The body of `for (auto u : pressed)`, for a key that the snapshot does not name.
pub release_meta : KeyMeta → KeyMeta
release_meta km = record km { pressed = false; up_marker_ns = none }

pub heal_log : ℕ → ℕ → Option ℕ → List Log
heal_log u now_ns none = []
heal_log u now_ns (some marker) = heal u (sub64 now_ns marker) ∷ []

release_missing : ℕ → List ℕ → List ℕ → KeyTable → KeyTable × List Log
release_missing now_ns new_pressed [] t = (t, [])
release_missing now_ns new_pressed (u ∷ us) t =
    let missing = not (mem u new_pressed) in
    let t' = if missing then update t u (release_meta (t u)) else t in
    let line = if missing then heal_log u now_ns (t u).up_marker_ns else [] in
    let (t'', lines) = release_missing now_ns new_pressed us t' in (t'', line ++ lines)

-- The loop over the new set.
pub seen_meta : ℕ → KeyMeta → KeyMeta
seen_meta now_ns km = record km { pressed = true; last_snapshot_ns = now_ns }

mark_seen : ℕ → List ℕ → KeyTable → KeyTable
mark_seen now_ns [] t = t
mark_seen now_ns (u ∷ us) t = mark_seen now_ns us (update t u (seen_meta now_ns (t u)))

pub reconcile : ℕ → ℕ → List ℕ → Keyboard → Keyboard × List Log
reconcile now_ns snap_mods new_pressed k =
    let (t, lines) = release_missing now_ns new_pressed k.pressed k.keymeta in
    (
      record {
        pressed = new_pressed;
        modifiers = snap_mods;
        keymeta = mark_seen now_ns new_pressed t;
      },
      lines,
    )

-- The scan of the monitor thread.

-- `args.stuck_ms`, `args.watchdog_ms`
pub record Limits : Type 0 where
  pub stuck_ms : ℤ
  pub watchdog_ms : ℤ

pub is_stuck : Limits → ℕ → KeyMeta → Bool
is_stuck c now_ns km =
    is_positive c.stuck_ms
    && not (km.last_edge_ns == 0)
    && not km.stuck_reported
    && ltb (ms_to_ns c.stuck_ms) (sub64 now_ns km.last_edge_ns)

pub is_expired : Limits → ℕ → KeyMeta → Bool
is_expired c now_ns km =
    is_positive c.watchdog_ms
    && not (km.last_snapshot_ns == 0)
    && ltb (ms_to_ns c.watchdog_ms) (sub64 now_ns km.last_snapshot_ns)

-- `now_ns`, as the thread read it before it took the lock
pub report_stuck : Limits → ℕ → KeyMeta → KeyMeta
report_stuck c now_ns km = if is_stuck c now_ns km then record km { stuck_reported = true } else km

pub stuck_log : Limits → ℕ → ℕ → KeyMeta → List Log
stuck_log c now_ns u km =
    if is_stuck c now_ns km then stuck u (sub64 now_ns km.last_edge_ns) ∷ [] else []

pub watchdog_log : Limits → ℕ → ℕ → KeyMeta → List Log
watchdog_log c now_ns u km =
    if is_expired c now_ns km then watchdog u (sub64 now_ns km.last_snapshot_ns) ∷ [] else []

pub record Scan : Type 0 where
  pub kept : List ℕ
  pub table : KeyTable
  pub changed : Bool
  pub lines : List Log

scan_pressed : Limits → ℕ → List ℕ → KeyTable → Scan
scan_pressed c now_ns [] t = record { kept = []; table = t; changed = false; lines = [] }
scan_pressed c now_ns (u ∷ us) t =
    let km = report_stuck c now_ns (t u) in
    let gone = is_expired c now_ns km in
    let rest = scan_pressed c now_ns us (update t u (if gone then release_meta km else km)) in
    record {
      kept = if gone then rest.kept else u ∷ rest.kept;
      table = rest.table;
      changed = gone || rest.changed;
      lines = stuck_log c now_ns u (t u) ++ watchdog_log c now_ns u km ++ rest.lines;
    }

-- The new state, whether a key was released, and the lines.
pub expire : Limits → ℕ → Keyboard → Keyboard × Bool × List Log
expire c now_ns k =
    let s = scan_pressed c now_ns k.pressed k.keymeta in
    (record k { pressed = s.kept; keymeta = s.table }, s.changed, s.lines)

-- The edges.

-- `km.last_edge_ns = now_ns; if (down) { … } else { … }`
pub edge_meta : ℕ → Bool → KeyMeta → KeyMeta
edge_meta now_ns true km = record km {
  pressed = true;
  last_edge_ns = now_ns;
  stuck_reported = false;
}
edge_meta now_ns false km = record km {
  pressed = false;
  last_edge_ns = now_ns;
  up_marker_ns = none;
  stuck_reported = false;
}

unfoldable pub edge_set : ℕ → Bool → List ℕ → List ℕ
edge_set u true s = insert u s
edge_set u false s = erase u s

-- A "down" or an "up" that arrived by UDP.
unfoldable pub udp_edge : ℕ → ℕ → Bool → Keyboard → Keyboard
udp_edge now_ns u down k = record k {
  pressed = edge_set u down k.pressed;
  keymeta = update k.keymeta u (edge_meta now_ns down (k.keymeta u));
}

-- "mup": only notes when the key went up at the client.
unfoldable pub mark_up : ℕ → ℕ → Keyboard → Keyboard
mark_up t_ns u k = record k {
  keymeta = update k.keymeta u (record (k.keymeta u) { up_marker_ns = some t_ns });
}

-- An edge that arrived by QUIC also carries the modifiers; every `cmd` but 1 is a release.
unfoldable pub quic_edge : ℕ → ℕ → ℕ → ℕ → Keyboard → Keyboard
quic_edge now_ns u cmd mods k =
    let down = cmd == 1 in
    record {
      pressed = edge_set u down k.pressed;
      modifiers = mods;
      keymeta = update k.keymeta u (edge_meta now_ns down (k.keymeta u));
    }

-- The critical sections as one vocabulary. `state_mu` makes any execution of the threads a sequence
-- of them, in any order.
pub data Action : Type 0 where
  edge : ℕ → ℕ → Bool → Action
  marked : ℕ → ℕ → Action
  reliable_edge : ℕ → ℕ → ℕ → ℕ → Action
  snapshot : ℕ → ℕ → List ℕ → Action
  scanned : ℕ → Action

unfoldable pub apply : Limits → Action → Keyboard → Keyboard
apply c (edge now_ns u down) k = udp_edge now_ns u down k
apply c (marked t_ns u) k = mark_up t_ns u k
apply c (reliable_edge now_ns u cmd mods) k = quic_edge now_ns u cmd mods k
apply c (snapshot now_ns snap_mods new_pressed) k = (reconcile now_ns snap_mods new_pressed k).0
apply c (scanned now_ns) k = (expire c now_ns k).0

unfoldable pub run : Limits → List Action → Keyboard → Keyboard
run c [] k = k
run c (a ∷ as') k = run c as' (apply c a k)
