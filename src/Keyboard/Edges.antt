-- ===== src/Keyboard/Edges.antt =====
-- What an edge leaves of the set and of a key's record, and a stale snapshot's effect on a new press.
use quic_keys.Common.{
  ℕ, ◌+◌, ◌*◌, ◌^◌, ◌<◌, Bool, true, false, ◌≡◌, arith, ◌==◌, if◌then◌else◌, u64_mod, List,
}
use quic_keys.Common.Int.{pos}
use quic_keys.KeySet.{mem, Distinct}
use quic_keys.KeySet.Laws.{mem-insert, mem-erase, insert-Distinct}
use quic_keys.Keyboard.{Keyboard, Limits, edge_set, udp_edge, expire, is_expired, edge_meta}
use quic_keys.Keyboard.Watchdog.{mem-expire}

pub mem-edge_set :
    (j u : ℕ) (down : Bool) (s : List ℕ)
    → mem j (edge_set u down s) ≡ (if j == u then down else mem j s)
unfolding edge_set
mem-edge_set j u true s = ground (arith, mem-insert j u s)
mem-edge_set j u false s = ground (arith, mem-erase j u s)

-- With the watchdog on, a key that was last named by a snapshot more than `watchdog_ms` before the
-- monitor's scan is released by that scan, even if it was pressed again at any time in between: a
-- press does not renew what the watchdog tests.
pub press-expire_drops :
    (c : Limits) (k : Keyboard) (u ms pressed_ns now_ns : ℕ)
    → Distinct k.pressed
    → c.watchdog_ms ≡ pos ms
    → 0 < ms
    → ms < 2 ^ 31
    → 0 < (k.keymeta u).last_snapshot_ns
    → (k.keymeta u).last_snapshot_ns + ms * 1000000 < now_ns
    → now_ns < u64_mod
    → (mem u (udp_edge pressed_ns u true k).pressed ≡ true)
      × (mem u (expire c now_ns (udp_edge pressed_ns u true k)).0.pressed ≡ false)
unfolding udp_edge is_expired edge_meta edge_set
press-expire_drops c k u ms pressed_ns now_ns d e on small seen old range = ground (
  arith,
  mem-insert u u k.pressed,
  mem-expire c now_ns (udp_edge pressed_ns u true k) u (insert-Distinct u k.pressed d),
)
