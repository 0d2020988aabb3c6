-- ===== src/Client.antt =====
-- The measurement clients: client/hybrid_run.py (edges by UDP, snapshots by QUIC), and the scripts of
-- client/client.py and client/baselines_quic_only.py. A key name is a text of ASCII characters, a Python set
-- of usages a list as in KeySet, and a delay a whole number of some small unit.
pub mod Bitmap
pub mod Keys
pub mod Workload
pub mod Edges
pub mod Outbox
pub mod Delivery
pub mod Healing
pub mod Scripts
pub mod Reliable
pub mod Held
pub mod Plain
pub mod Clearing
use quic_keys.Common.{
  ℕ, zero, suc, ◌+◌, ◌-◌, ◌*◌, ◌/◌, ◌%◌, ◌^◌, Bool, true, false, not, ◌&&◌, ◌||◌, List, [], ◌∷◌,
  ◌++◌, Option, none, some, Bytes, codes, ltb, leb, ◌==◌, if◌then◌else◌, get_or, set, replicate,
  same_bytes, bit_or,
}
use quic_keys.KeySet.{insert, erase}
use quic_keys.Snapshot.{build_snapshot}
use quic_keys.Udp.Messages.{build_edge_msg}

-- `str.lower` of one character.
unfoldable pub lower : ℕ → ℕ
lower c = if leb b'A' c && leb c b'Z' then c + 32 else c

-- hybrid_run.py: a key that is not known gives 0.
unfoldable pub usage_for_key : Bytes → ℕ
unfolding lower
usage_for_key [] = 0
usage_for_key (c ∷ []) =
    let l = lower c in
    if leb b'a' l && leb l b'z' then 0x04 + (l - b'a') else if l == b' ' then 0x2C else 0
usage_for_key (c ∷ d ∷ key) = if same_bytes (c ∷ d ∷ key) (codes "ENTER") then 0x28 else 0

-- `b[u // 8] |= 1 << (u % 8)` for the usages of a byte.
set_usage : ℕ → Bytes → Bytes
set_usage u b = if ltb u 256 then set b (u / 8) (bit_or (get_or b (u / 8) 0) (2 ^ (u % 8))) else b

set_usages : List ℕ → Bytes → Bytes
set_usages [] b = b
set_usages (u ∷ pressed) b = set_usages pressed (set_usage u b)

pub bitmap_from_pressed : List ℕ → Bytes
bitmap_from_pressed pressed = set_usages pressed (replicate 32 0)

-- An event of the workload: the delay before it, the command, the key, and whether it is the marker
-- of a release, which is never lost.
pub record KeyEvent : Type 0 where
  pub delay : ℕ
  pub cmd : Bytes
  pub key : Bytes
  pub is_marker : Bool

-- `key = "ENTER" if ch == "\n" else ch`
unfoldable pub key_of_char : ℕ → Bytes
key_of_char ch = if ch == b'\n' then codes "ENTER" else ch ∷ []

-- The four appends for one character; "noop" stands for the gap behind it.
unfoldable pub char_events : ℕ → ℕ → List KeyEvent
char_events key_delay ch =
    record { delay = 0; cmd = codes "down"; key = key_of_char ch; is_marker = false }
    ∷ record { delay = key_delay; cmd = codes "mup"; key = key_of_char ch; is_marker = true }
    ∷ record { delay = 0; cmd = codes "up"; key = key_of_char ch; is_marker = false }
    ∷ record { delay = key_delay; cmd = codes "noop"; key = []; is_marker = false }
    ∷ []

text_events : ℕ → Bytes → List KeyEvent
text_events key_delay [] = []
text_events key_delay (ch ∷ text) = char_events key_delay ch ++ text_events key_delay text

repeat_events : ℕ → ℕ → Bytes → List KeyEvent
repeat_events zero key_delay text = []
repeat_events (suc n) key_delay text = text_events key_delay text ++ repeat_events n key_delay text

-- The second loop of `workload_events`: a noop's delay goes to the next event.
unfoldable pub fold_noops : ℕ → List KeyEvent → List KeyEvent
fold_noops carry [] = []
fold_noops carry (e ∷ es) =
    let later = fold_noops (carry + e.delay) es in
    let kept = record e { delay = e.delay + carry } ∷ fold_noops 0 es in
    if same_bytes e.cmd (codes "noop") then later else kept

pub workload_events : Bytes → ℕ → ℕ → List KeyEvent
unfolding repeat_events
workload_events text n key_delay = fold_noops 0 (repeat_events n key_delay text)

-- What a command does to a set of keys: 0 is no key.
unfoldable pub set_key : ℕ → Bytes → List ℕ → List ℕ
set_key u cmd pressed =
    if same_bytes cmd (codes "down") && not (u == 0)
    then insert u pressed
    else if same_bytes cmd (codes "up") && not (u == 0)
    then erase u pressed
    else pressed

-- The body of the loop of `state_machine`, under the lock.
unfoldable pub press_or_release : KeyEvent → List ℕ → List ℕ
unfolding set_key
press_or_release e pressed = set_key (usage_for_key e.key) e.cmd pressed

unfoldable pub state_machine : List KeyEvent → List ℕ → List ℕ
state_machine [] pressed = pressed
state_machine (e ∷ es) pressed = state_machine es (press_or_release e pressed)

-- An event as `udp_sender` meets it: the time that it stamps, what `imp.drop()` answers, and when the
-- outbox is to send it.
pub record Trip : Type 0 where
  pub event : KeyEvent
  pub t_ns : ℕ
  pub lost : Bool
  pub send_at : ℕ

-- `drop_keyup_for and cmd == "up" and key == drop_keyup_for`
unfoldable pub is_withheld : Option Bytes → KeyEvent → Bool
is_withheld none e = false
is_withheld (some []) e = false
is_withheld (some (k ∷ key)) e = same_bytes e.cmd (codes "up") && same_bytes e.key (k ∷ key)

-- A call of `enqueue`, with what it meets: the answer of `imp.drop()`, and the clock with the delay added.
pub record Enqueue : Type 0 where
  pub payload : Bytes
  pub reliable : Bool
  pub lost : Bool
  pub send_at : ℕ

-- The calls that the loop of `udp_sender` makes.
unfoldable pub udp_sender : Option Bytes → List Trip → List Enqueue
udp_sender drop_keyup_for [] = []
udp_sender drop_keyup_for (t ∷ ts) =
    let rest = udp_sender drop_keyup_for ts in
    let call : Enqueue = record {
      payload = build_edge_msg t.event.cmd t.event.key t.t_ns;
      reliable = t.event.is_marker;
      lost = t.lost;
      send_at = t.send_at;
    } in
    if is_withheld drop_keyup_for t.event then rest else call ∷ rest

-- A round of `quic_snapshot_sender`: the set that it copies under the lock, the time that the snapshot
-- carries, what `imp.drop()` answers, and when the outbox is to send it.
pub record Round : Type 0 where
  pub pressed : List ℕ
  pub t_ms : ℕ
  pub lost : Bool
  pub send_at : ℕ

pub snapshot_round : ℕ → Round → Bytes
snapshot_round seq r = build_snapshot 0 (bitmap_from_pressed r.pressed) 1 seq r.t_ms

-- The calls of `enqueue` in the rounds from the number `seq` on, until the time is over.
unfoldable pub quic_snapshot_sender : ℕ → List Round → List Enqueue
quic_snapshot_sender seq [] = []
quic_snapshot_sender seq (r ∷ rs) =
    record { payload = snapshot_round seq r; reliable = false; lost = r.lost; send_at = r.send_at }
    ∷ quic_snapshot_sender (seq + 1) rs
