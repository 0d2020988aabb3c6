-- ===== src/Client/Scripts.antt =====
-- The clients that type a script: client/baselines_quic_only.py, by records on a QUIC stream, and
-- client/client.py, by datagrams without a time stamp; and client/quic_snapshots.py, which sends snapshots
-- of no keys.
use quic_keys.Common.{
  ℕ, zero, suc, ◌+◌, ◌-◌, ◌&&◌, Bool, false, List, [], ◌∷◌, ◌++◌, Bytes, codes, leb, ◌==◌,
  if◌then◌else◌, same_bytes, replicate,
}
use quic_keys.Snapshot.{build_snapshot}
use quic_keys.Daemon.Edges.{build_edge_record}
use quic_keys.Client.{lower, KeyEvent, key_of_char}

-- `usage_for_key` of client/baselines_quic_only.py, which knows no blank.
unfoldable pub usage_of_script : Bytes → ℕ
unfolding lower
usage_of_script [] = 0
usage_of_script (c ∷ []) =
    let l = lower c in if leb b'a' l && leb l b'z' then 0x04 + (l - b'a') else 0
usage_of_script (c ∷ d ∷ key) = if same_bytes (c ∷ d ∷ key) (codes "ENTER") then 0x28 else 0

-- The two appends for one character of a script.
unfoldable pub char_script : ℕ → ℕ → List KeyEvent
char_script key_delay ch =
    record { delay = 0; cmd = codes "down"; key = key_of_char ch; is_marker = false }
    ∷ record { delay = key_delay; cmd = codes "up"; key = key_of_char ch; is_marker = false }
    ∷ []

unfoldable pub text_script : ℕ → Bytes → List KeyEvent
text_script key_delay [] = []
text_script key_delay (ch ∷ txt) = char_script key_delay ch ++ text_script key_delay txt

unfoldable pub script_from_text : Bytes → ℕ → ℕ → List KeyEvent
script_from_text txt zero key_delay = []
script_from_text txt (suc n) key_delay =
    text_script key_delay txt ++ script_from_text txt n key_delay

-- An event as the loop of `main` there meets it: the time that it reads, and whether
-- `args.loss and random.random() < args.loss / 100` holds.
pub record Turn : Type 0 where
  pub event : KeyEvent
  pub t_ms : ℕ
  pub lost : Bool

-- The loop, from the number `seq` on: the records that are written.
unfoldable pub edge_sender : ℕ → List Turn → List Bytes
edge_sender seq [] = []
edge_sender seq (t ∷ ts) =
    let rest = edge_sender (seq + 1) ts in
    let usage = usage_of_script t.event.key in
    if t.lost
    then rest
    else if usage == 0
    then rest
    else build_edge_record seq t.t_ms usage (same_bytes t.event.cmd (codes "down")) ∷ rest

-- `script_from_text` of client/client.py.
unfoldable pub typed_text : Bytes → List KeyEvent
typed_text [] = []
typed_text (ch ∷ txt) =
    record { delay = 10; cmd = codes "down"; key = key_of_char ch; is_marker = false }
    ∷ record { delay = 20; cmd = codes "up"; key = key_of_char ch; is_marker = false }
    ∷ typed_text txt

-- f"{cmd} {key}".encode()
unfoldable pub build_plain_msg : Bytes → Bytes → Bytes
build_plain_msg cmd key = cmd ++ b' ' ∷ key

-- An event as `send_udp` meets it: whether `loss > 0 and random.random() < loss` holds.
pub record Shot : Type 0 where
  pub event : KeyEvent
  pub lost : Bool

-- The datagrams that `send_udp` sends.
unfoldable pub send_udp : List Shot → List Bytes
send_udp [] = []
send_udp (s ∷ ss) =
    let rest = send_udp ss in
    if s.lost then rest else build_plain_msg s.event.cmd s.event.key ∷ rest

-- The loop of `main` in client/quic_snapshots.py, from the number `seq` on: the snapshots that it writes at
-- the times given.
unfoldable pub empty_snapshots : ℕ → List ℕ → List Bytes
empty_snapshots seq [] = []
empty_snapshots seq (t_ms ∷ ts) =
    build_snapshot 0 (replicate 32 0) 1 seq t_ms ∷ empty_snapshots (seq + 1) ts
