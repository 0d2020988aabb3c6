-- ===== src/Udp.antt =====
-- The datagrams of the UDP loop in `main` of daemon/src/main.cpp: tokens, the time stamp, the
-- command, and the key that it names.
pub mod Numbers
pub mod Tokens
pub mod RoundTrip
pub mod Messages
pub mod Plain
use quic_keys.Common.{
  ℕ, zero, suc, ◌+◌, ◌-◌, Bool, true, false, ◌&&◌, ◌||◌, List, [], ◌∷◌, Option, none, some, Bytes,
  codes, leb, ◌==◌, if◌then◌else◌, length, drop, same_bytes,
}
use Numbers.{stoull}

-- ' ', '\n', '\r', '\t'
unfoldable pub is_separator : ℕ → Bool
is_separator c = c == b' ' || (c == b'\n' || (c == b'\r' || c == b'\t'))

-- `while (i < s.size() && …) ++i;`: the text from the new `i` on.
pub skip_separators : Bytes → Bytes
skip_separators [] = []
skip_separators (c ∷ s) = if is_separator c then skip_separators s else c ∷ s

-- `s.substr(i, j - i)`, and the text from `j` on.
pub word : Bytes → Bytes
word [] = []
word (c ∷ s) = if is_separator c then [] else c ∷ word s

pub after_word : Bytes → Bytes
after_word [] = []
after_word (c ∷ s) = if is_separator c then c ∷ s else after_word s

-- `while (i < s.size())`, on fuel: a round passes at least one byte.
pub tokens : ℕ → Bytes → List Bytes
tokens zero s = []
tokens (suc fuel) s =
    let rest = skip_separators s in
    elim rest [ [] ↦ [] | c ∷ t ↦ word (c ∷ t) ∷ tokens fuel (after_word (c ∷ t)) ]

pub tokenize : Bytes → List Bytes
tokenize s = tokens (length s) s

-- `tok.rfind("t=", 0) == 0`
is_stamp : Bytes → Bool
is_stamp [] = false
is_stamp (x ∷ []) = false
is_stamp (x ∷ y ∷ s) = x == b't' && y == b'='

pub record Datagram : Type 0 where
  pub t_ns : ℕ
  pub cmd : Bytes
  pub key : Bytes

head_or_empty : List Bytes → Bytes
head_or_empty [] = []
head_or_empty (t ∷ ts) = t

-- `idx` behind the stamp; `none` is `continue`.
command_of : ℕ → List Bytes → Option Datagram
command_of t_ns [] = none
command_of t_ns (cmd ∷ rest) = some (record { t_ns = t_ns; cmd = cmd; key = head_or_empty rest })

-- `try { t_ns = stoull(…); } catch (...) { t_ns = 0; }`
stamp_of : Bytes → ℕ
stamp_of tok = elim (stoull (drop 2 tok)) [ none ↦ 0 | some t ↦ t ]

command_of_tokens : List Bytes → Option Datagram
command_of_tokens [] = none
command_of_tokens (t ∷ ts) =
    if is_stamp t then command_of (stamp_of t) ts else command_of 0 (t ∷ ts)

pub parse_datagram : Bytes → Option Datagram
parse_datagram s = command_of_tokens (tokenize s)

-- `tolower` in the "C" locale.
tolower : ℕ → ℕ
tolower c = if leb b'A' c && leb c b'Z' then c + 32 else c

map_char : ℕ → ℕ
map_char c = if leb b'a' c && leb c b'z' then 0x04 + (c - b'a') else if c == b'\n' then 0x28 else 0

-- 0 where the key is not known.
unfoldable pub usage_of : Bytes → ℕ
unfolding map_char tolower
usage_of [] = 0
usage_of (c ∷ key) = if same_bytes (c ∷ key) (codes "ENTER") then 0x28 else map_char (tolower c)
