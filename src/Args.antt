-- ===== src/Args.antt =====
-- The command line of daemon/src/main.cpp: `struct Args` with its defaults, and `parse_args`.
pub mod Options
use quic_keys.Common.{
  ℕ, ◌+◌, ◌-◌, ◌%◌, ◌^◌, Bool, true, false, ◌||◌, List, [], ◌∷◌, Option, none, some, Bytes, codes,
  ◌==◌, if◌then◌else◌, same_bytes,
}
use quic_keys.Common.Int.{ℤ, pos, negsuc}
use quic_keys.Udp.Numbers.{stoi}

pub record Args : Type 0 where
  pub udp_bind : Bytes
  pub udp_port : ℕ
  pub hid_socket : Bytes
  pub watchdog_ms : ℤ
  pub deadline_ms : ℤ
  pub stuck_ms : ℤ
  pub verbose : Bool

pub defaults : Args
defaults = record {
  udp_bind = codes "0.0.0.0";
  udp_port = 4444;
  hid_socket = codes "/tmp/hidra.kbd";
  watchdog_ms = pos 200;
  deadline_ms = pos 100;
  stuck_ms = pos 300;
  verbose = false;
}

-- `static_cast<uint16_t>`
pub to_u16 : ℤ → ℕ
to_u16 (pos n) = n % 2 ^ 16
to_u16 (negsuc n) = 2 ^ 16 - 1 - n % 2 ^ 16

-- `v.find(':')`, `v.substr(0, pos)` and `v.substr(pos + 1)`
split_colon : Bytes → Option (Bytes × Bytes)
split_colon [] = none
split_colon (c ∷ v) =
    if c == b':'
    then some ([], v)
    else elim (split_colon v) [ none ↦ none | some (a, b) ↦ some (c ∷ a, b) ]

-- The options that take a value, `none` where `stoi` throws.
udp_edges : Bytes → Args → Option Args
udp_edges v a = elim (split_colon v) [
  | none ↦ some a
  | some (bind, port) ↦ elim (stoi port) [
    | none ↦ none
    | some n ↦ some (record a { udp_bind = bind; udp_port = to_u16 n })
  ]
]

watchdog : Bytes → Args → Option Args
watchdog v a = elim (stoi v) [ none ↦ none | some n ↦ some (record a { watchdog_ms = n }) ]

deadline : Bytes → Args → Option Args
deadline v a = elim (stoi v) [ none ↦ none | some n ↦ some (record a { deadline_ms = n }) ]

stuck : Bytes → Args → Option Args
stuck v a = elim (stoi v) [ none ↦ none | some n ↦ some (record a { stuck_ms = n }) ]

-- Which branch of the chain of comparisons an argument takes.
pub data Branch : Type 0 where
  takes_udp_edges takes_hid_socket takes_watchdog takes_deadline takes_stuck : Branch
  sets_verbose ignored : Branch

unfoldable pub branch_of : Bytes → Branch
branch_of s =
    if same_bytes s (codes "--udp-edges")
    then takes_udp_edges
    else if same_bytes s (codes "--hid-socket")
    then takes_hid_socket
    else if same_bytes s (codes "--watchdog-ms")
    then takes_watchdog
    else if same_bytes s (codes "--deadline-ms")
    then takes_deadline
    else if same_bytes s (codes "--stuck-ms")
    then takes_stuck
    else if same_bytes s (codes "--verbose") || same_bytes s (codes "-v")
    then sets_verbose
    else ignored

-- The body of a branch with `next()` given; the last two do not call it.
take_value : Branch → Bytes → Args → Option Args
take_value takes_udp_edges v a = udp_edges v a
take_value takes_hid_socket v a = some (record a { hid_socket = v })
take_value takes_watchdog v a = watchdog v a
take_value takes_deadline v a = deadline v a
take_value takes_stuck v a = stuck v a
take_value sets_verbose v a = some (record a { verbose = true })
take_value ignored v a = some a

calls_next : Branch → Bool
calls_next sets_verbose = false
calls_next ignored = false
calls_next _ = true

abbrev bind_args : Option Args → (Args → Option Args) → Option Args
bind_args none f = none
bind_args (some a) f = f a

-- The loop over `argv` behind the program's name; `next` gives an empty string at the end.
pub parse_args : List Bytes → Args → Option Args
parse_args [] a = some a
parse_args (s ∷ []) a = take_value (branch_of s) [] a
parse_args (s ∷ v ∷ argv) a = elim (calls_next (branch_of s)) [
  | true ↦ bind_args (take_value (branch_of s) v a) (parse_args argv)
  | false ↦ bind_args (take_value (branch_of s) [] a) (parse_args (v ∷ argv))
]
