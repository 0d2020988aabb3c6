-- ===== src/Args/Options.antt =====
-- What a command line of well-formed options is read as.
use quic_keys.Common.{
  ℕ, ◌<◌, ◌^◌, true, false, List, [], ◌∷◌, ◌++◌, some, ◌≡◌, refl, ◌∙◌, arith, Bytes, All, codes,
  ◌==◌, same_bytes, ap, Option-cases, inl, inr, ◌%◌,
}
use quic_keys.Common.Int.{pos}
use quic_keys.Udp.Numbers.{put_decimal, stoi-put_decimal}
use quic_keys.Args.{
  Args, to_u16, split_colon, udp_edges, watchdog, deadline, stuck, ignored, branch_of, take_value,
  calls_next, bind_args, parse_args,
}

-- An option as a user means it.
pub data Setting : Type 0 where
  listens : Bytes → ℕ → Setting
  socket : Bytes → Setting
  watches deadlines stucks : ℕ → Setting
  speaks : Setting
  unknown : Bytes → Setting

pub argv_of : Setting → List Bytes
argv_of (listens bind port) = codes "--udp-edges" ∷ (bind ++ b':' ∷ put_decimal port) ∷ []
argv_of (socket path) = codes "--hid-socket" ∷ path ∷ []
argv_of (watches ms) = codes "--watchdog-ms" ∷ put_decimal ms ∷ []
argv_of (deadlines ms) = codes "--deadline-ms" ∷ put_decimal ms ∷ []
argv_of (stucks ms) = codes "--stuck-ms" ∷ put_decimal ms ∷ []
argv_of speaks = codes "--verbose" ∷ []
argv_of (unknown word) = word ∷ []

pub command_line : List Setting → List Bytes
command_line [] = []
command_line (s ∷ ss) = argv_of s ++ command_line ss

pub set_option : Setting → Args → Args
set_option (listens bind port) a = record a { udp_bind = bind; udp_port = port }
set_option (socket path) a = record a { hid_socket = path }
set_option (watches ms) a = record a { watchdog_ms = pos ms }
set_option (deadlines ms) a = record a { deadline_ms = pos ms }
set_option (stucks ms) a = record a { stuck_ms = pos ms }
set_option speaks a = record a { verbose = true }
set_option (unknown word) a = a

pub set_options : List Setting → Args → Args
set_options [] a = a
set_options (s ∷ ss) a = set_options ss (set_option s a)

-- Ports of 16 bits behind an address without a colon, times below 2 ^ 31, and words that are no
-- option.
abbrev pub IsSetting : Setting → Type 0
IsSetting (listens bind port) = All (λ c. (c == b':') ≡ false) bind × (port < 2 ^ 16)
IsSetting (socket path) = Unit {0}
IsSetting (watches ms) = ms < 2 ^ 31
IsSetting (deadlines ms) = ms < 2 ^ 31
IsSetting (stucks ms) = ms < 2 ^ 31
IsSetting speaks = Unit {0}
IsSetting (unknown word) = branch_of word ≡ ignored

-- One round of the loop, without and with a value.
parse-flag :
    (s : Bytes) (argv : List Bytes) (a : Args)
    → calls_next (branch_of s) ≡ false
    → parse_args (s ∷ argv) a ≡ bind_args (take_value (branch_of s) [] a) (parse_args argv)
unfolding parse_args
parse-flag s [] a h = elim (Option-cases (take_value (branch_of s) [] a)) [
  | inl e ↦ rw e
  | inr (a', e) ↦ rw e
]
parse-flag s (v ∷ argv) a h = rw (h, parse_args)

parse-value :
    (s v : Bytes) (argv : List Bytes) (a : Args)
    → calls_next (branch_of s) ≡ true
    → parse_args (s ∷ v ∷ argv) a ≡ bind_args (take_value (branch_of s) v a) (parse_args argv)
unfolding parse_args
parse-value s v argv a h = rw (h, parse_args)

split_colon-append :
    (bind port : Bytes)
    → All (λ c. (c == b':') ≡ false) bind
    → split_colon (bind ++ b':' ∷ port) ≡ some (bind, port)
unfolding split_colon
split_colon-append [] port h = refl
split_colon-append (c ∷ bind) port (hc, h) = rw (hc, split_colon-append bind port h) refl

udp_edges-put :
    (bind : Bytes) (port : ℕ) (a : Args)
    → All (λ c. (c == b':') ≡ false) bind
    → port < 2 ^ 16
    → udp_edges (bind ++ b':' ∷ put_decimal port) a
      ≡ some (record a { udp_bind = bind; udp_port = port })
unfolding udp_edges to_u16
udp_edges-put bind port a hb hp =
    let small : port % 2 ^ 16 ≡ port = omega arith in
    rw (split_colon-append bind (put_decimal port) hb, udp_edges)
      (rw (stoi-put_decimal port (omega arith), udp_edges) (rw small))

parse-setting :
    (s : Setting) (argv : List Bytes) (a : Args)
    → IsSetting s
    → parse_args (argv_of s ++ argv) a ≡ parse_args argv (set_option s a)
unfolding argv_of set_option take_value calls_next branch_of same_bytes
parse-setting (listens bind port) argv a (hb, hp) =
    parse-value (codes "--udp-edges") (bind ++ b':' ∷ put_decimal port) argv a refl
    ∙ rw (udp_edges-put bind port a hb hp)
parse-setting (socket path) argv a h = parse-value (codes "--hid-socket") path argv a refl
parse-setting (watches ms) argv a h =
    parse-value (codes "--watchdog-ms") (put_decimal ms) argv a refl
    ∙ unfold watchdog in rw (stoi-put_decimal ms h, watchdog)
parse-setting (deadlines ms) argv a h =
    parse-value (codes "--deadline-ms") (put_decimal ms) argv a refl
    ∙ unfold deadline in rw (stoi-put_decimal ms h, deadline)
parse-setting (stucks ms) argv a h =
    parse-value (codes "--stuck-ms") (put_decimal ms) argv a refl
    ∙ unfold stuck in rw (stoi-put_decimal ms h, stuck)
parse-setting speaks argv a h = parse-flag (codes "--verbose") argv a refl
parse-setting (unknown word) argv a h =
    parse-flag word argv a (ap calls_next h)
    ∙ ap (λ b. bind_args (take_value b [] a) (parse_args argv)) h

-- Any sequence of well-formed options is read as what each of them sets, in order, so that the
-- last of several wins; a word that is no option changes nothing. Well-formed are ports below 2 ^
-- 16 behind an address without a colon and times below 2 ^ 31.
pub parse_args-command_line :
    (ss : List Setting) (a : Args)
    → All IsSetting ss
    → parse_args (command_line ss) a ≡ some (set_options ss a)
unfolding command_line set_options
parse_args-command_line [] a h = unfold parse_args in refl
parse_args-command_line (s ∷ ss) a (hs, h) =
    parse-setting s (command_line ss) a hs ∙ parse_args-command_line ss (set_option s a) h
