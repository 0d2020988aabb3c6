-- ===== src/Udp/Plain.antt =====
-- A datagram of client/client.py, which has no time stamp: f"{cmd} {key}".
use quic_keys.Common.{
  ℕ, true, List, [], ◌∷◌, ◌++◌, append-nil, ◌≡◌, ◌≢◌, ◌⊎◌, inl, inr, refl, ap, sym, ◌∙◌, arith,
  Bytes, codes, some, same_bytes,
}
use quic_keys.Udp.Tokens.{IsToken, IsGap}
use quic_keys.Udp.RoundTrip.{tokenize-layout}
use quic_keys.Udp.{
  is_separator, parse_datagram, tokenize, command_of_tokens, command_of, is_stamp, usage_of,
  head_or_empty, tolower, map_char, Datagram,
}

abbrev pub IsPlain : Bytes → Type 0
IsPlain cmd = (cmd ≡ codes "down") ⊎ (cmd ≡ codes "up")

abbrev plain : Bytes → Bytes → Datagram
plain cmd key = record { t_ns = 0; cmd = cmd; key = key }

plain-IsToken : (cmd : Bytes) → IsPlain cmd → IsToken cmd
unfolding is_separator
plain-IsToken cmd h = elim h [
  | inl e ↦ rw e ((λ h. cc), (refl, (refl, (refl, (refl, tt)))))
  | inr e ↦ rw e ((λ h. cc), (refl, (refl, tt)))
]

tokens-read :
    (cmd : Bytes) (ts : List Bytes)
    → IsPlain cmd
    → command_of_tokens (cmd ∷ ts) ≡ some (plain cmd (head_or_empty ts))
unfolding command_of_tokens command_of is_stamp
tokens-read cmd ts h = elim h [ inl e ↦ rw e refl | inr e ↦ rw e refl ]

space-IsGap : IsGap (b' ' ∷ [])
unfolding is_separator
space-IsGap = (refl, tt)

pub parse_datagram-plain :
    (cmd key : Bytes)
    → IsPlain cmd
    → IsToken key
    → parse_datagram (cmd ++ b' ' ∷ key) ≡ some (record { t_ns = 0; cmd = cmd; key = key })
unfolding parse_datagram head_or_empty
parse_datagram-plain cmd key h k =
    let read =
      tokenize-layout (([], cmd) ∷ (b' ' ∷ [], key) ∷ []) []
        (tt, plain-IsToken cmd h, ((λ h. cc), space-IsGap, k, tt)) tt in
    ap command_of_tokens (ap (λ t. tokenize (cmd ++ b' ' ∷ t)) (sym (append-nil key)) ∙ read)
    ∙ tokens-read cmd (key ∷ []) h

-- A key that separates is not read.
pub parse_datagram-bare :
    (cmd : Bytes) (c : ℕ)
    → IsPlain cmd
    → is_separator c ≡ true
    → parse_datagram (cmd ++ b' ' ∷ c ∷ []) ≡ some (record { t_ns = 0; cmd = cmd; key = [] })
unfolding parse_datagram head_or_empty
parse_datagram-bare cmd c h s =
    let read =
      tokenize-layout (([], cmd) ∷ []) (b' ' ∷ c ∷ []) (tt, plain-IsToken cmd h, tt)
        (space-IsGap.0, (s, tt)) in
    ap command_of_tokens read ∙ tokens-read cmd [] h

pub usage_of_separator :
    (c : ℕ) → is_separator c ≡ true → c ≢ b'\n' → usage_of (c ∷ []) ≡ usage_of []
unfolding is_separator usage_of same_bytes map_char tolower
usage_of_separator c s h = ground arith
