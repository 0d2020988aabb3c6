-- ===== src/Udp/Messages.antt =====
-- A datagram of the client (`build_edge_msg` of client/hybrid_run.py) is read back as what it says,
-- and which usages a key name gives.
use quic_keys.Common.{
  ℕ, ◌≤◌, ◌<◌, false, ◌⊎◌, [], ◌∷◌, ◌++◌, ◌≡◌, some, refl, arith, Bytes, All, u64_mod, inl,
}
use quic_keys.Udp.Tokens.{IsToken, IsGap}
use quic_keys.Udp.Numbers.{
  put_decimal, put_decimal-IsDigits, stoull-put_decimal, IsDigits, is_digit_range,
}
use quic_keys.Udp.RoundTrip.{tokenize-layout}
use quic_keys.Udp.{
  is_separator, parse_datagram, command_of_tokens, command_of, is_stamp, stamp_of, usage_of,
  head_or_empty,
}

-- f"t={t_ns_val} {cmd} {key}".encode()
pub build_edge_msg : Bytes → Bytes → ℕ → Bytes
build_edge_msg cmd key t_ns_val =
    (b't' ∷ b'=' ∷ put_decimal t_ns_val) ++ ((b' ' ∷ []) ++ (cmd ++ ((b' ' ∷ []) ++ (key ++ []))))

digits-separate : (s : Bytes) → IsDigits s → All (λ c. is_separator c ≡ false) s
digits-separate [] h = tt
digits-separate (c ∷ s) (hc, h) =
    (unfold is_separator in ground (arith, is_digit_range c hc), digits-separate s h)

stamp-IsToken : (n : ℕ) → IsToken (b't' ∷ b'=' ∷ put_decimal n)
unfolding is_separator
stamp-IsToken n =
    (λ h. cc, (refl, (refl, digits-separate (put_decimal n) (put_decimal-IsDigits n).0)))

-- The daemon reads the time stamp, the command and the key of the client's datagram back, for
-- every 64-bit time and all words that are not empty and hold no separator.
pub parse_datagram-build :
    (cmd key : Bytes) (t_ns : ℕ)
    → IsToken cmd
    → IsToken key
    → t_ns < u64_mod
    → parse_datagram (build_edge_msg cmd key t_ns)
      ≡ some (record { t_ns = t_ns; cmd = cmd; key = key })
unfolding parse_datagram build_edge_msg command_of_tokens is_stamp stamp_of command_of head_or_empty
parse_datagram-build cmd key t_ns hc hk ht =
    let stamp : Bytes = b't' ∷ b'=' ∷ put_decimal t_ns in
    let space : Bytes = b' ' ∷ [] in
    let gap : IsGap space = (unfold is_separator in refl, tt) in
    let read =
      tokenize-layout (([], stamp) ∷ (space, cmd) ∷ (space, key) ∷ []) []
        (tt, stamp-IsToken t_ns, ((λ h. cc), gap, hc, ((λ h. cc), gap, hk, tt))) tt in
    rw read (rw (stoull-put_decimal t_ns ht, stamp_of))

-- A key name gives 0 or a usage of a letter or of ENTER.
pub usage_of_range :
    (key : Bytes)
    → (usage_of key ≡ 0) ⊎ ((0x04 ≤ usage_of key) × (usage_of key ≤ 0x1D)) ⊎ (usage_of key ≡ 0x28)
unfolding usage_of
usage_of_range [] = inl refl
usage_of_range (c ∷ key) = ground arith
