-- ===== src/Client/Keys.antt =====
-- The usages that the clients and the daemon give to a key name.
use quic_keys.Common.{
  ℕ, true, [], ◌∷◌, ◌≡◌, ◌≢◌, inl, inr, refl, arith, Bytes, ◌==◌, same_bytes, Bool-cases,
}
use quic_keys.Snapshot.{is_keyboard_usage}
use quic_keys.Udp.{usage_of}
use quic_keys.Client.{usage_for_key, key_of_char}

-- For every character but the blank, client and daemon give the same usage to its key.
pub usage_for_key-usage_of :
    (ch : ℕ) → ch ≢ b' ' → usage_for_key (key_of_char ch) ≡ usage_of (key_of_char ch)
unfolding usage_for_key usage_of key_of_char same_bytes
usage_for_key-usage_of ch typed = elim (Bool-cases (ch == b'\n')) [
  | inl e ↦ rw e refl
  | inr e ↦ rw e (ground arith)
]

-- The usages of the client lie in the range that the daemon takes from a bitmap.
pub usage_for_key-range :
    (key : Bytes) → usage_for_key key ≢ 0 → is_keyboard_usage (usage_for_key key) ≡ true
unfolding usage_for_key
usage_for_key-range [] known = absurd (known refl)
usage_for_key-range (c ∷ []) known = ground arith
usage_for_key-range (c ∷ d ∷ key) known = ground arith
