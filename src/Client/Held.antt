-- ===== src/Client/Held.antt =====
-- What presses and releases mean, apart from any code: the usages that the HID usage tables give to the letters
-- and to Enter, and the keys that are held after a sequence of changes.
use quic_keys.Common.{
  ℕ, zero, suc, ◌+◌, ◌-◌, Bool, false, not, ◌&&◌, List, [], ◌∷◌, ◌≡◌, refl, arith, Bytes, codes,
  ltb, leb, ◌==◌, if◌then◌else◌, same_bytes, Bool-cases, inl, inr,
}
use quic_keys.Udp.{usage_of}
use quic_keys.Client.{key_of_char}
use quic_keys.Client.Scripts.{usage_of_script}

-- The place of a character in a text, counted from `n`; 0 where it is not there.
unfoldable pub place : ℕ → ℕ → Bytes → ℕ
place n c [] = 0
place n c (x ∷ xs) = let later = place (n + 1) c xs in if c == x then n else later

-- "Keyboard a and A" is usage 4, "Keyboard z and Z" 29, "Keyboard Return (ENTER)" 40.
unfoldable pub letter_usage : ℕ → ℕ
letter_usage c =
    place 4 c (codes "abcdefghijklmnopqrstuvwxyz") + place 4 c (codes "ABCDEFGHIJKLMNOPQRSTUVWXYZ")

unfoldable pub hid_usage : Bytes → ℕ
hid_usage [] = 0
hid_usage (c ∷ []) = letter_usage c
hid_usage (c ∷ d ∷ key) = if same_bytes (c ∷ d ∷ key) (codes "ENTER") then 40 else 0

-- Each change is of a usage, to pressed or released; the last one of a usage decides. 0 is no key.
unfoldable pub held_after : List (ℕ × Bool) → (ℕ → Bool) → ℕ → Bool
held_after [] held u = held u
held_after ((usage, down) ∷ changes) held u =
    held_after changes (λ j. if not (usage == 0) && j == usage then down else held j) u

-- Before the first change.
abbrev pub none_held : ℕ → Bool
none_held u = false

run_from : ℕ → ℕ → Bytes
run_from m zero = []
run_from m (suc k) = m ∷ run_from (m + 1) k

place-run_from :
    (k n m c : ℕ) → place n c (run_from m k) ≡ (if leb m c && ltb c (m + k) then n + (c - m) else 0)
unfolding place run_from
place-run_from zero n m c = ground arith
place-run_from (suc k) n m c = ground (arith, place-run_from k (n + 1) (m + 1) c)

letter_usage-range :
    (c : ℕ)
    → letter_usage c ≡ (
        if leb b'a' c && leb c b'z'
        then 4 + (c - b'a')
        else if leb b'A' c && leb c b'Z'
        then 4 + (c - b'A')
        else 0)
letter_usage-range c =
    let small : place 4 c (codes "abcdefghijklmnopqrstuvwxyz") ≡ place 4 c (run_from 97 26) =
      unfold run_from in refl in
    let capital : place 4 c (codes "ABCDEFGHIJKLMNOPQRSTUVWXYZ") ≡ place 4 c (run_from 65 26) =
      unfold run_from in refl in
    unfold letter_usage in
    rw (small, capital, place-run_from 26 4 97 c, place-run_from 26 4 65 c) (ground arith)

pub usage_of_script-hid_usage : (key : Bytes) → usage_of_script key ≡ hid_usage key
unfolding usage_of_script hid_usage
usage_of_script-hid_usage [] = refl
usage_of_script-hid_usage (c ∷ []) = rw (letter_usage-range c) (ground arith)
usage_of_script-hid_usage (c ∷ d ∷ key) = refl

pub usage_of-hid_usage : (ch : ℕ) → usage_of (key_of_char ch) ≡ hid_usage (key_of_char ch)
unfolding usage_of key_of_char same_bytes hid_usage
usage_of-hid_usage ch = elim (Bool-cases (ch == b'\n')) [
  | inl e ↦ rw e refl
  | inr e ↦ rw (e, letter_usage-range ch) (ground (arith, e))
]
