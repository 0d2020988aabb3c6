-- ===== src/Udp/Numbers.antt =====
-- `std::stoull` and `std::stoi` (base 10), as daemon/src/main.cpp uses them: white space, a sign,
-- digits; `none` is the exception. A minus sign negates a `stoull` modulo 2 ^ 64.
use quic_keys.Common.{
  ℕ, zero, suc, ◌+◌, ◌-◌, ◌*◌, ◌/◌, ◌%◌, ◌^◌, ◌<◌, ◌≤◌, Bool, true, false, ◌&&◌, ◌||◌, [], ◌∷◌,
  Option, none, some, Bytes, leb, ◌==◌, if◌then◌else◌, u64_mod, ◌≡◌, ◌≢◌, refl, arith, ◌∙◌, All,
  Bool-cases, inl, inr, ap,
}
use mathlib.Core.List.{cons-ne-nil}
use quic_keys.Common.Int.{ℤ, pos, negsuc}

-- `isspace` in the "C" locale.
is_space : ℕ → Bool
is_space c = c == 32 || leb 9 c && leb c 13

strip : Bytes → Bytes
strip [] = []
strip (c ∷ s) = if is_space c then strip s else c ∷ s

unfoldable pub is_digit : ℕ → Bool
is_digit c = leb b'0' c && leb c b'9'

pub is_digit_range : (c : ℕ) → is_digit c ≡ true → (48 ≤ c) × (c ≤ 57)
unfolding is_digit
is_digit_range c h = ground arith

-- The value of the leading digits behind `acc`.
unfoldable pub digits_value : ℕ → Bytes → ℕ
digits_value acc [] = acc
digits_value acc (c ∷ s) =
    let more = digits_value (acc * 10 + (c - b'0')) s in if is_digit c then more else acc

-- The magnitude; `none` where there is no digit.
magnitude : Bytes → Option ℕ
magnitude [] = none
magnitude (c ∷ s) = if is_digit c then some (digits_value 0 (c ∷ s)) else none

-- Whether there is a minus sign, and the magnitude.
signed : Bytes → Option (Bool × ℕ)
signed [] = none
signed (c ∷ s) =
    if c == b'-'
    then elim (magnitude s) [ none ↦ none | some v ↦ some (true, v) ]
    else if c == b'+'
    then elim (magnitude s) [ none ↦ none | some v ↦ some (false, v) ]
    else elim (magnitude (c ∷ s)) [ none ↦ none | some v ↦ some (false, v) ]

to_u64 : Bool × ℕ → Option ℕ
to_u64 (negative, v) =
    if leb u64_mod v then none else some (if negative then (u64_mod - v) % u64_mod else v)

pub stoull : Bytes → Option ℕ
stoull s = elim (signed (strip s)) [ none ↦ none | some p ↦ to_u64 p ]

-- Outside of `int` the call throws.
to_int : Bool × ℕ → Option ℤ
to_int (true, zero) = some (pos 0)
to_int (true, suc v) = if leb (2 ^ 31) v then none else some (negsuc v)
to_int (false, v) = if leb (2 ^ 31) v then none else some (pos v)

pub stoi : Bytes → Option ℤ
stoi s = elim (signed (strip s)) [ none ↦ none | some p ↦ to_int p ]

-- A decimal print, as the clients format a time stamp: on fuel, with the digits written so far.
put_digits : ℕ → ℕ → Bytes → Bytes
put_digits zero n out = out
put_digits (suc fuel) n out =
    let rest = put_digits fuel (n / 10) ((b'0' + n % 10) ∷ out) in
    if n / 10 == 0 then (b'0' + n % 10) ∷ out else rest

pub put_decimal : ℕ → Bytes
put_decimal n = put_digits (suc n) n []

digits_value-put :
    (fuel n : ℕ) (out : Bytes)
    → n < fuel
    → digits_value 0 (put_digits fuel n out) ≡ digits_value n out
unfolding digits_value put_digits is_digit
digits_value-put zero n out h = absurd (omega arith)
digits_value-put (suc f) n out h =
    ground (arith, digits_value-put f (n / 10) ((b'0' + n % 10) ∷ out))

-- A print is read as the number that was printed.
pub digits_value-put_decimal : (n : ℕ) → digits_value 0 (put_decimal n) ≡ n
unfolding put_decimal digits_value
digits_value-put_decimal n = digits_value-put (suc n) n [] (omega arith)

abbrev pub IsDigits : Bytes → Type 0
IsDigits = All (λ c. is_digit c ≡ true)

put_digits-IsDigits :
    (fuel n : ℕ) (out : Bytes) → n < fuel → IsDigits out → IsDigits (put_digits fuel n out)
unfolding put_digits is_digit
put_digits-IsDigits zero n out h d = absurd (omega arith)
put_digits-IsDigits (suc f) n out h d =
    let digit : is_digit (b'0' + n % 10) ≡ true = ground arith in
    let rest = put_digits-IsDigits f (n / 10) ((b'0' + n % 10) ∷ out) in
    elim (Bool-cases (n / 10 == 0)) [
      | inl e ↦ rw e (digit, d)
      | inr e ↦ rw e (rest (ground arith) (digit, d))
    ]

put_digits-ne-nil : (fuel n : ℕ) (out : Bytes) → out ≢ [] → put_digits fuel n out ≢ []
unfolding put_digits
put_digits-ne-nil zero n out h = h
put_digits-ne-nil (suc f) n out h =
    ground (arith, put_digits-ne-nil f (n / 10) ((b'0' + n % 10) ∷ out))

-- A print is one or more digits.
pub put_decimal-IsDigits : (n : ℕ) → IsDigits (put_decimal n) × (put_decimal n ≢ [])
unfolding put_decimal
put_decimal-IsDigits n = (
  put_digits-IsDigits (suc n) n [] (omega arith) tt,
  unfold put_digits in
      ground (
        arith,
        put_digits-ne-nil n (n / 10) ((b'0' + n % 10) ∷ []),
        cons-ne-nil (b'0' + n % 10) [],
      ),
)

-- Of a text of digits `stoull` gives the value, or throws where that does not fit.
stoull-digits :
    (s : Bytes)
    → s ≢ []
    → IsDigits s
    → digits_value 0 s < u64_mod
    → stoull s ≡ some (digits_value 0 s)
stoull-digits [] ne d h = absurd (ne refl)
stoull-digits (c ∷ s) ne (hc, d) h =
    unfold stoull strip is_space signed magnitude to_u64 is_digit in ground arith

-- Every time stamp is read back from its print.
pub stoull-put_decimal : (n : ℕ) → n < u64_mod → stoull (put_decimal n) ≡ some n
stoull-put_decimal n h =
    let value = digits_value-put_decimal n in
    let (digits, some_digit) = put_decimal-IsDigits n in
    stoull-digits (put_decimal n) some_digit digits (omega arith) ∙ ap some value

stoi-digits :
    (s : Bytes)
    → s ≢ []
    → IsDigits s
    → digits_value 0 s < 2 ^ 31
    → stoi s ≡ some (pos (digits_value 0 s))
stoi-digits [] ne d h = absurd (ne refl)
stoi-digits (c ∷ s) ne (hc, d) h =
    unfold stoi strip is_space signed magnitude to_int is_digit in ground arith

-- Every `int` that is not negative is read back from its print.
pub stoi-put_decimal : (n : ℕ) → n < 2 ^ 31 → stoi (put_decimal n) ≡ some (pos n)
stoi-put_decimal n h =
    let value = digits_value-put_decimal n in
    let (digits, some_digit) = put_decimal-IsDigits n in
    stoi-digits (put_decimal n) some_digit digits (omega arith) ∙ ap (λ v. some (pos v)) value
