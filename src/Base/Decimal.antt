-- ===== src/Base/Decimal.antt =====
-- Go's `strconv`: an int64 in decimal digits, and back.
use native.Mathlib.Nat.{pow-suc}
use idemlease.Base.{
  ℕ, zero, suc, ◌+◌, ◌-◌, ◌*◌, ◌/◌, ◌%◌, ◌^◌, ◌<◌, ◌≡◌, ◌∙◌, refl, Bytes, ltb, leb, ◌==◌, ◌&&◌,
  Bool, if◌then◌else◌, Option, none, some, [], ◌∷◌, arith, Bool-cases, inl, inr, true, false,
  lt→ltb,
}
use idemlease.Base.Int.{ℤ, pos, negsuc}

abbrev int64_limit : ℕ
int64_limit = 2 ^ 63

-- The value of the low 64 bits, as an int64.
unfoldable pub to_int64 : ℕ → ℤ
to_int64 n = let m = n % 2 ^ 64 in if ltb m int64_limit then pos m else negsuc (2 ^ 64 - 1 - m)

-- The digits in front of what is there.
digits_onto : ℕ → ℕ → Bytes → Bytes
digits_onto zero n out = out
digits_onto (suc fuel) n out =
    let out' = (b'0' + n % 10) ∷ out in
    let more = digits_onto fuel (n / 10) out' in if ltb n 10 then out' else more

-- An int64 has at most 19 digits.
unfoldable pub format_nat : ℕ → Bytes
unfolding digits_onto
format_nat n = digits_onto 19 n []

-- `strconv.FormatInt(z, 10)`
unfoldable pub format_int : ℤ → Bytes
unfolding format_nat
format_int (pos n) = format_nat n
format_int (negsuc n) = b'-' ∷ format_nat (suc n)

abbrev is_digit : ℕ → Bool
is_digit c = leb b'0' c && leb c b'9'

unfoldable pub parse_digits : ℕ → Bytes → Option ℕ
parse_digits acc [] = some acc
parse_digits acc (c ∷ cs) =
    let rest = parse_digits (acc * 10 + (c - b'0')) cs in if is_digit c then rest else none

parse_nat : Bytes → Option ℕ
parse_nat [] = none
parse_nat (c ∷ cs) = parse_digits 0 (c ∷ cs)

positive : Option ℕ → Option ℤ
positive none = none
positive (some n) = if ltb n int64_limit then some (pos n) else none

negative_of : ℕ → ℤ
negative_of zero = pos zero
negative_of (suc n) = negsuc n

negative : Option ℕ → Option ℤ
negative none = none
negative (some n) = if ltb int64_limit n then none else some (negative_of n)

-- `strconv.ParseInt(s, 10, 64)`; `none` where it gives an error.
unfoldable pub parse_int : Bytes → Option ℤ
unfolding parse_nat parse_digits positive negative negative_of
parse_int [] = none
parse_int (c ∷ cs) =
    if c == b'-'
    then negative (parse_nat cs)
    else if c == b'+'
    then positive (parse_nat cs)
    else positive (parse_nat (c ∷ cs))

-- One digit in front.
parse_digits-digit :
    (acc d m : ℕ) (out : Bytes)
    → d < 10
    → acc * 10 + d ≡ m
    → parse_digits acc ((b'0' + d) ∷ out) ≡ parse_digits m out
unfolding parse_digits
parse_digits-digit acc d m out h e =
    let value : b'0' + d - b'0' ≡ d = omega arith in
    let known : is_digit (b'0' + d) ≡ true = ground arith in rw (known, value, e)

-- The digits are read back, whatever stands behind them.
parse_digits-digits_onto :
    (fuel n : ℕ) (out : Bytes)
    → n < 10 * 10 ^ fuel
    → parse_digits 0 (digits_onto (suc fuel) n out) ≡ parse_digits n out
unfolding digits_onto
parse_digits-digits_onto zero n out h =
    let small : ltb n 10 ≡ true = ground arith in
    let value : n % 10 ≡ n = omega arith in
    rw (small, value) (parse_digits-digit 0 n n out (omega arith) (omega arith))
parse_digits-digits_onto (suc fuel) n out h = elim (Bool-cases (ltb n 10)) [
  | inl last ↦
      let value : n % 10 ≡ n = ground (arith, last) in
      rw (last, value) (parse_digits-digit 0 n n out (ground (arith, last)) (omega arith))
  | inr long ↦
      let value : n / 10 * 10 + n % 10 ≡ n = omega arith in
      let fits : n / 10 < 10 * 10 ^ fuel = omega (arith, pow-suc 10 fuel) in
      rw long (
        parse_digits-digits_onto fuel (n / 10) ((b'0' + n % 10) ∷ out) fits
        ∙ parse_digits-digit (n / 10) (n % 10) n out (omega arith) value)
]

digits_onto-cons :
    (fuel n : ℕ) (out : Bytes)
    → (d : ℕ) × (ds : Bytes) × (digits_onto (suc fuel) n out ≡ (b'0' + d) ∷ ds) × (d < 10)
unfolding digits_onto
digits_onto-cons zero n out = elim (Bool-cases (ltb n 10)) [
  | inl last ↦ (n % 10, out, rw last, omega arith)
  | inr long ↦ (n % 10, out, rw long, omega arith)
]
digits_onto-cons (suc fuel) n out = elim (Bool-cases (ltb n 10)) [
  | inl last ↦ (n % 10, out, rw last, omega arith)
  | inr long ↦
      let (d, ds, e, small) = digits_onto-cons fuel (n / 10) ((b'0' + n % 10) ∷ out) in
      (d, ds, rw long e, small)
]

-- A numeral starts with a digit, and is the number that its digits say.
format_nat-digits :
    (n : ℕ)
    → n < 10 ^ 19
    → (d : ℕ) × (ds : Bytes) × (format_nat n ≡ (b'0' + d) ∷ ds)
      × (d < 10)
      × (parse_nat ((b'0' + d) ∷ ds) ≡ some n)
unfolding format_nat parse_nat
format_nat-digits n h =
    let (d, ds, e, small) = digits_onto-cons 18 n [] in
    (
      d,
      ds,
      e,
      small,
      rw (← e) (parse_digits-digits_onto 18 n [] (omega arith) ∙ unfold parse_digits in refl),
    )

digit_unsigned : (d : ℕ) → ((b'0' + d == b'-') ≡ false) × ((b'0' + d == b'+') ≡ false)
digit_unsigned d = ground arith

abbrev pub IsInt64 : ℤ → Type 0
IsInt64 (pos n) = n < 2 ^ 63
IsInt64 (negsuc n) = n < 2 ^ 63

-- Every int64 is read back from its decimal form.
pub parse_int-format_int : (z : ℤ) → IsInt64 z → parse_int (format_int z) ≡ some z
unfolding parse_int format_int positive negative negative_of
parse_int-format_int (pos n) h =
    let (d, ds, e, small, back) = format_nat-digits n (omega arith) in
    let (no_minus, no_plus) = digit_unsigned d in
    rw (e, no_minus, no_plus, back, lt→ltb n int64_limit h)
parse_int-format_int (negsuc n) h =
    let (d, ds, e, small, back) = format_nat-digits (suc n) (omega arith) in
    let above : ltb int64_limit (suc n) ≡ false = ground (arith, h) in rw (e, back, above)

pub to_int64-IsInt64 : (n : ℕ) → IsInt64 (to_int64 n)
unfolding to_int64
to_int64-IsInt64 n = elim (Bool-cases (ltb (n % 2 ^ 64) int64_limit)) [
  | inl low ↦ rw low (ground arith)
  | inr high ↦ rw high (ground arith)
]
