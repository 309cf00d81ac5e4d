-- ===== src/Decimal.antt =====
-- Python's `decimal` for values of zero or more, in its default context: 28 significant digits,
-- ROUND_HALF_EVEN. A value is `coeff / 10 ^ places`; trailing zeros are not told apart, so
-- `normalize` is the identity here.
use forex_automated_copy_tra.Base.{
  ℕ, zero, suc, ◌+◌, ◌*◌, ◌/◌, ◌%◌, ◌^◌, Bool, true, false, Option, none, some, ltb, ◌==◌,
  if◌then◌else◌,
}
pub mod Rounding
pub mod Approx

pub record Decimal : Type 0 where
  pub coeff : ℕ
  pub places : ℕ

abbrev pub of_int : ℕ → Decimal
of_int n = record { coeff = n; places = 0 }

-- n / d to the nearest integer, a tie to the even one.
unfoldable pub half_even : ℕ → ℕ → ℕ
half_even n d =
    if ltb (2 * (n % d)) d
    then n / d
    else if ltb d (2 * (n % d))
    then n / d + 1
    else if n / d % 2 == 0
    then n / d
    else n / d + 1

-- n / d to the nearest integer, a tie upwards.
unfoldable pub half_up : ℕ → ℕ → ℕ
half_up n d = if ltb (2 * (n % d)) d then n / d else n / d + 1

-- Shift the numerator up until the quotient has 28 digits; the second result is the shift.
unfoldable pub shift_up : ℕ → ℕ → ℕ → ℕ → ℕ × ℕ
shift_up zero n d p = (n, p)
shift_up (suc f) n d p =
    let rest = shift_up f (n * 10) d (suc p) in if ltb n (10 ^ 27 * d) then rest else (n, p)

-- Shift the denominator up until the quotient has at most 28 digits.
unfoldable pub shift_down : ℕ → ℕ → ℕ → ℕ → ℕ × ℕ
shift_down zero n d k = (d, k)
shift_down (suc f) n d k =
    let rest = shift_down f n (d * 10) (suc k) in if ltb n (10 ^ 28 * d) then (d, k) else rest

-- The value n / d in the context's precision; `d` is not 0.
unfoldable pub round28 : ℕ → ℕ → Decimal
unfolding half_even shift_up shift_down
round28 n d =
    let (m, p) = shift_up (27 + d) n d 0 in
    let (e, k) = shift_down n n d 0 in
    if n == 0
    then of_int 0
    else if ltb n (10 ^ 28 * d)
    then record { coeff = half_even m d; places = p }
    else of_int (half_even n e * 10 ^ k)

-- `a / b`; `none` is decimal.DivisionByZero (or InvalidOperation for 0 / 0).
unfoldable pub div : Decimal → Decimal → Option Decimal
unfolding round28
div a b =
    if b.coeff == 0
    then none
    else some (round28 (a.coeff * 10 ^ b.places) (b.coeff * 10 ^ a.places))

-- `a * b`
unfoldable pub mul : Decimal → Decimal → Decimal
unfolding round28
mul a b = round28 (a.coeff * b.coeff) (10 ^ (a.places + b.places))

-- `int(a)`
unfoldable pub to_int : Decimal → ℕ
to_int a = a.coeff / 10 ^ a.places

-- `a.to_integral_value(rounding=ROUND_HALF_UP)`
unfoldable pub to_integral_half_up : Decimal → ℕ
unfolding half_up
to_integral_half_up a = half_up a.coeff (10 ^ a.places)
