-- ===== src/Sizing/Close.antt =====
-- A slave's share of a partial close, and steps of volume.
use native.Mathlib.Nat.{
  div-add-mod', mul-one, mod-lt, mul-mod_left, mul-le-mul_right, div-mul-le_self, div-eq_of_lt-le,
  le_of_mul-le-mul_right,
}
use forex_automated_copy_tra.Base.{
  ℕ, ◌+◌, ◌*◌, ◌/◌, ◌%◌, ◌^◌, min, ◌≤◌, ◌<◌, ◌≡◌, refl, ap, sym, some, arith, ◌==◌, Option,
  Bool-cases, inl, inr, ==_iff, if◌then◌else◌,
}
use forex_automated_copy_tra.Decimal.{Decimal, of_int, div, mul, to_int, round28}
use forex_automated_copy_tra.Decimal.Rounding.{round28-bounds, ne_zero}
use forex_automated_copy_tra.Decimal.Approx.{pow10-pos}
use forex_automated_copy_tra.Sizing.{floor_to_step, partial_close_volume, ◌>>=◌}

-- What is floored to a step is never more than it was, falls short by less than one step, and is
-- a whole number of steps.
pub floor_to_step_bounds :
    (volume step : ℕ)
    → 0 < step
    → (floor_to_step volume step ≤ volume)
      × (volume < floor_to_step volume step + step)
      × (floor_to_step volume step % step ≡ 0)
unfolding floor_to_step
floor_to_step_bounds volume step h =
    ground (arith, div-add-mod' volume step, mod-lt volume h, mul-mod_left (volume / step) step)

pub floor_to_step-le : (volume step : ℕ) → floor_to_step volume step ≤ volume
unfolding floor_to_step
floor_to_step-le volume step = ground (arith, div-mul-le_self volume step)

-- A product of whole numbers below 28 digits is exact.
mul-of_int :
    (a b : ℕ)
    → 0 < a * b
    → a * b < 10 ^ 28
    → let r = mul (of_int a) (of_int b) in r.coeff ≡ a * b * 10 ^ r.places
unfolding mul
mul-of_int a b h k = omega (arith, round28-bounds (a * b) 1 h (omega arith) (omega arith))

-- The same bounds, in the unknowns that the arithmetic turns on: the quotient, the remainder and
-- the power of ten.
quotient_bounds :
    (n d q r c P : ℕ)
    → n ≡ q * d + r
    → r < d
    → d ≤ P
    → 2 * (c * d) ≤ 2 * (n * P) + d
    → 2 * (n * P) ≤ 2 * (c * d) + d
    → (q * P ≤ c) × (c < (q + 1) * P)
quotient_bounds n d q r c P e hr hd above below = (
  grind (arith, ap (λ (t : ℕ). t * P) e, λ (l : c + 1 ≤ q * P). mul-le-mul_right d l),
  grind (
    arith,
    ap (λ (t : ℕ). t * P) e,
    mul-le-mul_right P hr,
    λ (l : (q + 1) * P ≤ c). mul-le-mul_right d l,
  ),
)

-- The integer part of a 28-digit quotient is the integer quotient.
to_int-quotient :
    (n k d c p : ℕ)
    → n ≤ 10 ^ 27
    → 0 < k
    → 0 < d
    → 10 ^ 27 * (d * k) ≤ n * k * 10 ^ p
    → 2 * (c * (d * k)) ≤ 2 * (n * k * 10 ^ p) + d * k
    → 2 * (n * k * 10 ^ p) ≤ 2 * (c * (d * k)) + d * k
    → c / 10 ^ p ≡ n / d
to_int-quotient n k d c p hn hk hd h1 h2 h3 =
    let P : ℕ = 10 ^ p in
    let lead : 10 ^ 27 * d ≤ n * P = le_of_mul-le-mul_right {k = k} (omega arith) hk in
    let room : d ≤ P =
      le_of_mul-le-mul_right {k = 10 ^ 27} (omega (arith, lead, mul-le-mul_right P hn))
        (omega arith) in
    let above : 2 * (c * d) ≤ 2 * (n * P) + d = le_of_mul-le-mul_right {k = k} (omega arith) hk in
    let below : 2 * (n * P) ≤ 2 * (c * d) + d = le_of_mul-le-mul_right {k = k} (omega arith) hk in
    let b =
      quotient_bounds n d (n / d) (n % d) c P (sym (div-add-mod' n d)) (mod-lt n hd) room above
        below in
    div-eq_of_lt-le P b.0 b.1

pub div-of_int :
    (x : Decimal) (d : ℕ) → 0 < d → div x (of_int d) ≡ some (round28 x.coeff (d * 10 ^ x.places))
unfolding div
div-of_int x d h = rw (ne_zero d h, mul-one)

mul-of_int_zero : (a b : ℕ) → a * b ≡ 0 → mul (of_int a) (of_int b) ≡ of_int 0
unfolding mul round28
mul-of_int_zero a b h = rw h

round28-zero : (d : ℕ) → round28 0 d ≡ of_int 0
unfolding round28
round28-zero d = refl

to_int-round28 :
    (n k d : ℕ) → 0 < n → n ≤ 10 ^ 27 → 0 < k → 0 < d → to_int (round28 (n * k) (d * k)) ≡ n / d
unfolding to_int
to_int-round28 n k d hn small hk hd =
    let fits : n * k < 10 ^ 28 * (d * k) =
      grind (arith, mul-le-mul_right k small, mul-le-mul_right k hd) in
    let b = round28-bounds (n * k) (d * k) (grind arith) (grind arith) fits in
    to_int-quotient n k d (round28 (n * k) (d * k)).coeff (round28 (n * k) (d * k)).places small hk
      hd b.0 b.1 b.2

-- The Decimal quotient of a product by a total, cut to an integer, is the integer quotient.
to_int-div-mul :
    (a b d : ℕ)
    → 0 < d
    → a * b ≤ 10 ^ 27
    → (div (mul (of_int a) (of_int b)) (of_int d) >>= λ e. some (to_int e)) ≡ some (a * b / d)
unfolding to_int
to_int-div-mul a b d hd small = elim (Bool-cases (a * b == 0)) [
  | inl zero_product ↦
      let e = (==_iff (a * b) 0).0 zero_product in
      rw (mul-of_int_zero a b e, div-of_int (of_int 0) d hd, round28-zero, e) (ground arith)
  | inr product ↦
      let e = mul-of_int a b (ground arith) (omega arith) in
      let t =
        to_int-round28 (a * b) (10 ^ (mul (of_int a) (of_int b)).places) d (ground arith) small
          (pow10-pos _) hd in
      rw (div-of_int (mul (of_int a) (of_int b)) d hd, e) (ap {B = Option ℕ} some t)
]

-- For a product of volumes up to 10 ^ 27 the slave closes its exact share, floored to a step and
-- never more than it holds; when nothing remains on the master it closes all that it holds.
pub partial_close_volume-exact :
    (slave_volume closed remaining step : ℕ)
    → slave_volume * closed ≤ 10 ^ 27
    → partial_close_volume slave_volume closed remaining step
      ≡ some (
          if remaining == 0
          then slave_volume
          else min (floor_to_step (slave_volume * closed / (closed + remaining)) step) slave_volume)
unfolding partial_close_volume
partial_close_volume-exact slave_volume closed remaining step h =
    elim (Bool-cases (remaining == 0)) [
      | inl full ↦ rw full
      | inr part ↦
          rw part (
            ground
              (arith, to_int-div-mul slave_volume closed (closed + remaining) (ground arith) h))
    ]

-- Whatever the volumes, the close is some volume, and never more than the slave holds.
pub partial_close_volume-le :
    (slave_volume closed remaining step : ℕ)
    → (v : ℕ) × (partial_close_volume slave_volume closed remaining step ≡ some v)
      × (v ≤ slave_volume)
unfolding partial_close_volume
partial_close_volume-le slave_volume closed remaining step = elim (Bool-cases (remaining == 0)) [
  | inl full ↦ (slave_volume, rw full, omega arith)
  | inr part ↦
      let share = mul (of_int slave_volume) (of_int closed) in
      let total = closed + remaining in
      let exact = round28 share.coeff (total * 10 ^ share.places) in
      (
        min (floor_to_step (to_int exact) step) slave_volume,
        rw (part, div-of_int share total (ground arith)),
        omega arith,
      )
]

-- A full close on the master closes all that the slave holds.
pub partial_close_volume-all :
    (slave_volume closed remaining step : ℕ)
    → remaining ≡ 0
    → partial_close_volume slave_volume closed remaining step ≡ some slave_volume
unfolding partial_close_volume
partial_close_volume-all slave_volume closed remaining step h = rw h
