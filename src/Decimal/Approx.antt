-- ===== src/Decimal/Approx.antt =====
-- Chains of 28-digit roundings: bounds on their relative error, with the denominators multiplied
-- out. One rounding of n / d to c / t has `N * (c * d) ≤ (N + 1) * (n * t)` and
-- `(N - 1) * (n * t) ≤ N * (c * d)` for N = 2 * 10 ^ 27.
use native.Mathlib.Nat.{
  pow-suc, add-suc, mul-le-mul_right, le_of_mul-le-mul_right, add-zero, mul-one,
}
use forex_automated_copy_tra.Base.{ℕ, zero, suc, ◌+◌, ◌-◌, ◌*◌, ◌^◌, ◌≤◌, ◌<◌, ◌≡◌, arith}
use forex_automated_copy_tra.Decimal.{round28}
use forex_automated_copy_tra.Decimal.Rounding.{round28-bounds}

pub mul-pos : {a b : ℕ} → 0 < a → 0 < b → 0 < a * b
mul-pos {a} {b} ha hb = grind arith

pub pow10-pos : (p : ℕ) → 0 < 10 ^ p
pow10-pos zero = omega arith
pow10-pos (suc p) = rw (pow-suc 10 p) (omega (arith, pow10-pos p))

pub pow10-add : (p q : ℕ) → 10 ^ (p + q) ≡ 10 ^ p * 10 ^ q
pow10-add p zero = rw (add-zero p, mul-one (10 ^ p))
pow10-add p (suc q) =
    rw (add-suc p q, pow-suc 10 (p + q), pow-suc 10 q, pow10-add p q) (omega arith)

abbrev pub unit : ℕ
unit = 2 * 10 ^ 27

-- c / t is n / d up to one rounding.
abbrev pub IsRounded : ℕ → ℕ → ℕ → ℕ → Type 0
IsRounded n d c t =
    (unit * (c * d) ≤ (unit + 1) * (n * t)) × ((unit - 1) * (n * t) ≤ unit * (c * d))

pub round28-IsRounded :
    (n d : ℕ)
    → 0 < n
    → 0 < d
    → n < 10 ^ 28 * d
    → let r = round28 n d in IsRounded n d r.coeff (10 ^ r.places)
round28-IsRounded n d hn hd small =
    let b = round28-bounds n d hn hd small in (omega (arith, b.0, b.1), omega (arith, b.0, b.2))

-- A bound from above on a product of two approximate factors.
pub compose_above :
    (K M N Q n d c t m e c' t' : ℕ)
    → 0 < t
    → K * (c * d) ≤ M * (n * t)
    → N * (c' * (t * e)) ≤ Q * (c * m * t')
    → K * N * (c' * (d * e)) ≤ M * Q * (n * m * t')
compose_above K M N Q n d c t m e c' t' ht h h' =
    le_of_mul-le-mul_right {k = t}
      (omega (arith, mul-le-mul_right (K * d) h', mul-le-mul_right (Q * m * t') h)) ht

-- A bound from below.
pub compose_below :
    (K M N Q n d c t m e c' t' : ℕ)
    → 0 < t
    → M * (n * t) ≤ K * (c * d)
    → Q * (c * m * t') ≤ N * (c' * (t * e))
    → M * Q * (n * m * t') ≤ K * N * (c' * (d * e))
compose_below K M N Q n d c t m e c' t' ht h h' =
    le_of_mul-le-mul_right {k = t}
      (omega (arith, mul-le-mul_right (K * d) h', mul-le-mul_right (Q * m * t') h)) ht

-- An approximate value times a factor stays below any bound of the exact product.
pub approx-le :
    (K M B n d c t m e : ℕ)
    → 0 < d
    → K * (c * d) ≤ M * (n * t)
    → n * m ≤ B * (d * e)
    → K * (c * m) ≤ M * B * (t * e)
approx-le K M B n d c t m e hd h bound =
    le_of_mul-le-mul_right {k = d}
      (omega (arith, mul-le-mul_right m h, mul-le-mul_right (M * t) bound)) hd

-- An approximate value of something positive is positive.
pub approx-pos : (K Q n d c t : ℕ) → 0 < n → 0 < t → 0 < Q → Q * (n * t) ≤ K * (c * d) → 0 < c
approx-pos K Q n d zero t hn ht hq h = absurd (omega (arith, mul-pos (mul-pos hn ht) hq))
approx-pos K Q n d (suc c) t hn ht hq h = omega arith
