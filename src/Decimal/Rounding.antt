-- ===== src/Decimal/Rounding.antt =====
-- Bounds on the rounding of quotients.
use native.Mathlib.Nat.{pow-suc, add-suc}
use forex_automated_copy_tra.Base.{
  ℕ, zero, suc, ◌+◌, ◌*◌, ◌^◌, ◌≤◌, ◌<◌, ◌≡◌, refl, arith, Bool-cases, ltb, lt→ltb, inl, inr, ◌==◌,
  false,
}
use forex_automated_copy_tra.Decimal.{half_even, shift_up, round28}

-- The error of a half-even quotient is at most one half.
pub half_even-bounds :
    (n d : ℕ)
    → 0 < d
    → (2 * (half_even n d * d) ≤ 2 * n + d) × (2 * n ≤ 2 * (half_even n d * d) + d)
unfolding half_even
half_even-bounds n d h = grind arith

-- With fuel enough the shift ends at a quotient of 28 digits, and the shift is by a power of ten.
pub shift_up_lem :
    (f n d p : ℕ)
    → 10 ^ 27 * d ≤ n * 10 ^ f
    → (10 ^ 27 * d ≤ (shift_up f n d p).0)
      × ((shift_up f n d p).0 * 10 ^ p ≡ n * 10 ^ (shift_up f n d p).1)
unfolding shift_up
shift_up_lem zero n d p h = (omega arith, refl)
shift_up_lem (suc f) n d p h = elim (Bool-cases (ltb n (10 ^ 27 * d))) [
  | inl small ↦
      let ih = shift_up_lem f (n * 10) d (suc p) (omega (arith, rw (pow-suc 10 f) at h)) in
      rw small (ih.0, omega (arith, rw (pow-suc 10 p) at ih.1))
  | inr large ↦ rw large (ground arith, refl)
]

-- The fuel that `round28` gives is enough.
shift_up_fuel : (n d : ℕ) → 0 < n → 10 ^ 27 * suc d ≤ n * 10 ^ (27 + d)
shift_up_fuel n zero h = omega arith
shift_up_fuel n (suc d) h =
    rw (add-suc 27 d, pow-suc 10 (27 + d)) (omega (arith, shift_up_fuel n d h))

pub ne_zero : (n : ℕ) → 0 < n → (n == 0) ≡ false
ne_zero n h = ground arith

-- A quotient below 10 ^ 28 keeps 28 digits: the error is half a unit in the last of them.
pub round28-bounds :
    (n d : ℕ)
    → 0 < n
    → 0 < d
    → n < 10 ^ 28 * d
    → let r = round28 n d in
      (10 ^ 27 * d ≤ n * 10 ^ r.places)
      × (2 * (r.coeff * d) ≤ 2 * (n * 10 ^ r.places) + d)
      × (2 * (n * 10 ^ r.places) ≤ 2 * (r.coeff * d) + d)
unfolding round28
round28-bounds n d hn hd small =
    let up = shift_up_lem (27 + d) n d 0 (omega (arith, shift_up_fuel n d hn)) in
    let near = half_even-bounds (shift_up (27 + d) n d 0).0 d hd in
    rw (ne_zero n hn, lt→ltb n (10 ^ 28 * d) small)
      (omega (arith, up.0, up.1), omega (arith, up.1, near.0), omega (arith, up.1, near.1))
