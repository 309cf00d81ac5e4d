-- ===== src/Sizing/Mirror.antt =====
-- The size of a copy: three roundings to 28 digits and one to a whole number.
use native.Mathlib.Nat.{
  mul-le-mul_right, le_of_mul-le-mul_right, mul-one, add-zero, lt_of_mul-lt-mul_right,
}
use forex_automated_copy_tra.Base.{ℕ, ◌+◌, ◌-◌, ◌*◌, ◌^◌, ◌≤◌, ◌<◌, ◌≡◌, some, arith}
use forex_automated_copy_tra.Decimal.{Decimal, of_int, mul, half_up, to_integral_half_up, round28}
use forex_automated_copy_tra.Decimal.Approx.{
  unit, IsRounded, round28-IsRounded, approx-le, approx-pos, mul-pos, compose_above, compose_below,
  pow10-add, pow10-pos,
}
use forex_automated_copy_tra.Sizing.{floor_to_step, mirror_volume, lots_to_protocol_volume}
use forex_automated_copy_tra.Sizing.Close.{div-of_int}

pub half_up-bounds :
    (n d : ℕ) → 0 < d → (2 * (half_up n d * d) ≤ 2 * n + d) × (2 * n < 2 * (half_up n d * d) + d)
unfolding half_up
half_up-bounds n d h = grind arith

near_above :
    (c T D I v : ℕ)
    → 0 < T
    → 0 < D
    → I ≤ 10 ^ 26 * D
    → unit * unit * unit * (c * D) ≤ (unit + 1) * (unit + 1) * (unit + 1) * (I * T)
    → 2 * (v * T) ≤ 2 * c + T
    → v * D < I + D
near_above c T D I v hT hD small h half =
    let cancelled : unit * unit * unit * (2 * (v * D))
        ≤ 2 * ((unit + 1) * (unit + 1) * (unit + 1)) * I + unit * unit * unit * D =
      le_of_mul-le-mul_right {k = T} (omega (arith, mul-le-mul_right D half, h)) hT in
    omega (arith, cancelled)

near_below :
    (c T D I v : ℕ)
    → 0 < T
    → 0 < D
    → I ≤ 10 ^ 26 * D
    → (unit - 1) * (unit - 1) * (unit - 1) * (I * T) ≤ unit * unit * unit * (c * D)
    → 2 * c < 2 * (v * T) + T
    → I < v * D + D
near_below c T D I v hT hD small h half =
    let cancelled : 2 * ((unit - 1) * (unit - 1) * (unit - 1)) * I
        ≤ unit * unit * unit * (2 * (v * D)) + unit * unit * unit * D =
      le_of_mul-le-mul_right {k = T} (omega (arith, mul-le-mul_right D half, h)) hT in
    omega (arith, cancelled)

-- The ideal copy is V * m * S / (L * J): the master's volume and lot size, the multiplier m / J,
-- and the slave's lot size.
module _ (V L m j S : ℕ) (hV : 0 < V) (hL : 0 < L) (hm : 0 < m) (hS : 0 < S)
    (lots_small : V ≤ 10 ^ 26 * L) (copy_small : V * m * S ≤ 10 ^ 26 * (L * 10 ^ j)) where
  abbrev master_lots : Decimal
  master_lots = round28 V L

  abbrev slave_lots : Decimal
  slave_lots = round28 (master_lots.coeff * m) (10 ^ (master_lots.places + j))

  abbrev slave_units : Decimal
  slave_units = round28 (slave_lots.coeff * S) (10 ^ slave_lots.places)

  master_lots-IsRounded : IsRounded V L master_lots.coeff (10 ^ master_lots.places)
  master_lots-IsRounded = round28-IsRounded V L hV hL (omega arith)

  volume_small : V * m ≤ 10 ^ 26 * (L * 10 ^ j)
  volume_small = grind (arith, copy_small)

  slave_lots-IsRounded :
      IsRounded
        (master_lots.coeff * m)
        (10 ^ master_lots.places * 10 ^ j)
        slave_lots.coeff
        (10 ^ slave_lots.places)
  slave_lots-IsRounded = rw (← pow10-add master_lots.places j) (
      round28-IsRounded (master_lots.coeff * m) (10 ^ (master_lots.places + j))
        (mul-pos
          (approx-pos unit (unit - 1) V L master_lots.coeff (10 ^ master_lots.places) hV
            (pow10-pos _) (omega arith) master_lots-IsRounded.1)
          hm)
        (pow10-pos _)
        (rw (pow10-add master_lots.places j) (
          omega (
            arith,
            approx-le unit (unit + 1) (10 ^ 26) V L master_lots.coeff (10 ^ master_lots.places) m
                (10 ^ j) hL master_lots-IsRounded.0 volume_small,
            mul-pos (pow10-pos master_lots.places) (pow10-pos j),
          ))))

  -- two roundings together
  slave_lots_near :
      (unit * unit * (slave_lots.coeff * (L * 10 ^ j))
        ≤ (unit + 1) * (unit + 1) * (V * m * 10 ^ slave_lots.places))
      × ((unit - 1) * (unit - 1) * (V * m * 10 ^ slave_lots.places)
          ≤ unit * unit * (slave_lots.coeff * (L * 10 ^ j)))
  slave_lots_near = (
    compose_above unit (unit + 1) unit (unit + 1) V L master_lots.coeff (10 ^ master_lots.places) m
        (10 ^ j) slave_lots.coeff (10 ^ slave_lots.places) (pow10-pos _) master_lots-IsRounded.0
        slave_lots-IsRounded.0,
    compose_below unit (unit - 1) unit (unit - 1) V L master_lots.coeff (10 ^ master_lots.places) m
        (10 ^ j) slave_lots.coeff (10 ^ slave_lots.places) (pow10-pos _) master_lots-IsRounded.1
        slave_lots-IsRounded.1,
  )

  slave_units-IsRounded :
      IsRounded
        (slave_lots.coeff * S)
        (10 ^ slave_lots.places * 1)
        slave_units.coeff
        (10 ^ slave_units.places)
  slave_units-IsRounded = rw (mul-one (10 ^ slave_lots.places)) (
      round28-IsRounded (slave_lots.coeff * S) (10 ^ slave_lots.places)
        (mul-pos
          (approx-pos (unit * unit) ((unit - 1) * (unit - 1)) (V * m) (L * 10 ^ j) slave_lots.coeff
            (10 ^ slave_lots.places) (mul-pos hV hm) (pow10-pos _) (omega arith) slave_lots_near.1)
          hS)
        (pow10-pos _)
        (omega (
          arith,
          approx-le (unit * unit) ((unit + 1) * (unit + 1)) (10 ^ 26) (V * m) (L * 10 ^ j)
              slave_lots.coeff (10 ^ slave_lots.places) S 1 (mul-pos hL (pow10-pos j))
              slave_lots_near.0 (omega (arith, copy_small)),
          pow10-pos slave_lots.places,
        )))

  slave_units_near :
      (unit * unit * unit * (slave_units.coeff * (L * 10 ^ j * 1))
        ≤ (unit + 1) * (unit + 1) * (unit + 1) * (V * m * S * 10 ^ slave_units.places))
      × ((unit - 1) * (unit - 1) * (unit - 1) * (V * m * S * 10 ^ slave_units.places)
          ≤ unit * unit * unit * (slave_units.coeff * (L * 10 ^ j * 1)))
  slave_units_near = (
    compose_above (unit * unit) ((unit + 1) * (unit + 1)) unit (unit + 1) (V * m) (L * 10 ^ j)
        slave_lots.coeff (10 ^ slave_lots.places) S 1 slave_units.coeff (10 ^ slave_units.places)
        (pow10-pos _) slave_lots_near.0 slave_units-IsRounded.0,
    compose_below (unit * unit) ((unit - 1) * (unit - 1)) unit (unit - 1) (V * m) (L * 10 ^ j)
        slave_lots.coeff (10 ^ slave_lots.places) S 1 slave_units.coeff (10 ^ slave_units.places)
        (pow10-pos _) slave_lots_near.1 slave_units-IsRounded.1,
  )

  -- The volume before the flooring is within one unit of the ideal copy.
  slave_volume_near :
      let v = half_up slave_units.coeff (10 ^ slave_units.places) in
      (v * (L * 10 ^ j) < V * m * S + L * 10 ^ j) × (V * m * S < v * (L * 10 ^ j) + L * 10 ^ j)
  slave_volume_near = (
    near_above slave_units.coeff (10 ^ slave_units.places) (L * 10 ^ j) (V * m * S) _ (pow10-pos _)
        (mul-pos hL (pow10-pos j)) copy_small (omega (arith, slave_units_near.0))
        (half_up-bounds slave_units.coeff (10 ^ slave_units.places) (pow10-pos _)).0,
    near_below slave_units.coeff (10 ^ slave_units.places) (L * 10 ^ j) (V * m * S) _ (pow10-pos _)
        (mul-pos hL (pow10-pos j)) copy_small (omega (arith, slave_units_near.1))
        (half_up-bounds slave_units.coeff (10 ^ slave_units.places) (pow10-pos _)).1,
  )

lots_to_protocol_volume-mul :
    (a b : Decimal) (S : ℕ)
    → let lots = round28 (a.coeff * b.coeff) (10 ^ (a.places + b.places)) in
      let units = round28 (lots.coeff * S) (10 ^ lots.places) in
      lots_to_protocol_volume (mul a b) S ≡ half_up units.coeff (10 ^ units.places)
unfolding mul to_integral_half_up lots_to_protocol_volume
lots_to_protocol_volume-mul a b S = rw add-zero

-- A copy is within one protocol unit of the ideal volume before it is floored to the slave's step:
-- the ideal is V * m * S / (L * 10 ^ j) for a master volume V and lot size L, a multiplier
-- m / 10 ^ j and a slave lot size S, as long as it is at most 10 ^ 26.
pub mirror_volume-near :
    (V L m j S step : ℕ)
    → 0 < V
    → 0 < L
    → 0 < m
    → 0 < S
    → V ≤ 10 ^ 26 * L
    → V * m * S ≤ 10 ^ 26 * (L * 10 ^ j)
    → (v : ℕ) × (mirror_volume V L (record { coeff = m; places = j }) S step
        ≡ some (floor_to_step v step))
      × (v * (L * 10 ^ j) < V * m * S + L * 10 ^ j)
      × (V * m * S < v * (L * 10 ^ j) + L * 10 ^ j)
unfolding mirror_volume
mirror_volume-near V L m j S step hV hL hm hS lots_small copy_small =
    let near = slave_volume_near V L m j S hV hL hm hS lots_small copy_small in
    (
      half_up (slave_units V L m j S hV hL hm hS lots_small copy_small).coeff
          (10 ^ (slave_units V L m j S hV hL hm hS lots_small copy_small).places),
      rw (
        div-of_int (of_int V) L hL,
        mul-one L,
        lots_to_protocol_volume-mul (round28 V L) (record { coeff = m; places = j }) S,
      ),
      near.0,
      near.1,
    )

within_one : (v w D I : ℕ) → I ≡ w * D → v * D < I + D → I < v * D + D → v ≡ w
within_one v w D I e above below = omega (
  arith,
  lt_of_mul-lt-mul_right D {m = v} {n = w + 1} (omega (arith, above, e)),
  lt_of_mul-lt-mul_right D {m = w} {n = v + 1} (omega (arith, below, e)),
)

-- When the ideal copy is a whole volume w, the 28-digit arithmetic finds exactly w, and the copy is
-- w floored to the slave's step.
pub mirror_volume-exact :
    (V L m j S step w : ℕ)
    → 0 < V
    → 0 < L
    → 0 < m
    → 0 < S
    → V ≤ 10 ^ 26 * L
    → V * m * S ≤ 10 ^ 26 * (L * 10 ^ j)
    → V * m * S ≡ w * (L * 10 ^ j)
    → mirror_volume V L (record { coeff = m; places = j }) S step ≡ some (floor_to_step w step)
mirror_volume-exact V L m j S step w hV hL hm hS lots_small copy_small whole =
    let (v, e, above, below) =
      mirror_volume-near V L m j S step hV hL hm hS lots_small copy_small in
    rw (← within_one v w (L * 10 ^ j) (V * m * S) whole above below) e

-- Sizing raises only for a master lot size of 0.
pub mirror_volume-returns :
    (V L : ℕ) (multiplier : Decimal) (S step : ℕ)
    → 0 < L
    → (v : ℕ) × (mirror_volume V L multiplier S step ≡ some v)
unfolding mirror_volume
mirror_volume-returns V L multiplier S step hL = (
  floor_to_step (lots_to_protocol_volume (mul (round28 V L) multiplier) S) step,
  rw (div-of_int (of_int V) L hL, mul-one L),
)
