-- ===== src/Tests/SizingTests.antt =====
-- Sizes of copies and closes: a 0.33x slave with lots of 100,000 units, and ids.
use forex_automated_copy_tra.Base.{
  ℕ, ◌+◌, ◌*◌, ◌/◌, ◌^◌, ◌<◌, ◌≡◌, refl, arith, some, none, min, ◌==◌, if◌then◌else◌,
}
use forex_automated_copy_tra.Decimal.{Decimal, div, mul, to_int, to_integral_half_up}
use forex_automated_copy_tra.Sizing.{floor_to_step, mirror_volume, partial_close_volume}
use forex_automated_copy_tra.Sizing.Mirror.{mirror_volume-near, mirror_volume-exact}
use forex_automated_copy_tra.Sizing.Close.{partial_close_volume-exact}

abbrev third : Decimal
third = record { coeff = 3333; places = 4 }

copies_third : mirror_volume 10_000_000 10_000_000 third 10_000_000 100_000 ≡ some 3_300_000
unfolding mirror_volume floor_to_step div mul to_integral_half_up
copies_third = refl

-- 1 / 3 lots have no finite decimal expansion; the copy is whole again all the same.
copies_thirds : mirror_volume 1 3 (record { coeff = 1; places = 0 }) 3 1 ≡ some 1
unfolding mirror_volume floor_to_step div mul to_integral_half_up
copies_thirds = refl

no_lot_size : mirror_volume 100 0 third 100 1 ≡ none
unfolding mirror_volume div
no_lot_size = refl

closes_third : partial_close_volume 1000 100 200 10 ≡ some 330
unfolding partial_close_volume floor_to_step div mul to_int
closes_third = refl

mirror_volume-near_example :
    (v : ℕ) × (mirror_volume 50 3 third 7 10 ≡ some (floor_to_step v 10))
    × (v * (3 * 10 ^ 4) < 50 * 3333 * 7 + 3 * 10 ^ 4)
    × (50 * 3333 * 7 < v * (3 * 10 ^ 4) + 3 * 10 ^ 4)
mirror_volume-near_example =
    mirror_volume-near 50 3 3333 4 7 10 (omega arith) (omega arith) (omega arith) (omega arith)
      (omega arith) (omega arith)

mirror_volume-exact_example : mirror_volume 3 3 third 20000 100 ≡ some (floor_to_step 6666 100)
mirror_volume-exact_example =
    mirror_volume-exact 3 3 3333 4 20000 100 6666 (omega arith) (omega arith) (omega arith)
      (omega arith) (omega arith) (omega arith) (omega arith)

partial_close_volume-exact_example :
    partial_close_volume 1000 100 200 10
    ≡ some (if 200 == 0 then 1000 else min (floor_to_step (1000 * 100 / (100 + 200)) 10) 1000)
partial_close_volume-exact_example = partial_close_volume-exact 1000 100 200 10 (omega arith)
