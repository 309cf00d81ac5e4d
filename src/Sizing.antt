-- ===== src/Sizing.antt =====
-- copier/src/copier/domain/sizing.py: lots, protocol volumes, and the copy's size. Volumes and lot
-- sizes are whole numbers of zero or more; `none` is the exception that a division by 0 raises.
pub mod Close
pub mod Mirror
use forex_automated_copy_tra.Base.{ℕ, ◌+◌, ◌*◌, ◌/◌, min, Option, none, some, ◌==◌, if◌then◌else◌}
use forex_automated_copy_tra.Decimal.{Decimal, of_int, div, mul, to_int, to_integral_half_up}

infixl 5 ◌>>=◌
abbrev pub ◌>>=◌ {ℓ κ} : {A : Type ℓ} {B : Type κ} → Option A → (A → Option B) → Option B
none >>= f = none
some a >>= f = f a

unfoldable pub protocol_volume_to_lots : ℕ → ℕ → Option Decimal
protocol_volume_to_lots volume lot_size = div (of_int volume) (of_int lot_size)

unfoldable pub lots_to_protocol_volume : Decimal → ℕ → ℕ
lots_to_protocol_volume lots lot_size = to_integral_half_up (mul lots (of_int lot_size))

unfoldable pub floor_to_step : ℕ → ℕ → ℕ
floor_to_step volume step_volume =
    if step_volume == 0 then volume else volume / step_volume * step_volume

unfoldable pub mirror_volume : ℕ → ℕ → Decimal → ℕ → ℕ → Option ℕ
unfolding protocol_volume_to_lots lots_to_protocol_volume
mirror_volume master_volume master_lot_size multiplier slave_lot_size slave_step_volume = do
  master_lots ← protocol_volume_to_lots master_volume master_lot_size
  let lots = mul master_lots multiplier
  some (floor_to_step (lots_to_protocol_volume lots slave_lot_size) slave_step_volume)

unfoldable pub partial_close_volume : ℕ → ℕ → ℕ → ℕ → Option ℕ
partial_close_volume slave_volume closed_volume remaining_volume step_volume =
    if remaining_volume == 0 then some slave_volume else do
      let total = closed_volume + remaining_volume
      exact ← div (mul (of_int slave_volume) (of_int closed_volume)) (of_int total)
      some (min (floor_to_step (to_int exact) step_volume) slave_volume)
