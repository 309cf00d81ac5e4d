-- ===== src/Outbox/Lots.antt =====
-- The lots of copier/src/copier/mt5/protocol.py, and back to centilots in apply_acks of mt5/outbox.py.
-- A float with two decimals is the number that it is printed as: round gives the float next to that
-- number, and multiplying it by 100 misses the whole number by less than the half that round forgives.
use forex_automated_copy_tra.Base.{
  ℕ, zero, suc, ◌*◌, ◌^◌, false, Option, none, some, ◌==◌, if◌then◌else◌, ◌≡◌, refl, ap, ◌∙◌, arith,
}
use forex_automated_copy_tra.Decimal.{Decimal, half_even}
use forex_automated_copy_tra.Ingress.Book.{centilots}
use forex_automated_copy_tra.Decimal.Rounding.{half_even-bounds}

-- `round(int(volume) / CENTILOTS, 2)`
unfoldable pub lots : ℕ → Decimal
unfolding half_even
lots volume = record { coeff = half_even (volume * 10 ^ 2) centilots; places = 2 }

-- `int(round(float(lots) * 100))`
unfoldable pub in_centilots : Decimal → ℕ
unfolding half_even
in_centilots d = half_even (d.coeff * centilots) (10 ^ d.places)

abbrev pub nonzero : ℕ → Option ℕ
nonzero zero = none
nonzero (suc n) = some (suc n)

-- The volume of a payload's lots: `None` for lots of 0.
unfoldable pub volume_of_lots : Decimal → Option ℕ
unfolding in_centilots
volume_of_lots d = if d.coeff == 0 then none else some (in_centilots d)

half_even_exact : (n : ℕ) → half_even (n * 100) 100 ≡ n
half_even_exact n = omega (arith, half_even-bounds (n * 100) 100 (omega arith))

abbrev hundredths : ℕ → Decimal
hundredths n = record { coeff = n; places = 2 }

volume_of_lots-hundredths : (n : ℕ) → volume_of_lots (hundredths n) ≡ nonzero n
unfolding volume_of_lots
volume_of_lots-hundredths zero = refl
volume_of_lots-hundredths (suc n) =
    let some_lots : (suc n == 0) ≡ false = ground arith in
    rw some_lots (ap some (half_even_exact (suc n)))

-- What a payload's lots say is the volume that they were made of, if it is not 0.
pub volume_of_lots-lots : (volume : ℕ) → volume_of_lots (lots volume) ≡ nonzero volume
unfolding lots
volume_of_lots-lots volume =
    ap (λ n. volume_of_lots (hundredths n)) (half_even_exact volume)
    ∙ volume_of_lots-hundredths volume
