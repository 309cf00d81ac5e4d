-- ===== src/Drift/Repairs.antt =====
-- What closing the volume of an item does to a net position.
use forex_automated_copy_tra.Base.{
  ℕ, zero, suc, ◌-◌, ◌≤◌, ◌≡◌, inl, inr, refl, sym, ap, ◌∙◌, true, false, Option, none, some, arith,
  Bool-cases,
}
use forex_automated_copy_tra.Text.{Text}
use forex_automated_copy_tra.Models.{Side, buy, sell}
use forex_automated_copy_tra.Drift.Signed.{ℤ, pos, negsuc, difference, equals, signed}
use forex_automated_copy_tra.Drift.Items.{PositionSnapshot, DriftItem, orphan_slave_position}
use forex_automated_copy_tra.Drift.Netting.{shortfall, actual_volume, compare_net}

-- An excess is no more than is held, and without it the position holds what is expected.
excess_buy :
    (expected : ℤ) (held : ℕ)
    → equals (pos held) expected ≡ false
    → (shortfall expected (pos held)).0 ≡ false
    → ((shortfall expected (pos held)).1 ≤ held)
      × (equals (pos (held - (shortfall expected (pos held)).1)) expected ≡ true)
excess_buy (pos zero) zero h k = ground arith
excess_buy (pos zero) (suc held) h k = ground arith
excess_buy (pos (suc n)) zero h k = ground arith
excess_buy (pos (suc n)) (suc held) h k = ground arith
excess_buy (negsuc n) zero h k = ground arith
excess_buy (negsuc n) (suc held) h k = ground arith

excess_sell :
    (expected : ℤ) (held : ℕ)
    → equals (difference 0 held) expected ≡ false
    → (shortfall expected (difference 0 held)).0 ≡ false
    → ((shortfall expected (difference 0 held)).1 ≤ held)
      × (equals (difference 0 (held - (shortfall expected (difference 0 held)).1)) expected ≡ true)
excess_sell (pos zero) zero h k = ground arith
excess_sell (pos zero) (suc held) h k = ground arith
excess_sell (pos (suc n)) zero h k = ground arith
excess_sell (pos (suc n)) (suc held) h k = ground arith
excess_sell (negsuc n) zero h k = ground arith
excess_sell (negsuc n) (suc held) h k = ground arith

abbrev pub with_volume : {F : Type 0} → ℕ → PositionSnapshot F → PositionSnapshot F
with_volume volume p = record p { volume = volume }

abbrev volume_of : Option DriftItem → Option ℕ
volume_of none = none
volume_of (some item) = item.volume

module _ {F : Type 0} (digest : Text → Text) (account ticket copies : ℕ) (expected : ℤ) where
  excess :
      (p : PositionSnapshot F)
      → equals (actual_volume (some p)) expected ≡ false
      → (shortfall expected (actual_volume (some p))).0 ≡ false
      → ((shortfall expected (actual_volume (some p))).1 ≤ p.volume)
        × (equals
              (signed p.side (p.volume - (shortfall expected (actual_volume (some p))).1))
              expected
            ≡ true)
  excess p h k = by_side p.side p.volume h k
    where
      by_side :
          (side : Side) (volume : ℕ)
          → equals (signed side volume) expected ≡ false
          → (shortfall expected (signed side volume)).0 ≡ false
          → ((shortfall expected (signed side volume)).1 ≤ volume)
            × (equals (signed side (volume - (shortfall expected (signed side volume)).1)) expected
                ≡ true)
      by_side buy volume h k = excess_buy expected volume h k
      by_side sell volume h k = excess_sell expected volume h k

  -- Where a net position is reported as holding too much, the item's volume is no more than the position
  -- holds, and once that much of it is closed the comparison reports nothing.
  pub compare_net-repairs :
      (p : PositionSnapshot F) (item : DriftItem)
      → compare_net digest account ticket copies expected (some p) ≡ some item
      → item.kind ≡ orphan_slave_position
      → (v : ℕ) × (item.volume ≡ some v)
        × (v ≤ p.volume)
        × (compare_net digest account ticket copies expected (some (with_volume (p.volume - v) p))
            ≡ none)
  unfolding compare_net
  compare_net-repairs p item h kind = elim (Bool-cases (equals (actual_volume (some p)) expected)) [
    | inl same ↦ absurd (ground (arith, same, h))
    | inr differs ↦ elim (Bool-cases (shortfall expected (actual_volume (some p))).0) [
      | inl short ↦ absurd (ground (arith, differs, short, h, kind))
      | inr over ↦
          let enough = excess p differs over in
          (
            (shortfall expected (actual_volume (some p))).1,
            ap volume_of (sym h) ∙ rw (compare_net, differs) refl,
            enough.0,
            rw (compare_net, enough.1) refl,
          )
    ]
  ]
