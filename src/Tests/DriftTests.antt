-- ===== src/Tests/DriftTests.antt =====
-- A master with position 1, and the slaves 7 and 8, of which 8 nets.
use mathlib.Core.List.{Memᴰ}
use forex_automated_copy_tra.Base.{ℕ, ◌≡◌, refl, true, false, Option, none, some, [], ◌∷◌, map}
use forex_automated_copy_tra.Text.{codes, str, strip_prefix}
use forex_automated_copy_tra.Models.{buy}
use forex_automated_copy_tra.Mappings.{active}
use forex_automated_copy_tra.Drift.Items.{
  PositionSnapshot, MappingRow, DriftKind, orphan_slave_position, missing_slave_copy, DriftItem,
  by_slave_pos, position_at, mapped_masters,
}
use forex_automated_copy_tra.Drift.Checks.{
  has_label_of, occurs_in, orphan_positions, missing_copy, unmapped_master, unfilled_order,
  stale_pending,
}
use forex_automated_copy_tra.Drift.Netting.{compared_groups, net_groups, net_volume}
use forex_automated_copy_tra.Drift.Compute.{Fleet, compute_drift}
use forex_automated_copy_tra.Drift.Vanished.{compute_drift-missing}

abbrev leading : PositionSnapshot ℕ
leading = record {
  position_id = 1;
  symbol_id = 3;
  side = buy;
  volume = 1000;
  price = 11;
  label = [];
  stop_loss = none;
  take_profit = none;
}

abbrev row : MappingRow
row = record {
  slave_account_id = 7;
  master_position_id = some 1;
  master_order_id = none;
  slave_position_id = some 50;
  slave_order_id = none;
  slave_volume = some 100;
  client_order_id = some (codes "cm1.7");
  status = active;
  created_at = some 0;
}

abbrev fleet : Fleet ℕ
fleet = record {
  master_positions = leading ∷ [];
  slave_positions =
      (7, record leading { position_id = 51; label = codes "copy:m1" } ∷ [])
      ∷ (8, record leading { position_id = 60; volume = 130; label = codes "copy:m1" } ∷ [])
      ∷ [];
  mappings =
      row
      ∷ record row {
        slave_account_id = 8;
        slave_position_id = some 60;
        client_order_id = some (codes "cm1.8");
      }
      ∷ [];
  enabled_slave_ids = 7 ∷ 8 ∷ [];
  netting_slave_ids = 8 ∷ [];
  mapping_sides = λ coid. some buy;
}

-- Slave 7 has a position without a mapping and lacks its copy; slave 8 holds 30 too many.
drift_found :
    map {B = DriftKind × Option ℕ × Option ℕ}
      (λ (i : DriftItem). (i.kind, i.account_id, i.volume))
      (compute_drift (λ t. t) 0 300 false fleet)
    ≡ (missing_slave_copy, some 7, none)
      ∷ (orphan_slave_position, some 8, some 30)
      ∷ (orphan_slave_position, some 7, none)
      ∷ []
unfolding compute_drift orphan_positions strip_prefix by_slave_pos position_at missing_copy
    compared_groups net_groups unmapped_master mapped_masters unfilled_order stale_pending
    net_volume
drift_found = refl

-- The label of order 123's copy counts for order 12, too.
label_of_another_order :
    has_label_of (some 12) (record leading { label = codes "copy:o123" } ∷ []) ≡ true
unfolding occurs_in strip_prefix str
label_of_another_order = refl

compute_drift-missing_example :
    (item : DriftItem) × Memᴰ item (compute_drift (λ t. t) 0 300 false fleet)
    × (item.kind ≡ missing_slave_copy)
    × (item.account_id ≡ some 7)
    × (item.position_id ≡ some 50)
compute_drift-missing_example =
    compute_drift-missing (λ t. t) 0 300 false fleet row leading 50 (Memᴰ.head refl) refl refl refl
      refl refl (Memᴰ.head refl) refl (refl, tt)
