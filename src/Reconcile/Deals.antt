-- ===== src/Reconcile/Deals.antt =====
-- What becomes of the copies on a net position when its excess is closed.
use forex_automated_copy_tra.Base.{ℕ, List, Option, none, some}
use forex_automated_copy_tra.Text.{Text}
use forex_automated_copy_tra.Mappings.{Mapping}
use forex_automated_copy_tra.Mappings.Volumes.{held_on}
use forex_automated_copy_tra.Drift.Signed.{signed}
use forex_automated_copy_tra.Drift.Items.{PositionSnapshot, DriftItem, DriftKind}
use forex_automated_copy_tra.Drift.Netting.{compare_net}

abbrev kind_of : Option DriftItem → Option DriftKind
kind_of none = none
kind_of (some item) = some item.kind

abbrev volume_of : Option DriftItem → Option (Option ℕ)
volume_of none = none
volume_of (some item) = some item.volume

module _ {F : Type 0} (digest : Text → Text) (account ticket copies : ℕ) where
  -- What the comparison says of copies that all have the position's side.
  abbrev pub compare_copies : List (Mapping F) → PositionSnapshot F → Option DriftItem
  compare_copies rows p =
      compare_net digest account ticket copies (signed p.side (held_on account ticket rows))
        (some p)
