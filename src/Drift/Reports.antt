-- ===== src/Drift/Reports.antt =====
-- What compute_drift reports: whom its items are about, and which copies it cannot miss.
use forex_automated_copy_tra.Base.{
  ℕ, Bool, true, false, not, ◌&&◌, Option, none, some, List, [], ◌∷◌, contains,
}
use forex_automated_copy_tra.Text.{Text}
use forex_automated_copy_tra.Drift.Items.{unmapped_master_position, stale_pending_copy, DriftItem}

-- A test on the items that a check may report.
abbrev holds : (DriftItem → Bool) → Option DriftItem → Bool
holds test none = true
holds test (some item) = test item

abbrev every : (DriftItem → Bool) → List DriftItem → Bool
every test [] = true
every test (item ∷ items) = test item && every test items

-- An item about the master, or about a slave that copies are made for.
abbrev pub is_watched : List ℕ → Bool → DriftItem → Bool
is_watched enabled dry_run item = elim item.kind [
  | unmapped_master_position ↦ true
  | stale_pending_copy ↦ not dry_run && is_enabled item.account_id
  | _ ↦ is_enabled item.account_id
]
  where
    is_enabled : Option ℕ → Bool
    is_enabled none = false
    is_enabled (some account) = contains account enabled
