-- ===== src/Drift/Compute.antt =====
-- compute_drift as a whole. `now` is what `now or datetime.now(timezone.utc)` gives, and a set or a
-- dict that is left out is an empty one.
use forex_automated_copy_tra.Base.{
  ℕ, Bool, true, false, Option, List, [], ◌∷◌, ◌++◌, if◌then◌else◌, ◌==◌, Dict, ltb,
}
use forex_automated_copy_tra.Text.{Text}
use forex_automated_copy_tra.Models.{Side}
use forex_automated_copy_tra.Drift.Items.{
  PositionSnapshot, MappingRow, DriftItem, Pair, found, by_slave_pos, mapped_masters,
}
use forex_automated_copy_tra.Drift.Checks.{
  orphan_positions, missing_copy, unmapped_master, unfilled_order, stale_pending,
}
use forex_automated_copy_tra.Drift.Netting.{
  net_groups, compared_groups, keys_of, sort_groups, net_volume,
}

abbrev pub stale_pending_after : ℕ
stale_pending_after = 300

-- Texts compare by the first character that differs.
abbrev pub text_before : Text → Text → Bool
text_before [] t = true
text_before (c ∷ s) [] = false
text_before (c ∷ s) (d ∷ t) = let rest = text_before s t in if c == d then rest else ltb c d

-- Before the first item with a later id.
unfoldable pub place_item : DriftItem → List DriftItem → List DriftItem
place_item item [] = item ∷ []
place_item item (next ∷ items) =
    let rest = place_item item items in
    if text_before item.id next.id then item ∷ next ∷ items else next ∷ rest

-- `drift_items.sort(key=lambda item: item.id)`, which keeps the order of equal ids.
unfoldable pub sort_items : List DriftItem → List DriftItem
unfolding place_item
sort_items [] = []
sort_items (item ∷ items) = place_item item (sort_items items)

pub record Fleet (F : Type 0) : Type 0 where
  pub master_positions : List (PositionSnapshot F)
  pub slave_positions : Dict (List (PositionSnapshot F))
  pub mappings : List MappingRow
  pub enabled_slave_ids : List ℕ
  pub netting_slave_ids : List ℕ
  pub mapping_sides : Text → Option Side

-- The groups that check 6 compares.
abbrev pub compared : {F : Type 0} → Fleet F → List (Pair × List MappingRow)
compared fleet =
    compared_groups fleet.mapping_sides (net_groups fleet.netting_slave_ids fleet.mappings [])

module _ {F : Type 0} (digest : Text → Text) (fleet : Fleet F) where
  -- What each check appends.
  abbrev pub orphans : List DriftItem
  orphans =
      orphan_positions digest fleet.master_positions (by_slave_pos fleet.mappings [])
        fleet.enabled_slave_ids fleet.slave_positions

  abbrev pub missing_copies : List DriftItem
  missing_copies =
      found
        (missing_copy digest fleet.master_positions fleet.slave_positions fleet.enabled_slave_ids
          (keys_of (compared fleet)))
        fleet.mappings

  abbrev pub unmapped_masters : List DriftItem
  unmapped_masters =
      found (unmapped_master digest (mapped_masters fleet.mappings)) fleet.master_positions

  abbrev pub unfilled_orders : List DriftItem
  unfilled_orders =
      found (unfilled_order digest fleet.slave_positions fleet.enabled_slave_ids) fleet.mappings

  abbrev pub stale_copies : ℕ → ℕ → Bool → List DriftItem
  stale_copies now stale_after dry_run =
      if dry_run
      then []
      else found (stale_pending digest now stale_after fleet.enabled_slave_ids) fleet.mappings

  abbrev pub net_volumes : List DriftItem
  net_volumes =
      found (net_volume digest fleet.mapping_sides fleet.slave_positions fleet.enabled_slave_ids)
        (sort_groups (compared fleet))

  unfoldable pub drift_items : ℕ → ℕ → Bool → List DriftItem
  drift_items now stale_after dry_run =
      orphans
      ++ (missing_copies
          ++ (unmapped_masters
              ++ (unfilled_orders ++ (stale_copies now stale_after dry_run ++ net_volumes))))

unfoldable pub compute_drift :
    {F : Type 0} → (Text → Text) → ℕ → ℕ → Bool → Fleet F → List DriftItem
unfolding sort_items drift_items
compute_drift digest now stale_after dry_run fleet =
    sort_items (drift_items digest fleet now stale_after dry_run)
