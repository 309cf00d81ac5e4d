-- ===== src/Drift/Checks.antt =====
-- The checks of compute_drift that look at one position or one row at a time.
use forex_automated_copy_tra.Base.{
  ℕ, ◌+◌, ◌-◌, Bool, true, false, not, ◌&&◌, ◌||◌, Option, none, some, List, [], ◌∷◌, ◌++◌,
  if◌then◌else◌, ◌==◌, Dict, contains, ltb,
}
use forex_automated_copy_tra.Text.{Text, codes, str, strip_prefix}
use forex_automated_copy_tra.Mappings.{MappingStatus, pending, is_active}
use forex_automated_copy_tra.Drift.Items.{
  PositionSnapshot, MappingRow, orphan_slave_position, missing_slave_copy, unmapped_master_position,
  unfilled_slave_order, stale_pending_copy, Detail, master_gone, no_active_mapping, copy_vanished,
  opened_while_down, never_materialized, never_activated, DriftItem, stable_id, present,
  str_or_none, text_or_none, found, Pair, get_pair, position_at, is_known, positions_of,
}

-- `label.startswith("copy:")`
abbrev pub is_copy_label : Text → Bool
is_copy_label label = elim (strip_prefix (codes "copy:") label) [ none ↦ false | some rest ↦ true ]

-- `needle in text`
unfoldable pub occurs_in : Text → Text → Bool
occurs_in needle [] = elim (strip_prefix needle []) [ none ↦ false | some rest ↦ true ]
occurs_in needle (c ∷ text) =
    let later = occurs_in needle text in
    elim (strip_prefix needle (c ∷ text)) [ none ↦ later | some rest ↦ true ]

abbrev pub is_pending : MappingStatus → Bool
is_pending pending = true
is_pending _ = false

abbrev pub contains_pair : List Pair → Pair → Bool
contains_pair [] key = false
contains_pair ((a, b) ∷ keys) (c, d) = (a == c && b == d) || contains_pair keys (c, d)

module _ (digest : Text → Text) where
  abbrev orphan : ℕ → ℕ → Detail → DriftItem
  orphan account position detail = record {
    id = stable_id digest (codes "orphan_slave_position" ∷ str account ∷ str position ∷ []);
    kind = orphan_slave_position;
    account_id = some account;
    position_id = some position;
    order_id = none;
    detail = detail;
    volume = none;
  }

  abbrev pub vanished : ℕ → ℕ → DriftItem
  vanished account position = record {
    id = stable_id digest (codes "missing_slave_copy" ∷ str account ∷ str position ∷ []);
    kind = missing_slave_copy;
    account_id = some account;
    position_id = some position;
    order_id = none;
    detail = copy_vanished position;
    volume = none;
  }

  -- Check 5, for one row: `now - created_at < stale_after` is written without a negative age.
  unfoldable pub stale_pending : ℕ → ℕ → List ℕ → MappingRow → Option DriftItem
  stale_pending now stale_after enabled m =
      if is_pending m.status && contains m.slave_account_id enabled
      then elim m.created_at [
        | none ↦ none
        | some created ↦
            if ltb now (created + stale_after)
            then none
            else some (record {
              id = stable_id digest (
                  codes "stale_pending_copy"
                  ∷ str m.slave_account_id
                  ∷ text_or_none m.client_order_id
                  ∷ []);
              kind = stale_pending_copy;
              account_id = some m.slave_account_id;
              position_id = m.master_position_id;
              order_id = m.master_order_id;
              detail =
                  never_activated m.master_position_id m.master_order_id (now - created)
                    m.client_order_id;
              volume = none;
            })
      ]
      else none

module _ {F : Type 0} where
  abbrev pub has_label_of : Option ℕ → List (PositionSnapshot F) → Bool
  has_label_of order [] = false
  has_label_of order (p ∷ positions) =
      occurs_in (codes "copy:o" ++ str_or_none order) p.label || has_label_of order positions

module _ {F : Type 0} (digest : Text → Text) where
  -- Check 1, for one position.
  unfoldable pub orphan_position :
      List (PositionSnapshot F)
      → List (Pair × MappingRow)
      → ℕ
      → PositionSnapshot F
      → Option DriftItem
  orphan_position masters index account p =
      if is_copy_label p.label
      then elim (get_pair (account, p.position_id) index) [
        | none ↦ some (orphan digest account p.position_id no_active_mapping)
        | some m ↦
            if is_known m.master_position_id masters
            then none
            else some (orphan digest account p.position_id (master_gone m.master_position_id))
      ]
      else none

  unfoldable pub orphan_positions :
      List (PositionSnapshot F)
      → List (Pair × MappingRow)
      → List ℕ
      → Dict (List (PositionSnapshot F))
      → List DriftItem
  unfolding orphan_position found
  orphan_positions masters index enabled [] = []
  orphan_positions masters index enabled ((account, positions) ∷ slaves) =
      let rest = orphan_positions masters index enabled slaves in
      if contains account enabled
      then found (orphan_position masters index account) positions ++ rest
      else rest

  abbrev missing_copy_at :
      List (PositionSnapshot F)
      → Dict (List (PositionSnapshot F))
      → List Pair
      → MappingRow
      → ℕ
      → Option DriftItem
  missing_copy_at masters slaves compared m position =
      if contains_pair compared (m.slave_account_id, position)
        || not (is_known m.master_position_id masters)
      then none
      else elim (position_at position (positions_of m.slave_account_id slaves)) [
        | some p ↦ none
        | none ↦ some (vanished digest m.slave_account_id position)
      ]

  -- Check 2, for one row.
  unfoldable pub missing_copy :
      List (PositionSnapshot F)
      → Dict (List (PositionSnapshot F))
      → List ℕ
      → List Pair
      → MappingRow
      → Option DriftItem
  missing_copy masters slaves enabled compared m =
      if is_active m.status && not (m.slave_account_id == 0) && contains m.slave_account_id enabled
      then elim (present m.slave_position_id) [
        | none ↦ none
        | some position ↦ missing_copy_at masters slaves compared m position
      ]
      else none

  -- Check 3, for one position of the master.
  unfoldable pub unmapped_master : List ℕ → PositionSnapshot F → Option DriftItem
  unmapped_master mapped p =
      if contains p.position_id mapped
      then none
      else some (record {
        id = stable_id digest (codes "unmapped_master_position" ∷ str p.position_id ∷ []);
        kind = unmapped_master_position;
        account_id = none;
        position_id = some p.position_id;
        order_id = none;
        detail = opened_while_down p.position_id;
        volume = none;
      })

  -- Check 4, for one row.
  unfoldable pub unfilled_order :
      Dict (List (PositionSnapshot F)) → List ℕ → MappingRow → Option DriftItem
  unfolding occurs_in
  unfilled_order slaves enabled m =
      if is_active m.status && not (m.slave_account_id == 0) && contains m.slave_account_id enabled
      then elim (present m.slave_order_id) [
        | none ↦ none
        | some order ↦ elim (present m.master_position_id) [
          | none ↦ none
          | some master ↦
              if has_label_of m.master_order_id (positions_of m.slave_account_id slaves)
              then none
              else some (record {
                id =
                    stable_id digest
                      (codes "unfilled_slave_order" ∷ str m.slave_account_id ∷ str order ∷ []);
                kind = unfilled_slave_order;
                account_id = some m.slave_account_id;
                position_id = none;
                order_id = some order;
                detail = never_materialized;
                volume = none;
              })
        ]
      ]
      else none
