-- ===== src/Reconcile.antt =====
-- The Reconciler of copier/src/copier/engine/reconcile.py after compute_drift: the items that are
-- shown and logged, the dismissals, and the closing and the adoption of an orphan. Fetching the snapshots, and
-- the exceptions' texts are not here.
pub mod Dismissals
pub mod Restarts
pub mod Orphans
pub mod Deals
use forex_automated_copy_tra.Base.{
  ℕ, zero, suc, Bool, true, false, not, ◌&&◌, ◌||◌, Option, none, some, List, [], ◌∷◌, ◌++◌,
  if◌then◌else◌, ◌==◌, keep, length, Dict,
}
use forex_automated_copy_tra.Text.{Text, text_eq}
use forex_automated_copy_tra.Sizing.{◌>>=◌}
use forex_automated_copy_tra.Mappings.{Mapping, adopt_position_mapping, is_active, is_value}
use forex_automated_copy_tra.Drift.Items.{
  PositionSnapshot, MappingRow, DriftKind, orphan_slave_position, DriftItem, present, position_at,
  positions_of,
}

pub data DriftEntry : Type 0 where
  drift : DriftItem → DriftEntry
  dismissed : DriftItem → DriftEntry

-- `dismissals` is `_dismissed`, and `stored` the org's rows of `drift_dismissals`; both are sets.
pub record Reconciler (F : Type 0) : Type 0 where
  pub current : List DriftItem
  pub dismissals : List Text
  pub stored : List Text
  pub slave_positions : Dict (List (PositionSnapshot F))
  pub events : List DriftEntry

abbrev pub in_set : Text → List Text → Bool
in_set t [] = false
in_set t (s ∷ set) = text_eq t s || in_set t set

abbrev pub has_id : Text → List DriftItem → Bool
has_id t [] = false
has_id t (item ∷ items) = text_eq t item.id || has_id t items

-- `set.add`, and the INSERT of `save_drift_dismissal`.
abbrev pub add : Text → List Text → List Text
add t set = if in_set t set then set else set ++ t ∷ []

-- `_find_current_item`
abbrev pub find_item : Text → List DriftItem → Option DriftItem
find_item t [] = none
find_item t (item ∷ items) =
    let rest = find_item t items in if text_eq t item.id then some item else rest

-- The log of what was not there in the run before.
abbrev pub log_new : List DriftItem → List DriftItem → List DriftEntry → List DriftEntry
log_new known [] events = events
log_new known (item ∷ items) events =
    log_new known items (if has_id item.id known then events else drift item ∷ events)

abbrev pub mapped_volume : ℕ → ℕ → List MappingRow → Option ℕ
mapped_volume account position [] = none
mapped_volume account position (m ∷ rows) =
    let rest = mapped_volume account position rows in
    if m.slave_account_id == account && is_value m.slave_position_id position && is_active m.status
    then m.slave_volume
    else rest

abbrev pub is_orphan : DriftKind → Bool
is_orphan orphan_slave_position = true
is_orphan _ = false

module _ {F : Type 0} where
  -- `_apply_dismissals`: the items shown, and the pruned dismissals.
  unfoldable pub apply_dismissals : List DriftItem → Reconciler F → List DriftItem × Reconciler F
  apply_dismissals items r =
      let remaining = keep (λ d. has_id d items) r.dismissals in
      (
        keep (λ (item : DriftItem). not (in_set item.id remaining)) items,
        record r {
          dismissals = remaining;
          stored =
              if length remaining == length r.dismissals
              then r.stored
              else keep (λ d. in_set d remaining) r.stored;
        },
      )

  -- `run`, from the computed items on.
  unfoldable pub show_items : List DriftItem → Reconciler F → Reconciler F
  unfolding apply_dismissals
  show_items items r =
      let (shown, pruned) = apply_dismissals items r in
      record pruned { current = shown; events = log_new r.current shown r.events }

  -- `dismiss`; `none` is the ValueError of an item that is not shown.
  unfoldable pub dismiss : Text → Reconciler F → Option (Reconciler F)
  dismiss t r = elim (find_item t r.current) [
    | none ↦ none
    | some item ↦ some (record r {
      current = keep (λ (i : DriftItem). not (text_eq t i.id)) r.current;
      dismissals = add t r.dismissals;
      stored = add t r.stored;
      events = dismissed item ∷ r.events;
    })
  ]

  -- `__init__` of a process that starts again.
  unfoldable pub restart : Reconciler F → Reconciler F
  restart r = record r { current = []; dismissals = r.stored; slave_positions = [] }

  -- `_lookup_slave_volume`
  unfoldable pub lookup_slave_volume : List MappingRow → Reconciler F → ℕ → ℕ → Option ℕ
  lookup_slave_volume rows r account position =
      elim (position_at position (positions_of account r.slave_positions)) [
        | some p ↦ some p.volume
        | none ↦ mapped_volume account position rows
      ]

  abbrev orphan_volume : List MappingRow → Reconciler F → Option ℕ → ℕ → ℕ → Option ℕ
  orphan_volume rows r (some (suc n)) account position = some (suc n)
  orphan_volume rows r _ account position = present (lookup_slave_volume rows r account position)

  -- The account, the position and the volume that `close_orphan` dispatches a close for; `none` is a
  -- ValueError.
  unfoldable pub close_orphan : List MappingRow → Text → Reconciler F → Option (ℕ × ℕ × ℕ)
  unfolding lookup_slave_volume
  close_orphan rows t r = do
    item ← find_item t r.current
    account ← if is_orphan item.kind then present item.account_id else none
    position ← present item.position_id
    volume ← orphan_volume rows r item.volume account position
    some (account, position, volume)

  -- `adopt`: the table afterwards; `none` is a ValueError.
  unfoldable pub adopt :
      List MappingRow → Text → ℕ → ℕ → Reconciler F → List (Mapping F) → Option (List (Mapping F))
  unfolding lookup_slave_volume
  adopt rows t master org r table = do
    item ← find_item t r.current
    account ← if is_orphan item.kind then present item.account_id else none
    position ← present item.position_id
    volume ← present (lookup_slave_volume rows r account position)
    some (adopt_position_mapping master account position volume org table)
