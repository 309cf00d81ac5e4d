-- ===== src/Ingress/Stored.antt =====
-- The protection of a net position in copier/src/copier/mt5/ingress.py, and the ledger's rows in
-- mt5_net_ledger: dirty_rows, the statements of copier/src/copier/db/repo.py and _persist_net_ledger
-- of copier/src/copier/main.py. The table is that of one account, by virtual id.
use forex_automated_copy_tra.Base.{
  ℕ, ◌∷◌, [], List, Bool, not, ◌&&◌, Option, String, str_eq, if◌then◌else◌, ◌==◌, Dict, insert,
  keep, map, contains,
}
use forex_automated_copy_tra.Models.{MasterEvent, position_sltp_amended}
use forex_automated_copy_tra.Ingress.Book.{
  VirtualPosition, NetLedger, ReportDeal, apply_deal, new_ledger,
}

-- The positions after the loop of `apply_protection`, and the ones that it changed.
pub record Amended (F : Type 0) : Type 0 where
  pub book : List (VirtualPosition F)
  pub changed : List (VirtualPosition F)

module _ {F : Type 0} where
  abbrev pub amended_event : VirtualPosition F → MasterEvent F
  amended_event v =
      position_sltp_amended
        record { position_id = v.virtual_id; stop_loss = v.stop_loss; take_profit = v.take_profit }

  abbrev pub mark_changed :
      List (VirtualPosition F) → Dict (VirtualPosition F) → Dict (VirtualPosition F)
  mark_changed [] dirty = dirty
  mark_changed (v ∷ vs) dirty = mark_changed vs (insert v.virtual_id v dirty)

  -- `values()` of a dict
  abbrev pub values : Dict (VirtualPosition F) → List (VirtualPosition F)
  values [] = []
  values ((k, v) ∷ d) = v ∷ values d

  -- What an upsert takes over into the row that is there.
  abbrev pub refresh : VirtualPosition F → VirtualPosition F → VirtualPosition F
  refresh v row = record row {
    volume_left = v.volume_left;
    stop_loss = v.stop_loss;
    take_profit = v.take_profit;
  }

  unfoldable pub upsert_row :
      VirtualPosition F → Dict (VirtualPosition F) → Dict (VirtualPosition F)
  upsert_row v [] = (v.virtual_id, v) ∷ []
  upsert_row v ((k, row) ∷ table) =
      let rest = upsert_row v table in
      if k == v.virtual_id then (k, refresh v row) ∷ table else (k, row) ∷ rest

  unfoldable pub upsert_net_ledger :
      List (VirtualPosition F) → Dict (VirtualPosition F) → Dict (VirtualPosition F)
  unfolding upsert_row
  upsert_net_ledger [] table = table
  upsert_net_ledger (v ∷ vs) table = upsert_net_ledger vs (upsert_row v table)

  unfoldable pub delete_net_ledger : List ℕ → Dict (VirtualPosition F) → Dict (VirtualPosition F)
  delete_net_ledger ids table = keep (λ row. not (contains row.0 ids)) table

  -- The table with the ledger's changed rows, and the ledger without its marks.
  unfoldable pub persist_net_ledger :
      Dict (VirtualPosition F) → NetLedger F → Dict (VirtualPosition F) × NetLedger F
  unfolding upsert_net_ledger delete_net_ledger
  persist_net_ledger table l = (
    delete_net_ledger l.deleted (upsert_net_ledger (values l.dirty) table),
    record l { dirty = []; deleted = [] },
  )

  -- `net_ledger` of the registry after a restart: the rows come sorted as `new_ledger` sorts them.
  unfoldable pub net_ledger : Dict (VirtualPosition F) → NetLedger F
  unfolding new_ledger
  net_ledger table = new_ledger (values table)

-- `same` tells whether two levels are equal: two floats, or two missing ones.
module _ {F : Type 0} (same : Option F → Option F → Bool) where
  -- Whether the levels are the position's own already.
  abbrev pub has_levels : Option F → Option F → VirtualPosition F → Bool
  has_levels stop_loss take_profit v = same v.stop_loss stop_loss && same v.take_profit take_profit

  abbrev pub with_levels : Option F → Option F → VirtualPosition F → VirtualPosition F
  with_levels stop_loss take_profit v = record v {
    stop_loss = stop_loss;
    take_profit = take_profit;
  }

  unfoldable pub protect_loop : String → Option F → Option F → List (VirtualPosition F) → Amended F
  protect_loop symbol stop_loss take_profit [] = record { book = []; changed = [] }
  protect_loop symbol stop_loss take_profit (v ∷ vs) =
      let rest = protect_loop symbol stop_loss take_profit vs in
      let w = with_levels stop_loss take_profit v in
      if str_eq v.symbol symbol && not (has_levels stop_loss take_profit v)
      then record { book = w ∷ rest.book; changed = w ∷ rest.changed }
      else record rest { book = v ∷ rest.book }

  unfoldable pub apply_protection :
      String → Option F → Option F → NetLedger F → List (MasterEvent F) × NetLedger F
  unfolding protect_loop
  apply_protection symbol stop_loss take_profit l =
      let walk = protect_loop symbol stop_loss take_profit l.positions in
      (
        map amended_event walk.changed,
        record l { positions = walk.book; dirty = mark_changed walk.changed l.dirty },
      )

  -- What happens to a ledger between two restarts.
  pub data Change : Type 0 where
    deal : ReportDeal F → String → Option F → Option F → Change
    protection : String → Option F → Option F → Change
    save : Change

  unfoldable pub change :
      Change → Dict (VirtualPosition F) × NetLedger F → Dict (VirtualPosition F) × NetLedger F
  unfolding apply_deal apply_protection persist_net_ledger
  change (deal d canonical stop_loss take_profit) (table, l) =
      (table, (apply_deal d canonical stop_loss take_profit l).1)
  change (protection symbol stop_loss take_profit) (table, l) =
      (table, (apply_protection symbol stop_loss take_profit l).1)
  change save (table, l) = persist_net_ledger table l

  abbrev pub changes :
      List Change → Dict (VirtualPosition F) × NetLedger F → Dict (VirtualPosition F) × NetLedger F
  changes [] s = s
  changes (c ∷ cs) s = changes cs (change c s)
