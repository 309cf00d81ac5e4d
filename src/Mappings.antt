-- ===== src/Mappings.antt =====
-- The `mappings` table, and the statements of copier/src/copier/db/repo.py that read and write it. A
-- write is one SQL statement, or one transaction over locked rows: it happens whole. `none` is an
-- exception (MappingNotFound, or the unique index on client_order_id), which changes nothing. Rows
-- stand in the order of their creation; `updated_at`, `created_at` and the master's fill are not kept.
-- The expiry of stale MT5 commands, which writes rows too, is in Outbox.
pub mod Writes
pub mod Reads
pub mod Copies
pub mod Owner
pub mod Volumes
pub mod Unique
use forex_automated_copy_tra.Base.{
  ℕ, zero, suc, ◌+◌, ◌-◌, min, Bool, true, false, ◌&&◌, Option, none, some, List, [], ◌∷◌, ◌++◌,
  leb, ◌==◌, if◌then◌else◌, String, Option-cases,
}
use forex_automated_copy_tra.Text.{Text, text_eq}
use forex_automated_copy_tra.Models.{PositionMappingEntry, OrderMappingEntry}

pub data MappingStatus : Type 0 where
  pending active closed failed : MappingStatus

-- A row; `F` is the type of a fill price.
pub record Mapping (F : Type 0) : Type 0 where
  pub master_position_id : Option ℕ
  pub master_order_id : Option ℕ
  pub slave_account_id : ℕ
  pub slave_position_id : Option ℕ
  pub slave_order_id : Option ℕ
  pub slave_volume : Option ℕ
  pub client_order_id : Option Text
  pub status : MappingStatus
  pub error : Option Text
  pub org_id : ℕ
  pub symbol : Option String
  pub fill_price : Option F

abbrev pub is_active : MappingStatus → Bool
is_active active = true
is_active _ = false

-- `column = value`, which is not true of NULL.
abbrev pub is_value : Option ℕ → ℕ → Bool
is_value none n = false
is_value (some m) n = m == n

abbrev pub is_text : Option Text → Text → Bool
is_text none t = false
is_text (some s) t = text_eq s t

abbrev pub or_zero : Option ℕ → ℕ
or_zero none = 0
or_zero (some n) = n

abbrev pub coalesce {ℓ} : {A : Type ℓ} → Option A → Option A → Option A
coalesce none y = y
coalesce (some x) y = some x

-- `CASE WHEN slave_volume - closed <= 0 THEN 'closed' ELSE 'active' END`; NULL is not <= 0.
abbrev pub status_after : Option ℕ → ℕ → MappingStatus
status_after none taken = active
status_after (some held) taken = if leb held taken then closed else active

module _ {F : Type 0} where
  -- `UPDATE mappings SET ... WHERE ...`
  unfoldable pub update :
      (Mapping F → Bool) → (Mapping F → Mapping F) → List (Mapping F) → List (Mapping F)
  update test change [] = []
  update test change (r ∷ rows) = (if test r then change r else r) ∷ update test change rows

  -- `cursor.rowcount` is not 0.
  unfoldable pub matches : (Mapping F → Bool) → List (Mapping F) → Bool
  matches test [] = false
  matches test (r ∷ rows) = let rest = matches test rows in if test r then true else rest

  -- An update that raises MappingNotFound when no row matches.
  unfoldable pub update_or_raise :
      (Mapping F → Bool) → (Mapping F → Mapping F) → List (Mapping F) → Option (List (Mapping F))
  unfolding update matches
  update_or_raise test change rows =
      if matches test rows then some (update test change rows) else none

  abbrev pub has_coid : Text → Mapping F → Bool
  has_coid coid r = is_text r.client_order_id coid

  -- The predicate `client_order_id = ... AND slave_account_id = ...`.
  abbrev pub owns_coid : ℕ → Text → Mapping F → Bool
  owns_coid account coid r = is_text r.client_order_id coid && r.slave_account_id == account

  -- The predicate `slave_account_id = ... AND slave_order_id = ... AND status = 'active'`.
  abbrev pub owns_order : ℕ → ℕ → Mapping F → Bool
  owns_order account order r =
      r.slave_account_id == account && is_value r.slave_order_id order && is_active r.status

  -- The rows that are inserted; the columns that the statements do not name are NULL.
  abbrev pub position_row : ℕ → ℕ → Text → ℕ → Option String → Mapping F
  position_row master_position account coid org symbol = record {
    master_position_id = some master_position;
    master_order_id = none;
    slave_account_id = account;
    slave_position_id = none;
    slave_order_id = none;
    slave_volume = none;
    client_order_id = some coid;
    status = pending;
    error = none;
    org_id = org;
    symbol = symbol;
    fill_price = none;
  }

  abbrev pub order_row : ℕ → ℕ → Text → ℕ → Option String → Mapping F
  order_row master_order account coid org symbol = record {
    master_position_id = none;
    master_order_id = some master_order;
    slave_account_id = account;
    slave_position_id = none;
    slave_order_id = none;
    slave_volume = none;
    client_order_id = some coid;
    status = pending;
    error = none;
    org_id = org;
    symbol = symbol;
    fill_price = none;
  }

  -- `ON CONFLICT (client_order_id) DO NOTHING`
  unfoldable pub create_position_mapping :
      ℕ → ℕ → Text → ℕ → Option String → List (Mapping F) → List (Mapping F)
  unfolding matches
  create_position_mapping master_position account coid org symbol rows =
      if matches (has_coid coid) rows
      then rows
      else rows ++ position_row master_position account coid org symbol ∷ []

  unfoldable pub create_order_mapping :
      ℕ → ℕ → Text → ℕ → Option String → List (Mapping F) → Option (List (Mapping F))
  unfolding matches
  create_order_mapping master_order account coid org symbol rows =
      if matches (has_coid coid) rows
      then none
      else some (rows ++ order_row master_order account coid org symbol ∷ [])

  abbrev pub adopted_row : ℕ → ℕ → ℕ → ℕ → ℕ → Mapping F
  adopted_row master_position account position volume org = record {
    master_position_id = some master_position;
    master_order_id = none;
    slave_account_id = account;
    slave_position_id = some position;
    slave_order_id = none;
    slave_volume = some volume;
    client_order_id = none;
    status = active;
    error = none;
    org_id = org;
    symbol = none;
    fill_price = none;
  }

  unfoldable pub adopt_position_mapping : ℕ → ℕ → ℕ → ℕ → ℕ → List (Mapping F) → List (Mapping F)
  adopt_position_mapping master_position account position volume org rows =
      rows ++ adopted_row master_position account position volume org ∷ []

  unfoldable pub activate_position_mapping :
      ℕ → Text → ℕ → ℕ → Option F → List (Mapping F) → Option (List (Mapping F))
  unfolding update_or_raise
  activate_position_mapping account coid position volume price =
      update_or_raise (owns_coid account coid) (λ r. record r {
        slave_position_id = some position;
        slave_volume = some (or_zero r.slave_volume + volume);
        fill_price = coalesce r.fill_price price;
        status = active;
      })

  unfoldable pub activate_order_mapping :
      ℕ → Text → ℕ → List (Mapping F) → Option (List (Mapping F))
  unfolding update_or_raise
  activate_order_mapping account coid order =
      update_or_raise (owns_coid account coid)
        (λ r. record r { slave_order_id = some order; status = active })

  unfoldable pub fail_mapping : ℕ → Text → Text → List (Mapping F) → Option (List (Mapping F))
  unfolding update_or_raise
  fail_mapping account coid error =
      update_or_raise (owns_coid account coid)
        (λ r. record r { status = failed; error = some error })

  unfoldable pub close_order_mapping : ℕ → ℕ → List (Mapping F) → Option (List (Mapping F))
  unfolding update_or_raise
  close_order_mapping account order =
      update_or_raise (owns_order account order) (λ r. record r { status = closed })

  unfoldable pub link_pending_fill : ℕ → ℕ → ℕ → List (Mapping F) → Option (List (Mapping F))
  unfolding update_or_raise
  link_pending_fill master_order account master_position =
      update_or_raise
        (λ r.
          is_value r.master_order_id master_order
          && r.slave_account_id == account
          && is_active r.status)
        (λ r. record r { master_position_id = some master_position })

  unfoldable pub activate_pending_fill :
      ℕ → ℕ → ℕ → ℕ → Option F → List (Mapping F) → Option (List (Mapping F))
  unfolding update_or_raise
  activate_pending_fill account order position volume price =
      update_or_raise (owns_order account order) (λ r. record r {
        slave_position_id = some position;
        slave_volume = some volume;
        fill_price = coalesce r.fill_price price;
        status = active;
      })

  -- The `WHERE` of `reduce_position_mapping`: the id alone if it is given, else the position.
  abbrev pub reduces : ℕ → ℕ → Option Text → Mapping F → Bool
  reduces account position none r =
      r.slave_account_id == account && is_active r.status && is_value r.slave_position_id position
  reduces account position (some coid) r =
      r.slave_account_id == account && is_active r.status && is_text r.client_order_id coid

  unfoldable pub reduce_position_mapping :
      ℕ → ℕ → ℕ → Option Text → List (Mapping F) → List (Mapping F)
  unfolding update
  reduce_position_mapping account position taken coid = update (reduces account position coid) (λ r.
      record r {
        slave_volume = some (or_zero r.slave_volume - taken);
        status = status_after r.slave_volume taken;
      })

  -- The walk of `reduce_position_mappings_fifo`, oldest row first, with the volume that remains.
  unfoldable pub reduce_fifo : ℕ → ℕ → ℕ → List (Mapping F) → List (Mapping F)
  reduce_fifo account position remaining [] = []
  reduce_fifo account position remaining (r ∷ rows) =
      let on_ticket = reduces account position none r in
      let held = or_zero r.slave_volume in
      let taken = if on_ticket then min held remaining else 0 in
      (if on_ticket && leb 1 taken
        then record r {
          slave_volume = some (held - taken);
          status = status_after (some held) taken;
        }
        else r)
      ∷ reduce_fifo account position (remaining - taken) rows

-- An exception leaves the table as it was.
abbrev pub or_unchanged :
    {F : Type 0} → List (Mapping F) → Option (List (Mapping F)) → List (Mapping F)
or_unchanged rows none = rows
or_unchanged rows (some rows') = rows'
