-- ===== src/Service.antt =====
-- copier/src/copier/engine/service.py: the master's event on its way to the dispatcher, and the slaves'
-- reports. The capture of executions, the notifications, the risk engine and the check of a pending
-- fill after a delay are left out; `is_close` is math.isclose with the code's tolerance.
pub mod Reports
pub mod Effects
pub mod Loops
pub mod Copies
pub mod Memory
use forex_automated_copy_tra.Base.{
  ℕ, Bool, true, false, not, ◌&&◌, Option, none, some, List, [], ◌∷◌, ◌++◌, if◌then◌else◌, leb,
  ◌==◌, String, Dict, lookup, insert, length,
}
use forex_automated_copy_tra.Text.{Text, codes, strip_prefix, text_eq}
use forex_automated_copy_tra.Models.{
  SlaveConfig, SlaveIntent, amend_position_sltp, MasterEvent, position_opened, position_closed,
  position_sltp_amended,
}
use forex_automated_copy_tra.OrderIds.{master_position_of}
use forex_automated_copy_tra.Decision.{decide}
use forex_automated_copy_tra.Mappings.Reads.{mapping_state}
use forex_automated_copy_tra.Dispatch.{Prices, Store}
use forex_automated_copy_tra.Dispatch.Handlers.{OrgRow, dispatch}

pub record SlaveFill (F : Type 0) : Type 0 where
  pub account_id : ℕ
  pub client_order_id : Option Text
  pub position_id : ℕ
  pub filled_volume : ℕ
  pub fill_price : Option F
  pub closed_volume : Option ℕ
  pub label : Text
  pub order_id : Option ℕ
  pub stop_loss : Option F
  pub take_profit : Option F

-- The rows that the reports add to the event log.
pub data ReportEntry : Type 0 where
  event_from_unknown_or_disabled_slave : ReportEntry
  unclassified_slave_event : ReportEntry
  position_closed_logged : ℕ → ℕ → ReportEntry
  position_filled : Text → ℕ → ℕ → ReportEntry
  unknown_fill : Text → ReportEntry
  pending_fill : Option ℕ → ℕ → ℕ → ReportEntry
  manual_fill : Option ℕ → ℕ → ℕ → ReportEntry
  unmatched_slave_fill : Option ℕ → ℕ → ReportEntry
  order_accepted : Text → ℕ → ReportEntry
  order_accepted_no_mapping : Text → ReportEntry
  order_cancelled : ℕ → ReportEntry
  order_cancel_no_mapping : ℕ → ReportEntry
  order_rejected : Option Text → Text → ReportEntry

-- `_master_protection`, in insertion order.
abbrev pub Protection : Type 0 → Type 0
Protection F = Dict (Option F × Option F)

pub record Service (F : Type 0) : Type 0 where
  pub store : Store F
  pub reports : List (ℕ × ReportEntry)
  pub protection : Protection F

abbrev pub log_report : {F : Type 0} → ℕ → ReportEntry → Service F → Service F
log_report account entry service = record service { reports = (account, entry) ∷ service.reports }

abbrev pub max_remembered_protection : ℕ
max_remembered_protection = 2000

-- `d.pop(k, None)`
unfoldable pub pop_key {ℓ} : {V : Type ℓ} → ℕ → Dict V → Dict V
pop_key k [] = []
pop_key k ((j, v) ∷ d) = let rest = pop_key k d in if j == k then d else (j, v) ∷ rest

-- `d.pop(next(iter(d)))`
abbrev pub pop_oldest {ℓ} : {V : Type ℓ} → Dict V → Dict V
pop_oldest [] = []
pop_oldest (kv ∷ d) = d

abbrev pub is_some {ℓ} : {A : Type ℓ} → Option A → Bool
is_some none = false
is_some (some a) = true

-- The part of `_remember_master_protection` for an event with levels, with the memory's limit.
unfoldable pub remember : {F : Type 0} → ℕ → ℕ → Option F × Option F → Protection F → Protection F
unfolding pop_key
remember limit position (none, none) protection = pop_key position protection
remember limit position levels protection = insert position levels (
    if not (is_some (lookup position protection)) && leb limit (length protection)
    then pop_oldest protection
    else protection)

unfoldable pub remember_master_protection :
    {F : Type 0} → MasterEvent F → Protection F → Protection F
unfolding remember pop_key
remember_master_protection (position_closed e) protection = pop_key e.position_id protection
remember_master_protection (position_opened e) protection =
    remember max_remembered_protection e.position_id (e.stop_loss, e.take_profit) protection
remember_master_protection (position_sltp_amended e) protection =
    remember max_remembered_protection e.position_id (e.stop_loss, e.take_profit) protection
remember_master_protection _ protection = protection

-- `_same_level`
abbrev pub same_level : {F : Type 0} → (F → F → Bool) → Option F → Option F → Bool
same_level is_close none none = true
same_level is_close (some a) (some b) = is_close a b
same_level is_close _ _ = false

module _ {F : Type 0} (prices : Prices F) (targets : ℕ → Option (Dict String)) (org : OrgRow) where
  -- `_decide_dispatch_audit`; where `decide` raises nothing is dispatched.
  unfoldable pub decide_dispatch :
      (List ℕ → List ℕ) → MasterEvent F → List SlaveConfig → Service F → Service F
  unfolding remember_master_protection
  decide_dispatch set_order event slaves service =
      let remembered = remember_master_protection event service.protection in
      elim (decide set_order event (mapping_state service.store.mappings) slaves) [
        | none ↦ record service { protection = remembered }
        | some intents ↦ record service {
          protection = remembered;
          store = dispatch prices targets org intents service.store;
        }
      ]

  -- `_protect_new_copy`
  unfoldable pub protect_new_copy :
      (F → F → Bool) → ℕ → Text → ℕ → Option F × Option F → Service F → Service F
  protect_new_copy is_close account client_order_id position current service =
      elim (master_position_of (some client_order_id)) [
        | none ↦ service
        | some master_position ↦ elim (lookup master_position service.protection) [
          | none ↦ service
          | some levels ↦
              if same_level is_close levels.0 current.0 && same_level is_close levels.1 current.1
              then service
              else record service {
                store =
                    dispatch prices targets org
                      (amend_position_sltp (record {
                        slave_account_id = account;
                        position_id = position;
                        stop_loss = levels.0;
                        take_profit = levels.1;
                      })
                        ∷ [])
                      service.store;
              }
        ]
      ]
