-- ===== src/Service/Reports.antt =====
-- The slaves' reports: `_handle_slave_event` and its handlers, from the event's platform-neutral parts.
use forex_automated_copy_tra.Base.{
  ℕ, Bool, true, false, not, ◌&&◌, Option, none, some, List, [], ◌∷◌, if◌then◌else◌, ◌==◌, String,
  Dict,
}
use forex_automated_copy_tra.Text.{Text, codes, strip_prefix, text_eq}
use forex_automated_copy_tra.Models.{SlaveConfig}
use forex_automated_copy_tra.Mappings.{
  Mapping, reduce_position_mapping, activate_position_mapping, activate_pending_fill,
  activate_order_mapping, close_order_mapping, fail_mapping,
}
use forex_automated_copy_tra.Dispatch.{Prices}
use forex_automated_copy_tra.Dispatch.Handlers.{OrgRow}
use forex_automated_copy_tra.Service.{
  SlaveFill, Service, log_report, is_some, protect_new_copy, position_closed_logged,
  position_filled, unknown_fill, pending_fill, manual_fill, unmatched_slave_fill, order_accepted,
  order_accepted_no_mapping, order_cancelled, order_cancel_no_mapping, order_rejected,
  event_from_unknown_or_disabled_slave, unclassified_slave_event,
}

-- `execution_type` with what its handler reads of the event.
pub data SlaveEvent (F : Type 0) : Type 0 where
  filled : SlaveFill F → SlaveEvent F
  accepted : Option Text → ℕ → SlaveEvent F
  cancelled : ℕ → SlaveEvent F
  rejected : Option Text → Text → SlaveEvent F
  unclassified : SlaveEvent F

-- `coid if coid and coid.startswith(prefix) else None`
abbrev pub with_prefix : String → Option Text → Option Text
with_prefix prefix none = none
with_prefix prefix (some coid) =
    if is_some (strip_prefix (codes prefix) coid) then some coid else none

abbrev pub is_enabled_slave : ℕ → List SlaveConfig → Bool
is_enabled_slave account [] = false
is_enabled_slave account (s ∷ slaves) =
    let rest = is_enabled_slave account slaves in
    if s.account_id == account && s.enabled then true else rest

module _ {F : Type 0} where
  abbrev pub with_mappings : List (Mapping F) → Service F → Service F
  with_mappings rows service = record service { store = record service.store { mappings = rows } }

  unfoldable pub close_fill : ℕ → SlaveFill F → Service F → Service F
  close_fill closed fill service =
      log_report fill.account_id (position_closed_logged fill.position_id closed) (
        with_mappings
          (reduce_position_mapping fill.account_id fill.position_id closed
            (with_prefix "cm" fill.client_order_id) service.store.mappings)
          service)

  -- A fill that no mapping of an order matches.
  unfoldable pub unmatched : SlaveFill F → Service F → Service F
  unmatched fill service =
      if text_eq fill.label (codes "manual")
      then log_report fill.account_id
          (manual_fill fill.order_id fill.position_id fill.filled_volume) service
      else log_report fill.account_id (unmatched_slave_fill fill.order_id fill.position_id) service

  -- `slave_order_id = NULL` matches no row.
  unfoldable pub fill_order : Option ℕ → SlaveFill F → List (Mapping F) → Option (List (Mapping F))
  fill_order none fill rows = none
  fill_order (some order) fill rows =
      activate_pending_fill fill.account_id order fill.position_id fill.filled_volume
        fill.fill_price rows

  unfoldable pub pending_copy_fill : SlaveFill F → Service F → Service F
  unfolding fill_order unmatched
  pending_copy_fill fill service = elim (fill_order fill.order_id fill service.store.mappings) [
    | none ↦ unmatched fill service
    | some rows ↦
        log_report fill.account_id (pending_fill fill.order_id fill.position_id fill.filled_volume)
          (with_mappings rows service)
  ]

  module _ (prices : Prices F) (targets : ℕ → Option (Dict String)) (org : OrgRow)
      (is_close : F → F → Bool) where
    unfoldable pub copy_fill : Text → SlaveFill F → Service F → Service F
    copy_fill coid fill service =
        elim (activate_position_mapping fill.account_id coid fill.position_id fill.filled_volume
          fill.fill_price service.store.mappings) [
            | none ↦ log_report fill.account_id (unknown_fill coid) service
            | some rows ↦
                protect_new_copy prices targets org is_close fill.account_id coid fill.position_id
                  (fill.stop_loss, fill.take_profit)
                  (log_report fill.account_id
                    (position_filled coid fill.position_id fill.filled_volume)
                    (with_mappings rows service))
          ]

    unfoldable pub open_fill : SlaveFill F → Service F → Service F
    unfolding copy_fill pending_copy_fill
    open_fill fill service = elim (with_prefix "cm" fill.client_order_id) [
      | none ↦ pending_copy_fill fill service
      | some coid ↦ copy_fill coid fill service
    ]

    unfoldable pub handle_slave_fill : SlaveFill F → Service F → Service F
    unfolding close_fill open_fill
    handle_slave_fill fill service = elim fill.closed_volume [
      | none ↦ open_fill fill service
      | some closed ↦ close_fill closed fill service
    ]

  unfoldable pub handle_slave_order_accepted : ℕ → Option Text → ℕ → Service F → Service F
  handle_slave_order_accepted account coid order service = elim (with_prefix "co" coid) [
    | none ↦ service
    | some id ↦ elim (activate_order_mapping account id order service.store.mappings) [
      | none ↦ log_report account (order_accepted_no_mapping id) service
      | some rows ↦ log_report account (order_accepted id order) (with_mappings rows service)
    ]
  ]

  unfoldable pub handle_slave_order_cancelled : ℕ → ℕ → Service F → Service F
  handle_slave_order_cancelled account order service =
      elim (close_order_mapping account order service.store.mappings) [
        | none ↦ log_report account (order_cancel_no_mapping order) service
        | some rows ↦ log_report account (order_cancelled order) (with_mappings rows service)
      ]

  abbrev pub fail_known : ℕ → Option Text → Text → List (Mapping F) → Option (List (Mapping F))
  fail_known account none reason rows = none
  fail_known account (some []) reason rows = none
  fail_known account (some (c ∷ coid)) reason rows = fail_mapping account (c ∷ coid) reason rows

  unfoldable pub handle_slave_rejection : ℕ → Option Text → Text → Service F → Service F
  handle_slave_rejection account coid reason service =
      elim (fail_known account coid reason service.store.mappings) [
        | none ↦ log_report account (order_rejected coid reason) service
        | some rows ↦ log_report account (order_rejected coid reason) (with_mappings rows service)
      ]

  module _ (prices : Prices F) (targets : ℕ → Option (Dict String)) (org : OrgRow)
      (is_close : F → F → Bool) where
    -- The event types; a fill names the account that the event came from.
    unfoldable pub handle_slave_report : ℕ → SlaveEvent F → Service F → Service F
    unfolding handle_slave_fill handle_slave_order_accepted handle_slave_order_cancelled
        handle_slave_rejection
    handle_slave_report account (filled fill) service =
        handle_slave_fill prices targets org is_close (record fill { account_id = account }) service
    handle_slave_report account (accepted coid order) service =
        handle_slave_order_accepted account coid order service
    handle_slave_report account (cancelled order) service =
        handle_slave_order_cancelled account order service
    handle_slave_report account (rejected coid reason) service =
        handle_slave_rejection account coid reason service
    handle_slave_report account unclassified service =
        log_report account unclassified_slave_event service

    -- The gate of `_handle_slave_event`.
    unfoldable pub handle_slave_event : List SlaveConfig → ℕ → SlaveEvent F → Service F → Service F
    unfolding handle_slave_report
    handle_slave_event slaves account event service =
        if not (is_enabled_slave account slaves)
        then log_report account event_from_unknown_or_disabled_slave service
        else handle_slave_report account event service
