-- ===== src/Dispatch/Handlers.antt =====
-- `Dispatcher.dispatch` and the handlers of one intent. A handler that raises keeps what it wrote.
-- `targets` is `_mt5_targets`, which gives nothing where there is no MT5 lane.
use forex_automated_copy_tra.Base.{
  ℕ, Bool, Option, none, some, List, [], ◌∷◌, if◌then◌else◌, not, String, str_eq, Dict, lookup,
}
use forex_automated_copy_tra.Sizing.{◌>>=◌}
use forex_automated_copy_tra.Models.{
  SlaveIntent, Alert, LinkPendingFill, open_market, place_pending, link_pending_fill, alert,
  account_of,
}
use forex_automated_copy_tra.OrderIds.{position_coid, order_coid}
use forex_automated_copy_tra.Mappings.{
  create_position_mapping, create_order_mapping, link_pending_fill as link_row,
}
use forex_automated_copy_tra.Dispatch.{
  Prices, Built, build_request, Store, send, queue, log_event, set_account_status, degraded,
  alert_raised, fill_linked, fill_not_linked, skipped_kill_switch, protection_dropped,
  dry_run_logged, mt5_symbol_unmatched, mt5_command_queued, intent_processing_failed,
}

-- The gates of `OrgRow`.
pub record OrgRow : Type 0 where
  pub org_id : ℕ
  pub copying_enabled : Bool
  pub dry_run : Bool

pub data Outcome (F : Type 0) : Type 0 where
  done raised : Store F → Outcome F

-- `symbol_name or None`
abbrev pub or_none : String → Option String
or_none name = if str_eq name "" then none else some name

-- The symbol id that an MT5 terminal needs the broker's name of.
abbrev pub symbol_of : {F : Type 0} → SlaveIntent F → Option (ℕ × String)
symbol_of (open_market i) = some (i.symbol_id, i.symbol_name)
symbol_of (place_pending i) = some (i.symbol_id, i.symbol_name)
symbol_of _ = none

module _ {F : Type 0} where
  unfoldable pub handle_alert : Alert → Store F → Outcome F
  handle_alert i store = done (log_event (alert_raised i.slave_account_id i.message) store)

  unfoldable pub handle_link_pending_fill : LinkPendingFill → Store F → Outcome F
  handle_link_pending_fill i store =
      elim (link_row i.master_order_id i.slave_account_id i.master_position_id store.mappings) [
        | none ↦ done (log_event (fill_not_linked i.slave_account_id) store)
        | some rows ↦ done (
            log_event (fill_linked i.master_order_id i.slave_account_id i.master_position_id)
              (record store { mappings = rows }))
      ]

  unfoldable pub create_mapping : ℕ → SlaveIntent F → ℕ → Store F → Option (Store F)
  create_mapping org_id (open_market i) account store = some (record store {
    mappings =
        create_position_mapping i.master_position_id account
          (position_coid i.master_position_id i.slave_account_id) org_id (or_none i.symbol_name)
          store.mappings;
  })
  create_mapping org_id (place_pending i) account store = do
    rows ←
        create_order_mapping i.master_order_id account
          (order_coid i.master_order_id i.slave_account_id) org_id (or_none i.symbol_name)
          store.mappings
    some (record store { mappings = rows })
  create_mapping org_id _ account store = some store

  unfoldable pub warn_dropped_protection : Built F → Store F → Store F
  warn_dropped_protection built store = elim built.dropped [
    | [] ↦ store
    | name ∷ names ↦ log_event (protection_dropped built.account (name ∷ names)) store
  ]

  unfoldable pub handle_kill_switch : SlaveIntent F → Store F → Outcome F
  handle_kill_switch intent store = done (log_event (skipped_kill_switch (account_of intent)) store)

  unfoldable pub handle_dry_run : Prices F → ℕ → SlaveIntent F → Store F → Outcome F
  unfolding warn_dropped_protection
  handle_dry_run prices org_id intent store = elim (build_request prices intent) [
    | none ↦ raised store
    | some built ↦ elim (create_mapping org_id intent built.account store) [
      | none ↦ raised store
      | some mapped ↦ done (
          log_event (dry_run_logged built.account built.request)
            (warn_dropped_protection built mapped))
    ]
  ]

  -- The row is created before the command is queued.
  unfoldable pub queue_command : ℕ → SlaveIntent F → ℕ → String → Store F → Outcome F
  queue_command org_id intent account broker_symbol store =
      elim (create_mapping org_id intent account store) [
        | none ↦ raised store
        | some mapped ↦
            done (log_event (mt5_command_queued account) (queue intent broker_symbol mapped))
      ]

  -- The case that `targets` is not None.
  unfoldable pub enqueue_for_targets : ℕ → SlaveIntent F → ℕ → Dict String → Store F → Outcome F
  unfolding queue_command
  enqueue_for_targets org_id intent account targets store = elim (symbol_of intent) [
    | none ↦ queue_command org_id intent account "" store
    | some symbol ↦ elim (lookup symbol.0 targets) [
      | none ↦ done (log_event (mt5_symbol_unmatched account symbol.1) store)
      | some broker_symbol ↦ queue_command org_id intent account broker_symbol store
    ]
  ]

  unfoldable pub send_to_broker : Prices F → ℕ → SlaveIntent F → Store F → Outcome F
  unfolding warn_dropped_protection
  send_to_broker prices org_id intent store = elim (build_request prices intent) [
    | none ↦ raised store
    | some built ↦ elim (create_mapping org_id intent built.account store) [
      | none ↦ raised store
      | some mapped ↦ done (send built.account built.request (warn_dropped_protection built mapped))
    ]
  ]

  -- Only an alert may have no account, and it does not come here.
  unfoldable pub handle_live_send :
      Prices F → (ℕ → Option (Dict String)) → ℕ → SlaveIntent F → Store F → Outcome F
  unfolding enqueue_for_targets send_to_broker
  handle_live_send prices targets org_id intent store = elim (account_of intent) [
    | none ↦ raised store
    | some account ↦ elim (targets account) [
      | none ↦ send_to_broker prices org_id intent store
      | some names ↦ enqueue_for_targets org_id intent account names store
    ]
  ]

  unfoldable pub handle_trade :
      Prices F → (ℕ → Option (Dict String)) → OrgRow → SlaveIntent F → Store F → Outcome F
  unfolding handle_kill_switch handle_dry_run handle_live_send
  handle_trade prices targets org intent store =
      if not org.copying_enabled
      then handle_kill_switch intent store
      else if org.dry_run
      then handle_dry_run prices org.org_id intent store
      else handle_live_send prices targets org.org_id intent store

  unfoldable pub handle :
      Prices F → (ℕ → Option (Dict String)) → OrgRow → SlaveIntent F → Store F → Outcome F
  unfolding handle_alert handle_link_pending_fill handle_trade
  handle prices targets org (alert i) store = handle_alert i store
  handle prices targets org (link_pending_fill i) store = handle_link_pending_fill i store
  handle prices targets org intent store = handle_trade prices targets org intent store

  -- The `except Exception` of the loop.
  unfoldable pub settle : SlaveIntent F → Outcome F → Store F
  settle intent (done store) = store
  settle intent (raised store) =
      let logged = log_event (intent_processing_failed (account_of intent)) store in
      elim (account_of intent) [
        | none ↦ logged
        | some account ↦ set_account_status account degraded logged
      ]

  unfoldable pub dispatch :
      Prices F → (ℕ → Option (Dict String)) → OrgRow → List (SlaveIntent F) → Store F → Store F
  unfolding settle handle
  dispatch prices targets org [] store = store
  dispatch prices targets org (intent ∷ intents) store =
      dispatch prices targets org intents (settle intent (handle prices targets org intent store))
