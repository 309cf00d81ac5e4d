-- ===== src/Dispatch.antt =====
-- copier/src/copier/engine/dispatch.py, the requests: what an intent asks of a cTrader broker, and the
-- store that the dispatcher writes. `F` is the type of a price, a Python float; the float operations
-- that the code uses on it are the fields of `Prices`.
pub mod Handlers
pub mod Frames
pub mod Sends
pub mod Gates
pub mod Coverage
pub mod Retries
use forex_automated_copy_tra.Base.{
  ℕ, Bool, true, false, not, Option, none, some, List, [], ◌∷◌, ◌++◌, leb, ◌==◌, if◌then◌else◌,
  String, ◌≡◌,
}
use forex_automated_copy_tra.Text.{Text}
use forex_automated_copy_tra.Sizing.{◌>>=◌}
use forex_automated_copy_tra.Models.{
  Side, buy, sell, PendingType, AlertMessage, SlaveIntent, open_market, close_position,
  amend_position_sltp, place_pending, amend_pending, cancel_pending, link_pending_fill, alert,
}
use forex_automated_copy_tra.OrderIds.{position_coid, order_coid}
use forex_automated_copy_tra.Mappings.{Mapping}

pub record Prices (F : Type 0) : Type 0 where
  -- `x - y`
  pub minus : F → F → F
  -- `x <= 0`
  pub is_at_most_zero : F → Bool
  -- `int(round(x * RELATIVE_PRICE_SCALE))` of a number above 0, `none` where it raises (nan, inf).
  pub wire_units : F → Option ℕ

-- The protobuf messages, with the fields that are set.
pub data Request (F : Type 0) : Type 0 where
  new_market_order : ℕ → Side → ℕ → Option ℕ → Option ℕ → Text → Text → Request F
  new_pending_order :
      PendingType → ℕ → Side → ℕ → F → Option F → Option F → Option ℕ → Text → Text → Request F
  close_position_request : ℕ → ℕ → Request F
  amend_sltp_request : ℕ → Option F → Option F → Request F
  amend_order_request : PendingType → ℕ → ℕ → F → Option F → Option F → Request F
  cancel_order_request : ℕ → Request F

-- `req.clientOrderId`
abbrev pub request_coid : {F : Type 0} → Request F → Option Text
request_coid (new_market_order symbol side volume stop target label coid) = some coid
request_coid (new_pending_order kind symbol side volume price stop target expiry label coid) =
    some coid
request_coid _ = none

-- What `build_request` returns, and what it leaves in `_DROPPED_PROTECTION` for the request.
pub record Built (F : Type 0) : Type 0 where
  pub account : ℕ
  pub request : Request F
  pub dropped : List String

-- The nested `distance`; `none` is an exception.
unfoldable pub distance : {F : Type 0} → Prices F → F → Option F → Bool → Option (Option ℕ)
distance prices entry none protective_below = some none
distance prices entry (some target) protective_below =
    let gap = if protective_below then prices.minus entry target else prices.minus target entry in
    if prices.is_at_most_zero gap
    then some none
    else (prices.wire_units gap >>= (λ units. some (if leb 1 units then some units else none)))

abbrev is_buy : Side → Bool
is_buy buy = true
is_buy sell = false

unfoldable pub relative_protection :
    {F : Type 0} → Prices F → Side → Option F → Option F → Option F → Option (Option ℕ × Option ℕ)
unfolding distance
relative_protection prices side none stop_loss take_profit = some (none, none)
relative_protection prices side (some entry) stop_loss take_profit =
    if prices.is_at_most_zero entry then some (none, none) else do
      stop ← distance prices entry stop_loss (is_buy side)
      target ← distance prices entry take_profit (not (is_buy side))
      some (stop, target)

abbrev dropped_level : {F : Type 0} → String → Option F → Option ℕ → List String
dropped_level name (some wanted) none = name ∷ []
dropped_level name _ _ = []

-- An alert and a link are unknown to it: `none` is the ValueError.
unfoldable pub build_request : {F : Type 0} → Prices F → SlaveIntent F → Option (Built F)
build_request prices (open_market i) = do
  levels ← relative_protection prices i.side i.entry_price i.stop_loss i.take_profit
  some (record {
    account = i.slave_account_id;
    request =
        new_market_order i.symbol_id i.side i.volume levels.0 levels.1 i.label
          (position_coid i.master_position_id i.slave_account_id);
    dropped =
        dropped_level "stop loss" i.stop_loss levels.0
        ++ dropped_level "take profit" i.take_profit levels.1;
  })
build_request prices (close_position i) = some (record {
  account = i.slave_account_id;
  request = close_position_request i.position_id i.volume;
  dropped = [];
})
build_request prices (amend_position_sltp i) = some (record {
  account = i.slave_account_id;
  request = amend_sltp_request i.position_id i.stop_loss i.take_profit;
  dropped = [];
})
build_request prices (place_pending i) = some (record {
  account = i.slave_account_id;
  request =
      new_pending_order i.order_type i.symbol_id i.side i.volume i.price i.stop_loss i.take_profit
        i.expiry_ts_ms i.label (order_coid i.master_order_id i.slave_account_id);
  dropped = [];
})
build_request prices (amend_pending i) = some (record {
  account = i.slave_account_id;
  request = amend_order_request i.order_type i.order_id i.volume i.price i.stop_loss i.take_profit;
  dropped = [];
})
build_request prices (cancel_pending i) = some (record {
  account = i.slave_account_id;
  request = cancel_order_request i.order_id;
  dropped = [];
})
build_request prices (link_pending_fill i) = none
build_request prices (alert i) = none

-- `accounts.status`
pub data AccountStatus : Type 0 where
  ok degraded paused : AccountStatus

-- The rows that the dispatcher adds to the event log.
pub data LogEntry (F : Type 0) : Type 0 where
  alert_raised : Option ℕ → AlertMessage → LogEntry F
  fill_linked : ℕ → ℕ → ℕ → LogEntry F
  fill_not_linked : ℕ → LogEntry F
  skipped_kill_switch : Option ℕ → LogEntry F
  protection_dropped : ℕ → List String → LogEntry F
  dry_run_logged : ℕ → Request F → LogEntry F
  mt5_symbol_unmatched : ℕ → String → LogEntry F
  mt5_command_queued : ℕ → LogEntry F
  intent_processing_failed : Option ℕ → LogEntry F
  degraded_cleared : ℕ → LogEntry F
  send_failed_degraded : ℕ → ℕ → LogEntry F
  send_failed_ambiguous : ℕ → LogEntry F

-- What the dispatcher writes: the two tables, the log, the requests handed to the throttle, and the
-- calls of the outbox with their broker symbol, each list with the newest first.
-- `sent_over` and `queued_over` have, for each of `sends` and of `queued`, the mappings as they stood
-- when the order went out.
pub record Store (F : Type 0) : Type 0 where
  pub mappings : List (Mapping F)
  pub statuses : ℕ → Option AccountStatus
  pub events : List (LogEntry F)
  pub sends : List (ℕ × Request F)
  pub queued : List (SlaveIntent F × String)
  pub sent_over : List (List (Mapping F))
  pub queued_over : List (List (Mapping F))

abbrev pub send : {F : Type 0} → ℕ → Request F → Store F → Store F
send account request store = record store {
  sends = (account, request) ∷ store.sends;
  sent_over = store.mappings ∷ store.sent_over;
}

abbrev pub queue : {F : Type 0} → SlaveIntent F → String → Store F → Store F
queue intent broker_symbol store = record store {
  queued = (intent, broker_symbol) ∷ store.queued;
  queued_over = store.mappings ∷ store.queued_over;
}

abbrev pub log_event : {F : Type 0} → LogEntry F → Store F → Store F
log_event entry store = record store { events = entry ∷ store.events }

abbrev pub in_row : Option AccountStatus → AccountStatus → Option AccountStatus
in_row none status = none
in_row (some old) status = some status

-- An UPDATE: an account without a row stays without one.
unfoldable pub set_account_status : {F : Type 0} → ℕ → AccountStatus → Store F → Store F
set_account_status account status store = record store {
  statuses = λ other.
      if other == account then in_row (store.statuses other) status else store.statuses other;
}
