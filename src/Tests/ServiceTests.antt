-- ===== src/Tests/ServiceTests.antt =====
-- A market copy on account 7: sent, filled, and found by the next decision.
use forex_automated_copy_tra.Base.{
  ℕ, ◌≡◌, refl, true, false, Option, none, some, List, [], ◌∷◌, ◌++◌, ◌==◌, Dict, String,
}
use forex_automated_copy_tra.Text.{codes}
use forex_automated_copy_tra.Decimal.{of_int}
use forex_automated_copy_tra.Models.{SlaveConfig, OpenMarket, buy, open_market}
use forex_automated_copy_tra.OrderIds.{position_coid}
use forex_automated_copy_tra.Mappings.{matches, has_coid}
use forex_automated_copy_tra.Mappings.Reads.{position_entries}
use forex_automated_copy_tra.Mappings.Copies.{entry_of}
use forex_automated_copy_tra.Dispatch.{
  Prices, Built, build_request, relative_protection, new_market_order, ok,
}
use forex_automated_copy_tra.Dispatch.Handlers.{OrgRow}
use forex_automated_copy_tra.Service.{Service, SlaveFill}
use forex_automated_copy_tra.Service.Reports.{filled, handle_slave_event, handle_slave_fill}
use forex_automated_copy_tra.Service.Loops.{handle_slave_event-IsReport}
use forex_automated_copy_tra.Service.Effects.{IsReport}
use forex_automated_copy_tra.Service.Copies.{dispatched, dispatch-fill-entries}

abbrev prices : Prices ℕ
prices = record { minus = λ x y. x; is_at_most_zero = λ x. x == 0; wire_units = λ x. some x }

abbrev org : OrgRow
org = record { org_id = 1; copying_enabled = true; dry_run = false }

abbrev targets : ℕ → Option (Dict String)
targets account = none

abbrev copy : OpenMarket ℕ
copy = record {
  slave_account_id = 7;
  master_position_id = 1;
  symbol_id = 3;
  side = buy;
  volume = 1000;
  stop_loss = none;
  take_profit = none;
  label = codes "copy:m1";
  symbol_name = "EURUSD";
  entry_price = none;
}

abbrev built : Built ℕ
built = record {
  account = 7;
  request = new_market_order 3 buy 1000 none none (codes "copy:m1") (position_coid 1 7);
  dropped = [];
}

abbrev start : Service ℕ
start = record {
  store = record {
    mappings = [];
    statuses = λ account. some ok;
    events = [];
    sends = [];
    queued = [];
    sent_over = [];
    queued_over = [];
  };
  reports = [];
  protection = (1, (some 5, none)) ∷ [];
}

abbrev fill : SlaveFill ℕ
fill = record {
  account_id = 7;
  client_order_id = some (position_coid 1 7);
  position_id = 900;
  filled_volume = 1000;
  fill_price = some 9;
  closed_volume = none;
  label = codes "copy:m1";
  order_id = some 44;
  stop_loss = none;
  take_profit = none;
}

abbrev fleet : List SlaveConfig
fleet = record { account_id = 7; enabled = true; multiplier = of_int 1; symbols = [] } ∷ []

is_built : build_request prices (open_market copy) ≡ some built
unfolding build_request relative_protection
is_built = refl

start_fresh : matches (has_coid (position_coid 1 7)) start.store.mappings ≡ false
unfolding matches
start_fresh = refl

dispatch-fill-entries_example :
    ((dispatched prices targets org copy start).store.sends ≡ (7, built.request) ∷ [])
    × (position_entries
          (handle_slave_fill prices targets org
            (λ x y. x == y)
            fill
            (dispatched prices targets org copy start)).store.mappings
          1
        ≡ position_entries start.store.mappings 1 ++ entry_of 7 900 1000 ∷ [])
dispatch-fill-entries_example =
    dispatch-fill-entries prices targets org (λ x y. x == y) copy built fill start refl refl
      is_built start_fresh refl refl refl

handle_slave_event-IsReport_example :
    IsReport 7 start
      (handle_slave_event prices targets org (λ x y. x == y) fleet 7 (filled fill) start)
handle_slave_event-IsReport_example =
    handle_slave_event-IsReport prices targets org (λ x y. x == y) fleet 7 (filled fill) start
