-- ===== src/Tests/DispatchTests.antt =====
-- A close, a market copy and an alert, prices being whole numbers.
use forex_automated_copy_tra.Base.{
  ℕ, ◌+◌, ◌-◌, ◌≡◌, ◌≤◌, refl, true, false, Option, none, some, List, [], ◌∷◌, length, ◌==◌,
  if◌then◌else◌, Dict, String,
}
use forex_automated_copy_tra.Text.{codes}
use forex_automated_copy_tra.Models.{
  SlaveIntent, open_market, close_position, alert, buy, position_rounds_to_zero,
}
use forex_automated_copy_tra.Dispatch.{
  Prices, build_request, relative_protection, Store, ok, paused,
}
use forex_automated_copy_tra.Dispatch.Handlers.{OrgRow, dispatch, create_mapping}
use forex_automated_copy_tra.Dispatch.Frames.{IsQuiet}
use forex_automated_copy_tra.Dispatch.Gates.{dispatch-gated}
use forex_automated_copy_tra.Dispatch.Coverage.{
  IsAwaited, dispatch-IsAwaited, dispatch-records, records,
}
use forex_automated_copy_tra.Dispatch.Sends.{Reply, not_attempted, failed, Sent, send_with_retries}
use forex_automated_copy_tra.Dispatch.Retries.{IsLadder, send_with_retries-returns}

abbrev prices : Prices ℕ
prices = record { minus = λ x y. x - y; is_at_most_zero = λ x. x == 0; wire_units = λ x. some x }

abbrev batch : List (SlaveIntent ℕ)
batch =
    open_market (record {
      slave_account_id = 7;
      master_position_id = 1;
      symbol_id = 3;
      side = buy;
      volume = 1000;
      stop_loss = some 5;
      take_profit = some 3;
      label = codes "copy:m1";
      symbol_name = "EURUSD";
      entry_price = some 9;
    })
    ∷ close_position (record {
      slave_account_id = 8;
      position_id = 4;
      volume = 500;
      master_position_id = some 1;
    })
    ∷ alert (record { slave_account_id = some 9; message = position_rounds_to_zero 9 })
    ∷ []

abbrev start : Store ℕ
start = record {
  mappings = [];
  statuses = λ account. if account == 7 then some paused else some ok;
  events = [];
  sends = [];
  queued = [];
  sent_over = [];
  queued_over = [];
}

-- Account 8 is a terminal.
abbrev targets : ℕ → Option (Dict String)
targets account = if account == 8 then some [] else none

abbrev live : OrgRow
live = record { org_id = 1; copying_enabled = true; dry_run = false }

abbrev dry : OrgRow
dry = record live { dry_run = true }

abbrev replies : ℕ → Reply
replies attempt = if attempt == 2 then failed else not_attempted

-- Only the copy on account 7 is sent: account 8 is a terminal.
sends_one : length (dispatch prices targets live batch start).sends ≡ 1
unfolding dispatch create_mapping build_request relative_protection
sends_one = refl

dispatch-gated_example : IsQuiet 3 start (dispatch prices targets dry batch start)
dispatch-gated_example = dispatch-gated prices targets dry refl batch start

dispatch-IsAwaited_example : IsAwaited (dispatch prices targets live batch start)
dispatch-IsAwaited_example =
    dispatch-IsAwaited prices targets live batch start
      (record { sends = tt; queued = tt; before_sends = tt; before_queued = tt })

dispatch-records_example :
    length batch + records start ≤ records (dispatch prices targets live batch start)
dispatch-records_example = dispatch-records prices targets live batch start

send_with_retries-returns_example :
    (sent : Sent ℕ) × (send_with_retries 4 replies 7 0 0 start ≡ some sent)
    × IsLadder replies 7 start sent
send_with_retries-returns_example = send_with_retries-returns replies 7 start
