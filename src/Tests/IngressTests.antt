-- ===== src/Tests/IngressTests.antt =====
-- A netting master with two virtual positions of one symbol, one of 30 and one of 20 centilots.
use forex_automated_copy_tra.Base.{
  ℕ, ◌≡◌, refl, Bool, true, false, ◌&&◌, Option, none, some, List, [], ◌∷◌, inr, contains, keys,
  min, not, ◌||◌, ◌+◌, ◌==◌, arith, Dict,
}
use forex_automated_copy_tra.Models.{buy, MasterEvent}
use forex_automated_copy_tra.Ingress.Book.{
  VirtualPosition, NetLedger, ReportDeal, sell_deal, entry_in, entry_inout, apply_deal, consume,
  held, new_ledger,
}
use forex_automated_copy_tra.Ingress.Stored.{
  Change, deal, protection, save, change, changes, net_ledger, persist_net_ledger,
}
use forex_automated_copy_tra.Ingress.Found.{find}
use forex_automated_copy_tra.Ingress.Closes.{closed_volume, closed-consume}
use forex_automated_copy_tra.Ingress.Nets.{TracksNet, apply_deal-TracksNet}
use forex_automated_copy_tra.Ingress.Changes.{net_ledger-changes}
use forex_automated_copy_tra.Ingress.Oldest.{without_shares, consume-without_shares}
use forex_automated_copy_tra.Ingress.Report.{SyncReport, OrderSnapshot, is_known, filled_orders}
use forex_automated_copy_tra.Ingress.Events.{context_of, master_events_from_report}
use forex_automated_copy_tra.Ingress.Quiet.{is_cancelled, is_filled}
use forex_automated_copy_tra.Ingress.Orders.{is_cancelled-master_events_from_report}

abbrev older : VirtualPosition ℕ
older = record {
  virtual_id = 11;
  symbol = "EURUSD";
  side = buy;
  volume_open = 30;
  volume_left = 30;
  stop_loss = none;
  take_profit = none;
  opened_at_ms = 1000;
}

abbrev newer : VirtualPosition ℕ
newer = record older { virtual_id = 12; volume_open = 20; volume_left = 20; opened_at_ms = 2000 }

abbrev ledger : NetLedger ℕ
ledger = record { positions = older ∷ newer ∷ []; dirty = []; deleted = [] }

-- A reversal: 80 centilots sold against the 50 that are held.
abbrev reversal : ReportDeal ℕ
reversal = record {
  ticket = 13;
  position = 1;
  order = 40;
  symbol = "EURUSD";
  deal_type = sell_deal;
  entry = entry_inout;
  volume = 80;
  price = 7;
  time_ms = 3000;
}

abbrev reversed : NetLedger ℕ
reversed = (apply_deal reversal "EURUSD" none none ledger).1

held-reversed : held "EURUSD" reversed.positions ≡ 30
unfolding apply_deal
held-reversed = refl

apply_deal-TracksNet_example : TracksNet reversal "EURUSD" ledger reversed
apply_deal-TracksNet_example =
    apply_deal-TracksNet reversal "EURUSD" none none ledger "EURUSD" (refl, omega arith) (inr refl)

-- 40 are closed: all of the older position, and 10 of the newer.
abbrev closing : List (MasterEvent ℕ) × NetLedger ℕ
closing = consume "EURUSD" "EURUSD" 40 ledger

closed-consume_example :
    (closed_volume closing.0 ≡ min 40 (held "EURUSD" ledger.positions))
    × (held "EURUSD" closing.1.positions + closed_volume closing.0 ≡ held "EURUSD" ledger.positions)
closed-consume_example = closed-consume "EURUSD" "EURUSD" 40 ledger

abbrev same : Option ℕ → Option ℕ → Bool
same none none = true
same (some a) (some b) = a == b
same _ _ = false

-- The report of the reversal, changed levels, a save, and a new deal that is not saved yet.
abbrev day : List (Change same)
day =
    deal reversal "EURUSD" none none
    ∷ protection "EURUSD" (some 9) none
    ∷ save
    ∷ deal (record reversal { ticket = 14; entry = entry_in; volume = 5; time_ms = 4000 }) "EURUSD"
        none none
    ∷ []

net_ledger-changes_example :
    find 13
      (net_ledger
        (persist_net_ledger
          (changes same day ([], net_ledger [])).0
          (changes same day ([], net_ledger [])).1).0).positions
    ≡ find 13 (changes same day ([], net_ledger [])).1.positions
unfolding net_ledger change new_ledger
net_ledger-changes_example = net_ledger-changes same [] day 13 tt ((refl, refl), ((refl, refl), tt))

-- The rows of the two positions, the newer one first.
abbrev rows : Dict (VirtualPosition ℕ)
rows = (12, newer) ∷ (11, older) ∷ []

abbrev restored : NetLedger ℕ
restored = (changes same (save ∷ []) (rows, net_ledger rows)).1

consume-without_shares_example :
    (consume "EURUSD" "EURUSD" 40 restored).1.positions
    ≡ without_shares "EURUSD" 40 restored.positions restored.positions
consume-without_shares_example =
    consume-without_shares same rows (save ∷ []) "EURUSD" "EURUSD" 40
      (refl, (refl, (refl, (refl, tt)))) tt

positions-consume :
    (consume "EURUSD" "EURUSD" 40 restored).1.positions ≡ record newer { volume_left = 10 } ∷ []
unfolding consume net_ledger new_ledger change persist_net_ledger
positions-consume = refl

-- Order 40 filled, and order 41 gone without a deal.
abbrev report : SyncReport ℕ
report = record { positions = []; orders = []; deals = record reversal { entry = entry_in } ∷ [] }

abbrev waiting : OrderSnapshot ℕ
waiting = record {
  order_id = 40;
  volume = 80;
  price = some 7;
  stop_loss = none;
  take_profit = none;
}

abbrev before : List (OrderSnapshot ℕ)
before = waiting ∷ record waiting { order_id = 41 } ∷ []

is_cancelled-master_events_from_report_example :
    (is_cancelled 41 (master_events_from_report same report (some ([], before)) [] [] none).0 ≡ (
      contains 41 (keys (context_of same report (some ([], before)) [] []).prev_orders)
      && not (
          is_known 41 (context_of same report (some ([], before)) [] []).cur_orders
          || contains 41 (filled_orders report.deals))))
    × (is_filled 41 (master_events_from_report same report (some ([], before)) [] [] none).0 ≡ true
        → is_cancelled 41 (master_events_from_report same report (some ([], before)) [] [] none).0
          ≡ false)
is_cancelled-master_events_from_report_example =
    is_cancelled-master_events_from_report 41 refl same report [] before [] [] none

is_cancelled-report :
    is_cancelled 41 (master_events_from_report same report (some ([], before)) [] [] none).0 ≡ true
unfolding master_events_from_report
is_cancelled-report = refl
