-- ===== src/Tests/ReconcileTests.antt =====
-- An item that is shown, dismissed and shown again, and the excess of a net position.
use forex_automated_copy_tra.Base.{ℕ, ◌≡◌, refl, true, false, none, some, [], ◌∷◌}
use forex_automated_copy_tra.Text.{Text, codes, text_eq}
use forex_automated_copy_tra.Models.{buy}
use forex_automated_copy_tra.Drift.Signed.{pos}
use forex_automated_copy_tra.Drift.Items.{
  PositionSnapshot, DriftItem, orphan_slave_position, net_differs,
}
use forex_automated_copy_tra.Reconcile.{Reconciler, has_id, show_items, dismiss, restart}
use forex_automated_copy_tra.Reconcile.Dismissals.{show_all, dismiss-hides}
use forex_automated_copy_tra.Reconcile.Restarts.{computes, dismisses, act_all, restart-act_all}
use forex_automated_copy_tra.Mappings.{Mapping, active}
use forex_automated_copy_tra.Ingress.Book.{ReportDeal, sell_deal, entry_out}
use forex_automated_copy_tra.Outbox.{closes}
use forex_automated_copy_tra.Outbox.Settle.{AckOutcome}

abbrev held : PositionSnapshot ℕ
held = record {
  position_id = 60;
  symbol_id = 3;
  side = buy;
  volume = 130;
  price = 11;
  label = [];
  stop_loss = none;
  take_profit = none;
}

abbrev digest : Text → Text
digest t = codes "d"

abbrev excess : DriftItem
excess = record {
  id = codes "d";
  kind = orphan_slave_position;
  account_id = some 8;
  position_id = some 60;
  order_id = none;
  detail = net_differs 60 (pos 130) 1 (pos 100);
  volume = some 30;
}

abbrev start : Reconciler ℕ
start = record {
  current = excess ∷ [];
  dismissals = [];
  stored = [];
  slave_positions = [];
  events = [];
}

abbrev after : Reconciler ℕ
after = act_all (dismisses (codes "d") ∷ []) start

dismissed_once : dismiss (codes "d") start ≡ some after
unfolding dismiss text_eq
dismissed_once = refl

dismiss-hides_example :
    (has_id (codes "d") (show_all ((excess ∷ []) ∷ []) after).current ≡ false)
    × (has_id
          (codes "d")
          (show_items (excess ∷ []) (show_items [] (show_all ((excess ∷ []) ∷ []) after))).current
        ≡ true)
unfolding text_eq
dismiss-hides_example =
    dismiss-hides (codes "d") start after ((excess ∷ []) ∷ []) [] (excess ∷ []) dismissed_once
      (refl, tt) refl refl

restart-act_all_example :
    (restart (act_all (dismisses (codes "d") ∷ computes [] ∷ []) start)).dismissals
    ≡ (act_all (dismisses (codes "d") ∷ computes [] ∷ []) start).dismissals
restart-act_all_example = restart-act_all (dismisses (codes "d") ∷ computes [] ∷ []) start refl

-- The copy on the position, the acknowledgement of the close, and its deal.
abbrev copy : Mapping ℕ
copy = record {
  master_position_id = some 1;
  master_order_id = none;
  slave_account_id = 8;
  slave_position_id = some 60;
  slave_order_id = none;
  slave_volume = some 100;
  client_order_id = some (codes "cm1.8");
  status = active;
  error = none;
  org_id = 1;
  symbol = none;
  fill_price = none;
}

abbrev acked : AckOutcome ℕ
acked = record {
  command_id = 5;
  kind = closes;
  client_order_id = none;
  ok = true;
  message = [];
  position = some 60;
  order = none;
  price = some 11;
  volume = some 30;
  deal = some 90;
}

abbrev out : ReportDeal ℕ
out = record {
  ticket = 90;
  position = 60;
  order = 0;
  symbol = "EURUSD";
  deal_type = sell_deal;
  entry = entry_out;
  volume = 30;
  price = 11;
  time_ms = 1000;
}
