-- ===== src/Tests/DecisionTests.antt =====
-- A fleet of three: one slave is off, and one has no copy of the master's position 7.
use forex_automated_copy_tra.Base.{
  ℕ, ◌≡◌, refl, arith, some, none, true, false, List, [], ◌∷◌, contains, ◌&&◌,
}
use forex_automated_copy_tra.Decimal.{div, mul, to_integral_half_up}
use forex_automated_copy_tra.Sizing.{floor_to_step, mirror_volume, partial_close_volume}
use forex_automated_copy_tra.Text.{codes, str}
use forex_automated_copy_tra.Models.{
  SymbolInfo, SlaveConfig, MasterPositionOpened, MasterPositionClosed, position_opened,
  position_closed, MappingState, SlaveIntent, OpenMarket, open_market, PlacePending, close_position,
  close_unmapped, buy, limit,
}
use forex_automated_copy_tra.Decision.{decide, open_for, close_for}
use forex_automated_copy_tra.Decision.Loops.{alert_to, for_mapped}
use forex_automated_copy_tra.Decision.Fleet.{enabled_ids}
use forex_automated_copy_tra.Decision.Coverage.{addressed, VisitsAll}
use forex_automated_copy_tra.Decision.Safety.{decide-addresses-enabled}
use forex_automated_copy_tra.OrderIds.{position_coid, client_order_id_for, strip_close_suffix}
use forex_automated_copy_tra.OrderIds.Laws.{client_order_id_for-identifies, copy_of}

abbrev eurusd : SymbolInfo
eurusd = record {
  symbol_id = 1;
  name = "EURUSD";
  digits = 5;
  lot_size = 100;
  min_volume = 1;
  step_volume = 10;
}

abbrev slave : ℕ → SlaveConfig
slave account = record {
  account_id = account;
  enabled = true;
  multiplier = record { coeff = 5; places = 1 };
  symbols = ("EURUSD", eurusd) ∷ [];
}

abbrev fleet : List SlaveConfig
fleet = slave 11 ∷ record (slave 12) { enabled = false } ∷ slave 13 ∷ []

abbrev mapped : MappingState
mapped = record {
  position_entries =
      λ p. record { slave_account_id = 11; slave_position_id = 501; slave_volume = 50 } ∷ [];
  order_entries = λ o. [];
}

abbrev opened : MasterPositionOpened ℕ
opened = record {
  position_id = 7;
  symbol_name = "EURUSD";
  side = buy;
  volume = 100;
  lot_size = 100;
  stop_loss = none;
  take_profit = none;
  entry_price = some 110;
}

abbrev closed : MasterPositionClosed
closed = record {
  position_id = 7;
  symbol_name = "EURUSD";
  closed_volume = 100;
  remaining_volume = 0;
}

abbrev in_order : List ℕ → List ℕ
in_order xs = xs

in_order-VisitsAll : VisitsAll in_order
in_order-VisitsAll a xs = refl

decides_close :
    decide {F = ℕ} in_order (position_closed closed) mapped fleet
    ≡ some (
        close_position (record {
          slave_account_id = 11;
          position_id = 501;
          volume = 50;
          master_position_id = some 7;
        })
        ∷ alert_to 13 (close_unmapped 7)
        ∷ [])
unfolding decide for_mapped close_for partial_close_volume
decides_close = refl

decide-addresses-enabled_example :
    (out : List (SlaveIntent ℕ)) × (decide in_order (position_opened opened) mapped fleet
      ≡ some out)
    × ((a : ℕ) → addressed a out ≡ (true && contains a (enabled_ids fleet)))
decide-addresses-enabled_example =
    decide-addresses-enabled in_order (position_opened opened) mapped fleet in_order-VisitsAll
      (omega arith)

abbrev copy : OpenMarket ℕ
copy = record {
  slave_account_id = 11;
  master_position_id = 7;
  symbol_id = 1;
  side = buy;
  volume = 50;
  stop_loss = none;
  take_profit = none;
  label = codes "copy:m7";
  symbol_name = "EURUSD";
  entry_price = some 110;
}

abbrev order : PlacePending ℕ
order = record {
  slave_account_id = 11;
  master_order_id = 9;
  symbol_id = 1;
  side = buy;
  order_type = limit;
  volume = 50;
  price = 109;
  stop_loss = none;
  take_profit = none;
  expiry_ts_ms = none;
  label = codes "copy:o9";
  symbol_name = "EURUSD";
}

coid_of_copy : client_order_id_for (open_market copy) ≡ some (codes "cm7.11")
unfolding client_order_id_for position_coid str
coid_of_copy = refl

client_order_id_for-identifies_example :
    (copy_of (open_market copy) ≡ copy_of (open_market (record copy { volume = 20 })))
    × (strip_close_suffix (codes "cm7.11") ≡ none)
unfolding client_order_id_for
client_order_id_for-identifies_example =
    client_order_id_for-identifies (open_market copy) (open_market (record copy { volume = 20 }))
      (codes "cm7.11") coid_of_copy coid_of_copy

opens_copy : open_for opened (slave 11) ≡ some (open_market copy)
unfolding open_for str mirror_volume div floor_to_step to_integral_half_up mul
opens_copy = refl
