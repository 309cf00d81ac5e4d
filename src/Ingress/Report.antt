-- ===== src/Ingress/Report.antt =====
-- master_events_from_report of copier/src/copier/mt5/ingress.py, with the report's positions and orders
-- of mt5/protocol.py as far as it reads them.
use forex_automated_copy_tra.Base.{
  ℕ, ◌∷◌, [], List, Bool, true, false, not, ◌&&◌, ◌||◌, Option, none, some, String, str_eq,
  if◌then◌else◌, ltb, leb, ◌==◌, Dict, insert, lookup,
}
use forex_automated_copy_tra.Models.{Side, buy, sell, PendingType, limit, stop, SymbolInfo}
use forex_automated_copy_tra.Drift.Items.{PositionSnapshot}
use forex_automated_copy_tra.Ingress.Book.{ReportDeal, entry_in}

pub data OrderType : Type 0 where
  buy_limit sell_limit buy_stop sell_stop : OrderType

pub record ReportPosition (F : Type 0) : Type 0 where
  pub ticket : ℕ
  pub symbol : String
  pub volume : ℕ
  pub stop_loss : Option F
  pub take_profit : Option F

pub record ReportOrder (F : Type 0) : Type 0 where
  pub ticket : ℕ
  pub symbol : String
  pub order_type : OrderType
  pub volume : ℕ
  pub price : F
  pub stop_loss : Option F
  pub take_profit : Option F

pub record SyncReport (F : Type 0) : Type 0 where
  pub positions : List (ReportPosition F)
  pub orders : List (ReportOrder F)
  pub deals : List (ReportDeal F)

-- An order of the previous report; the registry fills in its price.
pub record OrderSnapshot (F : Type 0) : Type 0 where
  pub order_id : ℕ
  pub volume : ℕ
  pub price : Option F
  pub stop_loss : Option F
  pub take_profit : Option F

abbrev pub side_of : OrderType → Side
side_of buy_limit = buy
side_of buy_stop = buy
side_of _ = sell

abbrev pub pending_type_of : OrderType → PendingType
pending_type_of buy_limit = limit
pending_type_of sell_limit = limit
pending_type_of _ = stop

-- `names.get(name, name)`
unfoldable pub canonical_name : List (String × String) → String → String
canonical_name [] name = name
canonical_name ((broker, canonical) ∷ names) name =
    if str_eq broker name then canonical else canonical_name names name

-- `d.order`, when it is one; 0 is none.
abbrev pub fills : {F : Type 0} → ReportDeal F → Bool
fills d = not (d.order == 0) && elim d.entry [ entry_in ↦ true | _ ↦ false ]

-- `{key(x): x for x in xs}`
unfoldable pub index_by : {A : Type 0} → (A → ℕ) → List A → Dict A → Dict A
index_by key [] d = d
index_by key (x ∷ xs) d = index_by key xs (insert (key x) x d)

-- What a report is read against: the broker's names, the terminal's symbols, the previous book, and
-- the report's own positions and orders by ticket.
pub record Context (F : Type 0) : Type 0 where
  pub names : List (String × String)
  pub symbols : List (String × SymbolInfo)
  pub prev_positions : Dict (PositionSnapshot F)
  pub prev_orders : Dict (OrderSnapshot F)
  pub cur_positions : Dict (ReportPosition F)
  pub cur_orders : Dict (ReportOrder F)

abbrev pub is_known : {A : Type 0} → ℕ → Dict A → Bool
is_known id d = elim (lookup id d) [ none ↦ false | some x ↦ true ]

module _ {F : Type 0} where
  -- `{d.order for d in deals if d.order and d.entry == "IN"}`
  abbrev pub filled_orders : List (ReportDeal F) → List ℕ
  filled_orders [] = []
  filled_orders (d ∷ ds) = let rest = filled_orders ds in if fills d then d.order ∷ rest else rest

  abbrev pub deal_not_after : ReportDeal F → ReportDeal F → Bool
  deal_not_after a b = ltb a.time_ms b.time_ms || (a.time_ms == b.time_ms && leb a.ticket b.ticket)

  unfoldable pub place_deal : ReportDeal F → List (ReportDeal F) → List (ReportDeal F)
  place_deal d [] = d ∷ []
  place_deal d (e ∷ es) =
      let rest = place_deal d es in if deal_not_after e d then e ∷ rest else d ∷ e ∷ es

  -- The deals by time and ticket, in a stable sort.
  unfoldable pub sort_deals : List (ReportDeal F) → List (ReportDeal F) → List (ReportDeal F)
  unfolding place_deal
  sort_deals sorted [] = sorted
  sort_deals sorted (d ∷ ds) = sort_deals (place_deal d sorted) ds

  abbrev pub stop_of : Option (ReportPosition F) → Option F
  stop_of none = none
  stop_of (some p) = p.stop_loss

  abbrev pub target_of : Option (ReportPosition F) → Option F
  target_of none = none
  target_of (some p) = p.take_profit

  abbrev pub volume_of : Option (ReportPosition F) → ℕ
  volume_of none = 0
  volume_of (some p) = p.volume
