-- ===== src/Ingress/Book.antt =====
-- The NetLedger of copier/src/copier/mt5/ingress.py, with the deals of mt5/protocol.py. `F` is the type
-- of a price, a Python float. A virtual position is changed in place, so it is the same object in the
-- list and in the dict of changed rows: an operation here writes both.
use forex_automated_copy_tra.Base.{
  ℕ, ◌+◌, ◌-◌, ◌∷◌, [], List, ◌++◌, Bool, not, ◌&&◌, ◌||◌, Option, none, some, String, str_eq,
  if◌then◌else◌, ltb, leb, ◌==◌, min, Dict, insert, keep, map,
}
use forex_automated_copy_tra.Models.{Side, buy, sell, MasterEvent, position_opened, position_closed}

pub data DealType : Type 0 where
  buy_deal sell_deal balance credit other_deal : DealType

-- The last is the empty text of balance operations.
pub data Entry : Type 0 where
  entry_in entry_out entry_inout entry_out_by entry_none : Entry

-- The fields that the ingress reads.
pub record ReportDeal (F : Type 0) : Type 0 where
  pub ticket : ℕ
  pub position : ℕ
  pub order : ℕ
  pub symbol : String
  pub deal_type : DealType
  pub entry : Entry
  pub volume : ℕ
  pub price : F
  pub time_ms : ℕ

pub record VirtualPosition (F : Type 0) : Type 0 where
  pub virtual_id : ℕ
  pub symbol : String
  pub side : Side
  pub volume_open : ℕ
  pub volume_left : ℕ
  pub stop_loss : Option F
  pub take_profit : Option F
  pub opened_at_ms : ℕ

pub record NetLedger (F : Type 0) : Type 0 where
  pub positions : List (VirtualPosition F)
  pub dirty : Dict (VirtualPosition F)
  pub deleted : List ℕ

-- `Side(deal_type)` of a trade.
abbrev pub trade_side : DealType → Option Side
trade_side buy_deal = some buy
trade_side sell_deal = some sell
trade_side _ = none

-- MT5 volumes are in hundredths of a lot.
abbrev pub centilots : ℕ
centilots = 100

-- `d.pop(k, None)`
abbrev pub pop : {V : Type 0} → ℕ → Dict V → Dict V
pop k d = keep (λ entry. not (entry.0 == k)) d

-- The positions after the loop of `_consume`, and what it took: each position as it is after the
-- cut, with the volume taken.
pub record Consumed (F : Type 0) : Type 0 where
  pub left : List (VirtualPosition F)
  pub cuts : List (VirtualPosition F × ℕ)

module _ {F : Type 0} where
  -- `_order_key(a) <= _order_key(b)`
  abbrev pub not_after : VirtualPosition F → VirtualPosition F → Bool
  not_after a b =
      ltb a.opened_at_ms b.opened_at_ms
      || (a.opened_at_ms == b.opened_at_ms && leb a.virtual_id b.virtual_id)

  -- The place after all that come no later.
  unfoldable pub place : VirtualPosition F → List (VirtualPosition F) → List (VirtualPosition F)
  place v [] = v ∷ []
  place v (w ∷ ws) = let rest = place v ws in if not_after w v then w ∷ rest else v ∷ w ∷ ws

  -- The loop of a stable sort by `_order_key`: the rows in front are sorted already.
  unfoldable pub sort_onto :
      List (VirtualPosition F) → List (VirtualPosition F) → List (VirtualPosition F)
  unfolding place
  sort_onto sorted [] = sorted
  sort_onto sorted (v ∷ vs) = sort_onto (place v sorted) vs

  -- `sorted(positions, key=_order_key)`
  abbrev pub sort_positions : List (VirtualPosition F) → List (VirtualPosition F)
  sort_positions vs = sort_onto [] vs

  -- `NetLedger(rows)`
  unfoldable pub new_ledger : List (VirtualPosition F) → NetLedger F
  unfolding sort_onto
  new_ledger rows = record { positions = sort_positions rows; dirty = []; deleted = [] }

  abbrev pub opened_by : ReportDeal F → Side → ℕ → Option F → Option F → VirtualPosition F
  opened_by deal side volume stop_loss take_profit = record {
    virtual_id = deal.ticket;
    symbol = deal.symbol;
    side = side;
    volume_open = volume;
    volume_left = volume;
    stop_loss = stop_loss;
    take_profit = take_profit;
    opened_at_ms = deal.time_ms;
  }

  -- `_open` with the position that it makes
  unfoldable pub open_position : VirtualPosition F → NetLedger F → NetLedger F
  unfolding sort_onto
  open_position v l = record {
    positions = sort_positions (l.positions ++ v ∷ []);
    dirty = insert v.virtual_id v l.dirty;
    deleted = keep (λ d. not (d == v.virtual_id)) l.deleted;
  }

  abbrev pub taken : String → ℕ → VirtualPosition F → ℕ
  taken symbol remaining v = if str_eq v.symbol symbol then min v.volume_left remaining else 0

  abbrev pub cut : ℕ → VirtualPosition F → VirtualPosition F
  cut take v = record v { volume_left = v.volume_left - take }

  -- One position of the loop, with the outcome of the rest; a position that loses nothing is passed.
  abbrev pub consume_one : ℕ → VirtualPosition F → Consumed F → Consumed F
  consume_one take v rest =
      if leb take 0
      then record rest { left = v ∷ rest.left }
      else if leb (v.volume_left - take) 0
      then record rest { cuts = (cut take v, take) ∷ rest.cuts }
      else record { left = cut take v ∷ rest.left; cuts = (cut take v, take) ∷ rest.cuts }

  unfoldable pub consume_loop : String → ℕ → List (VirtualPosition F) → Consumed F
  consume_loop symbol remaining [] = record { left = []; cuts = [] }
  consume_loop symbol remaining (v ∷ vs) =
      let take = taken symbol remaining v in
      consume_one take v (consume_loop symbol (remaining - take) vs)

  abbrev pub closed_event : String → VirtualPosition F × ℕ → MasterEvent F
  closed_event canonical (v, take) = position_closed record {
    position_id = v.virtual_id;
    symbol_name = canonical;
    closed_volume = take;
    remaining_volume = v.volume_left;
  }

  -- What the loop writes into `_dirty` and `_deleted`.
  abbrev pub mark_dirty :
      List (VirtualPosition F × ℕ) → Dict (VirtualPosition F) → Dict (VirtualPosition F)
  mark_dirty [] dirty = dirty
  mark_dirty ((v, take) ∷ cuts) dirty =
      mark_dirty cuts
        (if leb v.volume_left 0 then pop v.virtual_id dirty else insert v.virtual_id v dirty)

  abbrev pub mark_deleted : List (VirtualPosition F × ℕ) → List ℕ → List ℕ
  mark_deleted [] deleted = deleted
  mark_deleted ((v, take) ∷ cuts) deleted =
      mark_deleted cuts (if leb v.volume_left 0 then deleted ++ v.virtual_id ∷ [] else deleted)

  unfoldable pub consume : String → String → ℕ → NetLedger F → List (MasterEvent F) × NetLedger F
  unfolding consume_loop
  consume symbol canonical volume l =
      let walk = consume_loop symbol volume l.positions in
      (
        map (closed_event canonical) walk.cuts,
        record {
          positions = walk.left;
          dirty = mark_dirty walk.cuts l.dirty;
          deleted = mark_deleted walk.cuts l.deleted;
        },
      )

  -- `sum(v.volume_left for v in self._of_symbol(symbol))`
  abbrev pub held : String → List (VirtualPosition F) → ℕ
  held symbol [] = 0
  held symbol (v ∷ vs) = (if str_eq v.symbol symbol then v.volume_left else 0) + held symbol vs

  abbrev pub opened_event : ReportDeal F → String → Side → ℕ → Option F → Option F → MasterEvent F
  opened_event deal canonical side volume stop_loss take_profit = position_opened record {
    position_id = deal.ticket;
    symbol_name = canonical;
    side = side;
    volume = volume;
    lot_size = centilots;
    stop_loss = stop_loss;
    take_profit = take_profit;
    entry_price = some deal.price;
  }

  -- `apply_deal` of a trade, by its entry
  unfoldable pub apply_trade :
      ReportDeal F
      → String
      → Side
      → Option F
      → Option F
      → NetLedger F
      → List (MasterEvent F) × NetLedger F
  unfolding open_position consume
  apply_trade deal canonical side stop_loss take_profit l = elim deal.entry [
    | entry_in ↦ (
      opened_event deal canonical side deal.volume stop_loss take_profit ∷ [],
      open_position (opened_by deal side deal.volume stop_loss take_profit) l,
    )
    | entry_out ↦ consume deal.symbol canonical deal.volume l
    | entry_out_by ↦ consume deal.symbol canonical deal.volume l
    | entry_inout ↦
        let total = held deal.symbol l.positions in
        let closed = consume deal.symbol canonical total l in
        let remainder = deal.volume - total in
        if ltb 0 remainder
        then (
          closed.0 ++ opened_event deal canonical side remainder stop_loss take_profit ∷ [],
          open_position (opened_by deal side remainder stop_loss take_profit) closed.1,
        )
        else closed
    | entry_none ↦ ([], l)
  ]

  unfoldable pub apply_deal :
      ReportDeal F → String → Option F → Option F → NetLedger F → List (MasterEvent F) × NetLedger F
  unfolding apply_trade
  apply_deal deal canonical stop_loss take_profit l = elim (trade_side deal.deal_type) [
    | none ↦ ([], l)
    | some side ↦
        if leb deal.volume 0
        then ([], l)
        else apply_trade deal canonical side stop_loss take_profit l
  ]
