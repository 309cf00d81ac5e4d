-- ===== src/Ingress/Events.antt =====
-- master_events_from_report of copier/src/copier/mt5/ingress.py. `same` tells whether two levels are
-- equal: two floats, or two missing ones.
use forex_automated_copy_tra.Base.{
  ℕ, ◌∷◌, [], List, ◌++◌, Bool, ◌&&◌, ◌||◌, Option, none, some, String, Dict, if◌then◌else◌, ◌==◌,
  lookup, contains, keys,
}
use forex_automated_copy_tra.Models.{
  Side, SymbolInfo, MasterEvent, position_opened, position_closed, position_sltp_amended,
  pending_placed, pending_replaced, pending_cancelled, pending_filled,
}
use forex_automated_copy_tra.Decision.Loops.{get_symbol}
use forex_automated_copy_tra.Drift.Items.{PositionSnapshot}
use forex_automated_copy_tra.Ingress.Book.{
  ReportDeal, NetLedger, entry_in, entry_out, entry_out_by, entry_inout, entry_none, trade_side,
  apply_deal, centilots,
}
use forex_automated_copy_tra.Ingress.Stored.{apply_protection}
use forex_automated_copy_tra.Ingress.Report.{
  ReportPosition, ReportOrder, SyncReport, OrderSnapshot, Context, side_of, pending_type_of,
  canonical_name, index_by, filled_orders, sort_deals, stop_of, target_of, volume_of, is_known,
}

abbrev pub Book : Type 0 → Type 0
Book F = Option (List (PositionSnapshot F) × List (OrderSnapshot F))

module _ {F : Type 0} where
  -- `lot_size(broker_name)`
  abbrev pub lot_size_of : Context F → String → ℕ
  lot_size_of c name = elim (get_symbol name c.symbols) [ none ↦ centilots | some i ↦ i.lot_size ]

  -- A deal of a hedging master.
  abbrev pub trade_events : Context F → ReportDeal F → Side → List (MasterEvent F)
  trade_events c d side =
      let pos = lookup d.position c.cur_positions in
      let closed = position_closed record {
        position_id = d.position;
        symbol_name = canonical_name c.names d.symbol;
        closed_volume = d.volume;
        remaining_volume = volume_of pos;
      } in
      elim d.entry [
        | entry_in ↦
            if is_known d.order c.prev_orders
            then pending_filled record { order_id = d.order; position_id = d.position } ∷ []
            else position_opened record {
              position_id = d.position;
              symbol_name = canonical_name c.names d.symbol;
              side = side;
              volume = d.volume;
              lot_size = lot_size_of c d.symbol;
              stop_loss = stop_of pos;
              take_profit = target_of pos;
              entry_price = some d.price;
            }
              ∷ []
        | entry_out ↦ closed ∷ []
        | entry_out_by ↦ closed ∷ []
        | entry_inout ↦ closed ∷ []
        | entry_none ↦ []
      ]

  -- A deal of a netting master.
  abbrev pub ledger_events :
      Context F → ReportDeal F → NetLedger F → List (MasterEvent F) × NetLedger F
  ledger_events c d l =
      let pos = lookup d.position c.cur_positions in
      let produced =
        apply_deal d (canonical_name c.names d.symbol) (stop_of pos) (target_of pos) l in
      elim d.entry [
        | entry_in ↦
            if is_known d.order c.prev_orders
            then (
              pending_filled record { order_id = d.order; position_id = d.ticket } ∷ [],
              produced.1,
            )
            else produced
        | _ ↦ produced
      ]

  -- One deal of the loop.
  unfoldable pub deal_events :
      Context F → ReportDeal F → Option (NetLedger F) → List (MasterEvent F) × Option (NetLedger F)
  unfolding apply_deal canonical_name get_symbol
  deal_events c d ledger = elim (trade_side d.deal_type) [
    | none ↦ ([], ledger)
    | some side ↦ elim ledger [
      | none ↦ (trade_events c d side, none)
      | some l ↦ let produced = ledger_events c d l in (produced.0, some produced.1)
    ]
  ]

  unfoldable pub all_deal_events :
      Context F
      → List (ReportDeal F)
      → Option (NetLedger F)
      → List (MasterEvent F) × Option (NetLedger F)
  unfolding deal_events
  all_deal_events c [] ledger = ([], ledger)
  all_deal_events c (d ∷ ds) ledger =
      let one = deal_events c d ledger in
      let rest = all_deal_events c ds one.1 in (one.0 ++ rest.0, rest.1)

  abbrev pub placed_event : Context F → ReportOrder F → MasterEvent F
  placed_event c o = pending_placed record {
    order_id = o.ticket;
    symbol_name = canonical_name c.names o.symbol;
    side = side_of o.order_type;
    order_type = pending_type_of o.order_type;
    volume = o.volume;
    lot_size = lot_size_of c o.symbol;
    price = o.price;
    stop_loss = o.stop_loss;
    take_profit = o.take_profit;
    expiry_ts_ms = none;
  }

  abbrev pub replaced_event : Context F → ReportOrder F → MasterEvent F
  replaced_event c o = pending_replaced record {
    order_id = o.ticket;
    symbol_name = canonical_name c.names o.symbol;
    lot_size = lot_size_of c o.symbol;
    order_type = pending_type_of o.order_type;
    volume = o.volume;
    price = o.price;
    stop_loss = o.stop_loss;
    take_profit = o.take_profit;
  }

  -- The orders that are gone without an IN deal.
  abbrev pub cancelled_events : Context F → List ℕ → List ℕ → List (MasterEvent F)
  cancelled_events c filled [] = []
  cancelled_events c filled (ticket ∷ tickets) =
      let rest = cancelled_events c filled tickets in
      if is_known ticket c.cur_orders || contains ticket filled
      then rest
      else pending_cancelled record { order_id = ticket } ∷ rest

  module _ (same : Option F → Option F → Bool) where
    -- One position of the loop over changed protection.
    unfoldable pub amended_events :
        Context F
        → ReportPosition F
        → Option (NetLedger F)
        → List (MasterEvent F) × Option (NetLedger F)
    unfolding apply_protection
    amended_events c pos ledger = elim (lookup pos.ticket c.prev_positions) [
      | none ↦ ([], ledger)
      | some prev ↦
          if same prev.stop_loss pos.stop_loss && same prev.take_profit pos.take_profit
          then ([], ledger)
          else elim ledger [
            | none ↦ (
              position_sltp_amended record {
                position_id = pos.ticket;
                stop_loss = pos.stop_loss;
                take_profit = pos.take_profit;
              }
                  ∷ [],
              none,
            )
            | some l ↦
                let produced = apply_protection same pos.symbol pos.stop_loss pos.take_profit l in
                (produced.0, some produced.1)
          ]
    ]

    unfoldable pub all_amended_events :
        Context F
        → Dict (ReportPosition F)
        → Option (NetLedger F)
        → List (MasterEvent F) × Option (NetLedger F)
    unfolding amended_events
    all_amended_events c [] ledger = ([], ledger)
    all_amended_events c ((ticket, pos) ∷ positions) ledger =
        let one = amended_events c pos ledger in
        let rest = all_amended_events c positions one.1 in (one.0 ++ rest.0, rest.1)

    -- One order of the loop over the working orders.
    unfoldable pub order_events : Context F → ReportOrder F → List (MasterEvent F)
    unfolding canonical_name get_symbol
    order_events c o = elim (lookup o.ticket c.prev_orders) [
      | none ↦ placed_event c o ∷ []
      | some prev ↦
          if prev.volume == o.volume
            && same prev.price (some o.price)
            && same prev.stop_loss o.stop_loss
            && same prev.take_profit o.take_profit
          then []
          else replaced_event c o ∷ []
    ]

    unfoldable pub all_order_events : Context F → Dict (ReportOrder F) → List (MasterEvent F)
    unfolding order_events
    all_order_events c [] = []
    all_order_events c ((ticket, o) ∷ orders) = order_events c o ++ all_order_events c orders

    abbrev pub context_of :
        SyncReport F → Book F → List (String × String) → List (String × SymbolInfo) → Context F
    context_of report previous names symbols = record {
      names = names;
      symbols = symbols;
      prev_positions = elim previous [
        | none ↦ []
        | some p ↦ index_by (λ (x : PositionSnapshot F). x.position_id) p.0 []
      ];
      prev_orders = elim previous [
        | none ↦ []
        | some p ↦ index_by (λ (x : OrderSnapshot F). x.order_id) p.1 []
      ];
      cur_positions = index_by (λ (x : ReportPosition F). x.ticket) report.positions [];
      cur_orders = index_by (λ (x : ReportOrder F). x.ticket) report.orders [];
    }

    unfoldable pub master_events_from_report :
        SyncReport F
        → Book F
        → List (String × String)
        → List (String × SymbolInfo)
        → Option (NetLedger F)
        → List (MasterEvent F) × Option (NetLedger F)
    unfolding all_deal_events all_amended_events all_order_events index_by sort_deals
    master_events_from_report report previous names symbols ledger =
        let c = context_of report previous names symbols in
        let dealt = all_deal_events c (sort_deals [] report.deals) ledger in
        elim previous [
          | none ↦ dealt
          | some p ↦
              let amended = all_amended_events c c.cur_positions dealt.1 in
              (
                dealt.0
                    ++ (amended.0
                        ++ (all_order_events c c.cur_orders
                            ++ cancelled_events c (filled_orders report.deals)
                                (keys c.prev_orders))),
                amended.1,
              )
        ]
