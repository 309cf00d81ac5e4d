-- ===== src/Outbox/Deals.antt =====
-- _mt5_slave_deals of copier/src/copier/main.py, for a netting follower: which of the terminal's deals
-- take volume from the copies. A deal that opens changes no volume of a copy here and is passed; its
-- fill is handled in Service.
use forex_automated_copy_tra.Base.{
  ℕ, ◌∷◌, [], List, Bool, true, false, not, ◌&&◌, Option, none, some, if◌then◌else◌, contains, keep,
  ◌==◌,
}
use forex_automated_copy_tra.Mappings.{Mapping, reduce_fifo}
use forex_automated_copy_tra.Ingress.Book.{
  ReportDeal, Entry, entry_out, entry_out_by, entry_inout, trade_side,
}
use forex_automated_copy_tra.Outbox.{Kind, opens, closes}
use forex_automated_copy_tra.Drift.Items.{present}
use forex_automated_copy_tra.Outbox.Settle.{AckOutcome}

-- `o.kind in ('open', 'close')`
abbrev pub is_trade : Kind → Bool
is_trade opens = true
is_trade closes = true
is_trade _ = false

-- `d.entry in CLOSE_ENTRIES`
abbrev pub is_close : Entry → Bool
is_close entry_out = true
is_close entry_inout = true
is_close entry_out_by = true
is_close _ = false

-- The deal of an outcome that names a copy.
abbrev pub settled_deal : {F : Type 0} → AckOutcome F → Option ℕ
settled_deal o = elim o.client_order_id [
  | none ↦ none
  | some coid ↦ if o.ok && is_trade o.kind then present o.deal else none
]

-- The tickets that acknowledgements add to the account's settled ones.
unfoldable pub settle_deals : {F : Type 0} → List (AckOutcome F) → List ℕ → List ℕ
settle_deals [] settled = settled
settle_deals (o ∷ outcomes) settled = elim (settled_deal o) [
  | none ↦ settle_deals outcomes settled
  | some ticket ↦ settle_deals outcomes (ticket ∷ settled)
]

-- The loop over the deals.
unfoldable pub book_deals :
    {F : Type 0} → ℕ → List ℕ → List (ReportDeal F) → List (Mapping F) → List (Mapping F)
unfolding reduce_fifo
book_deals account settled [] rows = rows
book_deals account settled (d ∷ deals) rows = elim (trade_side d.deal_type) [
  | none ↦ book_deals account settled deals rows
  | some side ↦
      if contains d.ticket settled
      then book_deals account (keep (λ t. not (t == d.ticket)) settled) deals rows
      else if is_close d.entry
      then book_deals account settled deals (reduce_fifo account d.position d.volume rows)
      else book_deals account settled deals rows
]

-- `_mt5_slave_deals`
unfoldable pub slave_deals :
    {F : Type 0}
    → ℕ
    → List (AckOutcome F)
    → List ℕ
    → List (ReportDeal F)
    → List (Mapping F)
    → List (Mapping F)
unfolding settle_deals book_deals
slave_deals account outcomes settled deals rows =
    book_deals account (settle_deals outcomes settled) deals rows
