-- ===== src/Ingress/Pendings.antt =====
-- What becomes of the previous book's orders: which are reported as cancelled, and which as filled.
use forex_automated_copy_tra.Base.{
  ℕ, [], List, true, false, ◌&&◌, Option, none, some, String, ◌==◌, ◌≡◌, refl, arith, Bool-cases,
  Option-cases, inl, inr,
}
use forex_automated_copy_tra.Models.{Side, MasterEvent}
use forex_automated_copy_tra.Ingress.Book.{
  ReportDeal, NetLedger, Entry, entry_in, entry_out, entry_out_by, entry_inout, entry_none,
  trade_side, apply_deal,
}
use forex_automated_copy_tra.Ingress.Quiet.{
  cancels, fills_order, is_cancelled, is_filled, Ignores, any-apply_deal,
}
use forex_automated_copy_tra.Ingress.Report.{Context, is_known, fills}
use forex_automated_copy_tra.Ingress.Events.{deal_events, trade_events, ledger_events}

module _ {F : Type 0} where
  -- What one deal may say of an order: that it was filled, if the deal names it.
  abbrev pub OnlyFills : ℕ → ReportDeal F → List (MasterEvent F) → Type 0
  OnlyFills id d es =
      (is_cancelled id es ≡ false) × (is_filled id es ≡ true → (fills d && (id == d.order)) ≡ true)

  pub cancels-Ignores : (id : ℕ) → Ignores {F = F} (cancels id)
  cancels-Ignores id = (λ e. refl, (λ e. refl, λ e. refl))

  pub fills_order-Ignores : (id : ℕ) → Ignores {F = F} (fills_order id)
  fills_order-Ignores id = (λ e. refl, (λ e. refl, λ e. refl))

  trade_events-OnlyFills :
      (id : ℕ) (c : Context F) (d : ReportDeal F) (side : Side) (e : Entry)
      → (id == 0) ≡ false
      → OnlyFills id (record d { entry = e }) (trade_events c (record d { entry = e }) side)
  trade_events-OnlyFills id c d side entry_in nonzero =
      elim (Bool-cases (is_known d.order c.prev_orders)) [
        | inl known ↦ rw known (refl, λ filled. ground (arith, nonzero, filled))
        | inr unknown ↦ rw unknown (refl, λ filled. absurd (ground (arith, filled)))
      ]
  trade_events-OnlyFills id c d side entry_out nonzero =
      (refl, λ filled. absurd (ground (arith, filled)))
  trade_events-OnlyFills id c d side entry_out_by nonzero =
      (refl, λ filled. absurd (ground (arith, filled)))
  trade_events-OnlyFills id c d side entry_inout nonzero =
      (refl, λ filled. absurd (ground (arith, filled)))
  trade_events-OnlyFills id c d side entry_none nonzero =
      (refl, λ filled. absurd (ground (arith, filled)))

  silent-OnlyFills :
      (id : ℕ) (d : ReportDeal F) (es : List (MasterEvent F))
      → is_cancelled id es ≡ false
      → is_filled id es ≡ false
      → OnlyFills id d es
  silent-OnlyFills id d es uncancelled unfilled =
      (uncancelled, λ filled. absurd (ground (arith, filled, unfilled)))

  produced-OnlyFills :
      (id : ℕ) (d : ReportDeal F) (canonical : String) (stop_loss take_profit : Option F)
      (l : NetLedger F)
      → OnlyFills id d (apply_deal d canonical stop_loss take_profit l).0
  produced-OnlyFills id d canonical stop_loss take_profit l =
      silent-OnlyFills id d (apply_deal d canonical stop_loss take_profit l).0
        (any-apply_deal (cancels id) d canonical stop_loss take_profit l (cancels-Ignores id))
        (any-apply_deal (fills_order id) d canonical stop_loss take_profit l
          (fills_order-Ignores id))

  ledger_events-OnlyFills :
      (id : ℕ) (c : Context F) (d : ReportDeal F) (e : Entry) (l : NetLedger F)
      → (id == 0) ≡ false
      → OnlyFills id (record d { entry = e }) (ledger_events c (record d { entry = e }) l).0
  ledger_events-OnlyFills id c d entry_in l nonzero =
      elim (Bool-cases (is_known d.order c.prev_orders)) [
        | inl known ↦ rw known (refl, λ filled. ground (arith, nonzero, filled))
        | inr unknown ↦ rw unknown (produced-OnlyFills id (record d { entry = entry_in }) _ _ _ l)
      ]
  ledger_events-OnlyFills id c d entry_out l nonzero =
      produced-OnlyFills id (record d { entry = entry_out }) _ _ _ l
  ledger_events-OnlyFills id c d entry_out_by l nonzero =
      produced-OnlyFills id (record d { entry = entry_out_by }) _ _ _ l
  ledger_events-OnlyFills id c d entry_inout l nonzero =
      produced-OnlyFills id (record d { entry = entry_inout }) _ _ _ l
  ledger_events-OnlyFills id c d entry_none l nonzero =
      produced-OnlyFills id (record d { entry = entry_none }) _ _ _ l

  pub deal_events-OnlyFills :
      (id : ℕ) (c : Context F) (d : ReportDeal F) (ledger : Option (NetLedger F))
      → (id == 0) ≡ false
      → OnlyFills id d (deal_events c d ledger).0
  unfolding deal_events
  deal_events-OnlyFills id c d none nonzero = elim (Option-cases (trade_side d.deal_type)) [
    | inl e ↦ rw (deal_events, e) (silent-OnlyFills id d [] refl refl)
    | inr (side, e) ↦ rw (deal_events, e) (trade_events-OnlyFills id c d side d.entry nonzero)
  ]
  deal_events-OnlyFills id c d (some l) nonzero = elim (Option-cases (trade_side d.deal_type)) [
    | inl e ↦ rw (deal_events, e) (silent-OnlyFills id d [] refl refl)
    | inr (side, e) ↦ rw (deal_events, e) (ledger_events-OnlyFills id c d d.entry l nonzero)
  ]
