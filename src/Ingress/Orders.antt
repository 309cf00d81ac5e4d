-- ===== src/Ingress/Orders.antt =====
-- What becomes of the previous book's orders: which a report's events cancel, and which they fill.
use forex_automated_copy_tra.Base.{
  ℕ, ◌∷◌, [], List, ◌++◌, Bool, true, false, not, ◌&&◌, ◌||◌, Option, none, some, String, Dict,
  ◌==◌, ==_iff, lookup, contains, keys, ◌≡◌, refl, sym, ◌∙◌, ap, arith, Bool-cases, Option-cases,
  inl, inr,
}
use forex_automated_copy_tra.Models.{SymbolInfo, MasterEvent, pending_placed, pending_replaced}
use forex_automated_copy_tra.Drift.Items.{PositionSnapshot}
use forex_automated_copy_tra.Ingress.Book.{ReportDeal, NetLedger}
use forex_automated_copy_tra.Ingress.Quiet.{
  any, cancels, fills_order, is_cancelled, is_filled, Ignores, any-append, any-apply_protection,
}
use forex_automated_copy_tra.Ingress.Pendings.{
  deal_events-OnlyFills, cancels-Ignores, fills_order-Ignores,
}
use forex_automated_copy_tra.Ingress.Report.{
  ReportPosition, ReportOrder, SyncReport, OrderSnapshot, Context, filled_orders, sort_deals,
  place_deal, is_known, fills, deal_not_after,
}
use forex_automated_copy_tra.Ingress.Events.{
  deal_events, all_deal_events, amended_events, all_amended_events, order_events, all_order_events,
  cancelled_events, context_of, master_events_from_report,
}

or_false : (b : Bool) → (b || false) ≡ b
or_false true = refl
or_false false = refl

no_more : (a b : Bool) → (a && not (b || true)) ≡ false
no_more true true = refl
no_more true false = refl
no_more false b = refl

contains-place_deal :
    {F : Type 0} (id : ℕ) (d : ReportDeal F) (ds : List (ReportDeal F))
    → contains id (filled_orders (place_deal d ds)) ≡ contains id (filled_orders (d ∷ ds))
unfolding place_deal
contains-place_deal id d [] = refl
contains-place_deal id d (e ∷ es) = elim (Bool-cases (deal_not_after e d)) [
  | inl first ↦ rw first (ground (arith, contains-place_deal id d es))
  | inr last ↦ rw last refl
]

-- Sorting keeps the orders that the deals fill.
contains-sort_deals :
    {F : Type 0} (id : ℕ) (sorted ds : List (ReportDeal F))
    → contains id (filled_orders (sort_deals sorted ds))
      ≡ (contains id (filled_orders ds) || contains id (filled_orders sorted))
unfolding sort_deals
contains-sort_deals id sorted [] = refl
contains-sort_deals id sorted (d ∷ ds) =
    ground (arith, contains-sort_deals id (place_deal d sorted) ds, contains-place_deal id d sorted)

module _ {F : Type 0} (id : ℕ) (nonzero : (id == 0) ≡ false) where
  names_head :
      (d : ReportDeal F) (ds : List (ReportDeal F))
      → (fills d && (id == d.order)) ≡ true
      → contains id (filled_orders (d ∷ ds)) ≡ true
  names_head d ds named = ground (arith, named)

  names_tail :
      (d : ReportDeal F) (ds : List (ReportDeal F))
      → contains id (filled_orders ds) ≡ true
      → contains id (filled_orders (d ∷ ds)) ≡ true
  names_tail d ds named = ground (arith, named)

  -- What the deals may say of an order: that it was filled, if one of them names it.
  all_deal_events-fills :
      (c : Context F) (ds : List (ReportDeal F)) (ledger : Option (NetLedger F))
      → (is_cancelled id (all_deal_events c ds ledger).0 ≡ false)
        × (is_filled id (all_deal_events c ds ledger).0 ≡ true
            → contains id (filled_orders ds) ≡ true)
  unfolding all_deal_events
  all_deal_events-fills c [] ledger = (refl, λ filled. absurd (ground (arith, filled)))
  all_deal_events-fills c (d ∷ ds) ledger =
      let one = deal_events c d ledger in
      let rest = all_deal_events c ds one.1 in
      let here = deal_events-OnlyFills id c d ledger nonzero in
      let later = all_deal_events-fills c ds one.1 in
      (
        any-append (cancels id) one.0 rest.0 ∙ rw (here.0, later.0) refl,
        λ filled. elim (Bool-cases (is_filled id one.0)) [
          | inl now ↦ names_head d ds (here.1 now)
          | inr not_now ↦
              names_tail d ds
                (later.1 (rw not_now at (sym (any-append (fills_order id) one.0 rest.0) ∙ filled)))
        ],
      )

  module _ (same : Option F → Option F → Bool) where
    amended_events-quiet :
        (test : MasterEvent F → Bool) (c : Context F) (pos : ReportPosition F)
        (ledger : Option (NetLedger F))
        → Ignores test
        → any test (amended_events same c pos ledger).0 ≡ false
    unfolding amended_events
    amended_events-quiet test c pos none ignores =
        elim (Option-cases (lookup pos.ticket c.prev_positions)) [
          | inl e ↦ rw (amended_events, e) refl
          | inr (prev, e) ↦
              elim (Bool-cases
                (same prev.stop_loss pos.stop_loss && same prev.take_profit pos.take_profit)) [
                  | inl k ↦ rw (amended_events, e, k) refl
                  | inr k ↦ rw (amended_events, e, k) (rw (ignores.1.1 _) refl)
                ]
        ]
    amended_events-quiet test c pos (some l) ignores =
        elim (Option-cases (lookup pos.ticket c.prev_positions)) [
          | inl e ↦ rw (amended_events, e) refl
          | inr (prev, e) ↦
              elim (Bool-cases
                (same prev.stop_loss pos.stop_loss && same prev.take_profit pos.take_profit)) [
                  | inl k ↦ rw (amended_events, e, k) refl
                  | inr k ↦
                      rw (amended_events, e, k)
                        (any-apply_protection test same pos.symbol pos.stop_loss pos.take_profit l
                          ignores)
                ]
        ]

    order_events-quiet :
        (test : MasterEvent F → Bool) (c : Context F) (o : ReportOrder F)
        → ((e : _) → test (pending_placed e) ≡ false)
        → ((e : _) → test (pending_replaced e) ≡ false)
        → any test (order_events same c o) ≡ false
    unfolding order_events
    order_events-quiet test c o placed replaced =
        elim (Option-cases (lookup o.ticket c.prev_orders)) [
          | inl e ↦ rw (order_events, e) (rw (placed _) refl)
          | inr (prev, e) ↦
              elim (Bool-cases (
                prev.volume == o.volume
                && same prev.price (some o.price)
                && same prev.stop_loss o.stop_loss
                && same prev.take_profit o.take_profit)) [
                  | inl k ↦ rw (order_events, e, k) refl
                  | inr k ↦ rw (order_events, e, k) (rw (replaced _) refl)
                ]
        ]

    all_amended_events-quiet :
        (test : MasterEvent F → Bool) (c : Context F) (positions : Dict (ReportPosition F))
        (ledger : Option (NetLedger F))
        → Ignores test
        → any test (all_amended_events same c positions ledger).0 ≡ false
    unfolding all_amended_events
    all_amended_events-quiet test c [] ledger ignores = refl
    all_amended_events-quiet test c ((ticket, pos) ∷ positions) ledger ignores =
        let one = amended_events same c pos ledger in
        any-append test one.0 (all_amended_events same c positions one.1).0
        ∙ rw
            (
              amended_events-quiet test c pos ledger ignores,
              all_amended_events-quiet test c positions one.1 ignores,
            )
            refl

    all_order_events-quiet :
        (test : MasterEvent F → Bool) (c : Context F) (orders : Dict (ReportOrder F))
        → ((e : _) → test (pending_placed e) ≡ false)
        → ((e : _) → test (pending_replaced e) ≡ false)
        → any test (all_order_events same c orders) ≡ false
    unfolding all_order_events
    all_order_events-quiet test c [] placed replaced = refl
    all_order_events-quiet test c ((ticket, o) ∷ orders) placed replaced =
        any-append test (order_events same c o) (all_order_events same c orders)
        ∙ rw
            (
              order_events-quiet test c o placed replaced,
              all_order_events-quiet test c orders placed replaced,
            )
            refl

  is_cancelled-cancelled_events :
      (c : Context F) (filled tickets : List ℕ)
      → is_cancelled id (cancelled_events c filled tickets)
        ≡ (contains id tickets && not (is_known id c.cur_orders || contains id filled))
  is_cancelled-cancelled_events c filled [] = refl
  is_cancelled-cancelled_events c filled (ticket ∷ tickets) = elim (Bool-cases (id == ticket)) [
    | inl e ↦
        let at_id = (==_iff id ticket).0 e in
        rw (sym at_id) (ground (arith, is_cancelled-cancelled_events c filled tickets))
    | inr e ↦ ground (arith, e, is_cancelled-cancelled_events c filled tickets)
  ]

  is_filled-cancelled_events :
      (c : Context F) (filled tickets : List ℕ)
      → is_filled id (cancelled_events c filled tickets) ≡ false
  is_filled-cancelled_events c filled [] = refl
  is_filled-cancelled_events c filled (ticket ∷ tickets) =
      ground (arith, is_filled-cancelled_events c filled tickets)

  module _ (same : Option F → Option F → Bool) (report : SyncReport F)
      (positions : List (PositionSnapshot F)) (orders : List (OrderSnapshot F))
      (names : List (String × String)) (symbols : List (String × SymbolInfo))
      (ledger : Option (NetLedger F)) where
    abbrev events : List (MasterEvent F)
    events =
        (master_events_from_report same report (some (positions, orders)) names symbols ledger).0

    abbrev context : Context F
    context = context_of same report (some (positions, orders)) names symbols

    abbrev dealt : List (MasterEvent F) × Option (NetLedger F)
    dealt = all_deal_events context (sort_deals [] report.deals) ledger

    -- The events of a kind are those of the four parts.
    any-events :
        (test : MasterEvent F → Bool)
        → any test events ≡ (
            any test dealt.0
            || (any test (all_amended_events same context context.cur_positions dealt.1).0
                || (any test (all_order_events same context context.cur_orders)
                    || any test (
                        cancelled_events context
                          (filled_orders report.deals)
                          (keys context.prev_orders)))))
    unfolding master_events_from_report
    any-events test =
        let amended = (all_amended_events same context context.cur_positions dealt.1).0 in
        let ordered = all_order_events same context context.cur_orders in
        let gone =
          cancelled_events context (filled_orders report.deals) (keys context.prev_orders) in
        any-append test dealt.0 (amended ++ (ordered ++ gone))
        ∙ ap (λ b. any test dealt.0 || b)
            (any-append test amended (ordered ++ gone)
              ∙ ap (λ b. any test amended || b) (any-append test ordered gone))

    -- An order of the previous book, with another ticket than 0, is reported as cancelled exactly if
    -- it is gone and no IN deal of the report names it, and an order that is reported as filled is not reported as cancelled.
    pub is_cancelled-master_events_from_report :
        (is_cancelled id events ≡ (
          contains id (keys context.prev_orders)
          && not (is_known id context.cur_orders || contains id (filled_orders report.deals))))
        × (is_filled id events ≡ true → is_cancelled id events ≡ false)
    is_cancelled-master_events_from_report =
        let told = all_deal_events-fills context (sort_deals [] report.deals) ledger in
        let amends = λ (test : MasterEvent F → Bool) (ignores : Ignores test).
          all_amended_events-quiet same test context context.cur_positions dealt.1 ignores in
        let orders_none =
          λ (test : MasterEvent F → Bool) (placed : (e : _) → test (pending_placed e) ≡ false)
              (replaced : (e : _) → test (pending_replaced e) ≡ false).
            all_order_events-quiet same test context context.cur_orders placed replaced in
        let cancelled =
          any-events (cancels id)
          ∙ (rw
              (
                told.0,
                amends (cancels id) (cancels-Ignores id),
                orders_none (cancels id) (λ e. refl) (λ e. refl),
              )
              (is_cancelled-cancelled_events context (filled_orders report.deals)
                (keys context.prev_orders))) in
        (
          cancelled,
          λ filled.
              let by_deals : is_filled id dealt.0 ≡ true =
                rw
                  (
                    amends (fills_order id) (fills_order-Ignores id),
                    orders_none (fills_order id) (λ e. refl) (λ e. refl),
                    is_filled-cancelled_events context (filled_orders report.deals)
                        (keys context.prev_orders),
                    or_false,
                  )
                  at (sym (any-events (fills_order id)) ∙ filled) in
              let named : contains id (filled_orders report.deals) ≡ true =
                sym (contains-sort_deals id [] report.deals ∙ or_false _) ∙ told.1 by_deals in
              cancelled
              ∙ rw named (
                  no_more (contains id (keys context.prev_orders))
                    (is_known id context.cur_orders)),
        )
