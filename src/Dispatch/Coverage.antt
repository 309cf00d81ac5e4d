-- ===== src/Dispatch/Coverage.antt =====
-- What a batch sends and queues, and the rows that await it.
use forex_automated_copy_tra.Base.{
  ℕ, suc, ◌+◌, ◌≡◌, ◌≤◌, ◌⊎◌, refl, sym, ap, ◌∙◌, true, Option, none, some, List, [], ◌∷◌, arith,
  length, subst, Bool-cases, Option-cases, inl, inr, Dict, String, lookup, All, All-imp,
}
use forex_automated_copy_tra.Text.{Text}
use forex_automated_copy_tra.Models.{
  SlaveIntent, open_market, close_position, amend_position_sltp, place_pending, amend_pending,
  cancel_pending, link_pending_fill, alert, account_of,
}
use forex_automated_copy_tra.Mappings.{Mapping}
use forex_automated_copy_tra.OrderIds.{client_order_id_for}
use forex_automated_copy_tra.Dispatch.{
  Prices, Store, send, queue, Built, request_coid, build_request, relative_protection, log_event,
  LogEntry, mt5_command_queued,
}
use forex_automated_copy_tra.Dispatch.Handlers.{
  OrgRow, create_mapping, warn_dropped_protection, settle, handle_live_send, handle_trade, handle,
  dispatch, enqueue_for_targets, queue_command, send_to_broker, symbol_of,
}
use forex_automated_copy_tra.Dispatch.Frames.{
  IsQuiet, is_mapped, trans-IsQuiet, log_event-IsQuiet, warn_dropped_protection-IsQuiet,
  create_mapping-IsQuiet,
}
use forex_automated_copy_tra.Dispatch.Gates.{raised-IsQuiet, handle-IsQuiet, handle-either, is_live}

module _ {F : Type 0} where
  build_request-coid :
      (prices : Prices F) (i : SlaveIntent F) (b : Built F)
      → build_request prices i ≡ some b
      → request_coid b.request ≡ client_order_id_for i
  unfolding build_request client_order_id_for
  build_request-coid prices (open_market i) b h =
      elim (Option-cases
        (relative_protection prices i.side i.entry_price i.stop_loss i.take_profit)) [
          | inl unplaced ↦ ground (arith, unplaced, h)
          | inr (levels, placed) ↦ ground (arith, placed, h)
        ]
  build_request-coid prices (close_position i) b h = ground arith
  build_request-coid prices (amend_position_sltp i) b h = ground arith
  build_request-coid prices (place_pending i) b h = ground arith
  build_request-coid prices (amend_pending i) b h = ground arith
  build_request-coid prices (cancel_pending i) b h = ground arith
  build_request-coid prices (link_pending_fill i) b h = ground arith
  build_request-coid prices (alert i) b h = ground arith

  -- After its row is there, the request that `build_request` makes of the intent is sent.
  pub record IsSentStep (prices : Prices F) (i : SlaveIntent F) (before after : Store F)
      : Type 0 where
    pub mid : Store F
    pub built : Built F
    pub quiet : IsQuiet 0 before mid
    pub is_built : build_request prices i ≡ some built
    pub mapped : is_mapped (client_order_id_for i) mid.mappings ≡ true
    pub step : after ≡ send built.account built.request mid

  -- After its row is there, the intent's command is queued, and the log says so.
  pub record IsQueuedStep (i : SlaveIntent F) (before after : Store F) : Type 0 where
    pub mid : Store F
    pub symbol : String
    pub entry : LogEntry F
    pub quiet : IsQuiet 0 before mid
    pub mapped : is_mapped (client_order_id_for i) mid.mappings ≡ true
    pub step : after ≡ log_event entry (queue i symbol mid)

  abbrev pub IsStep : Prices F → SlaveIntent F → Store F → Store F → Type 0
  IsStep prices i before after =
      IsQuiet 1 before after ⊎ (IsSentStep prices i before after ⊎ IsQueuedStep i before after)

  quiet-is_mapped :
      (n : ℕ) (a b : Store F)
      → IsQuiet n a b
      → (c : Option Text) → is_mapped c a.mappings ≡ true
      → is_mapped c b.mappings ≡ true
  quiet-is_mapped n a b quiet none h = refl
  quiet-is_mapped n a b quiet (some coid) h = quiet.mapped coid h

  queue_command-IsStep :
      (prices : Prices F) (org : ℕ) (i : SlaveIntent F) (a : ℕ) (symbol : String) (st : Store F)
      → IsStep prices i st (settle i (queue_command org i a symbol st))
  unfolding queue_command settle
  queue_command-IsStep prices org i a symbol st = elim (Option-cases (create_mapping org i a st)) [
    | inl duplicate ↦ inl (rw (queue_command, duplicate) (raised-IsQuiet i st))
    | inr (mid, created) ↦
        let made = create_mapping-IsQuiet org i a st mid created in
        inr (
          inr (record {
            mid = mid;
            symbol = symbol;
            entry = mt5_command_queued a;
            quiet = made.0;
            mapped = made.1;
            step = rw (queue_command, created) refl;
          }))
  ]

  enqueue_for_targets-IsStep :
      (prices : Prices F) (org : ℕ) (i : SlaveIntent F) (a : ℕ) (targets : Dict String)
      (st : Store F)
      → IsStep prices i st (settle i (enqueue_for_targets org i a targets st))
  unfolding enqueue_for_targets settle
  enqueue_for_targets-IsStep prices org i a targets st = elim (Option-cases (symbol_of i)) [
    | inl no_symbol ↦
        rw (enqueue_for_targets, no_symbol) (queue_command-IsStep prices org i a "" st)
    | inr (s, symbol) ↦ elim (Option-cases (lookup s.0 targets)) [
      | inl unmatched ↦ inl (rw (enqueue_for_targets, symbol, unmatched) (log_event-IsQuiet _ st))
      | inr (name, matched) ↦
          rw (enqueue_for_targets, symbol, matched) (queue_command-IsStep prices org i a name st)
    ]
  ]

  send_to_broker-IsStep :
      (prices : Prices F) (org : ℕ) (i : SlaveIntent F) (st : Store F)
      → IsStep prices i st (settle i (send_to_broker prices org i st))
  unfolding send_to_broker settle
  send_to_broker-IsStep prices org i st = elim (Option-cases (build_request prices i)) [
    | inl unknown ↦ inl (rw (send_to_broker, unknown) (raised-IsQuiet i st))
    | inr (built, is_built) ↦ elim (Option-cases (create_mapping org i built.account st)) [
      | inl duplicate ↦ inl (rw (send_to_broker, is_built, duplicate) (raised-IsQuiet i st))
      | inr (mid, created) ↦
          let made = create_mapping-IsQuiet org i built.account st mid created in
          let warned = warn_dropped_protection-IsQuiet built mid in
          inr (
            inl (record {
              mid = warn_dropped_protection built mid;
              built = built;
              quiet = trans-IsQuiet 0 0 st mid _ made.0 warned;
              is_built = is_built;
              mapped = quiet-is_mapped 0 mid _ warned (client_order_id_for i) made.1;
              step = rw (send_to_broker, is_built, created) refl;
            }))
    ]
  ]

  handle_live_send-IsStep :
      (prices : Prices F) (targets : ℕ → Option (Dict String)) (org : ℕ) (i : SlaveIntent F)
      (st : Store F)
      → IsStep prices i st (settle i (handle_live_send prices targets org i st))
  unfolding handle_live_send
  handle_live_send-IsStep prices targets org i st = elim (Option-cases (account_of i)) [
    | inl no_account ↦ inl (rw (handle_live_send, no_account) (raised-IsQuiet i st))
    | inr (a, account) ↦ elim (Option-cases (targets a)) [
      | inl ctrader ↦
          rw (handle_live_send, account, ctrader) (send_to_broker-IsStep prices org i st)
      | inr (names, mt5) ↦
          rw (handle_live_send, account, mt5) (enqueue_for_targets-IsStep prices org i a names st)
    ]
  ]

  handle_trade-live :
      (prices : Prices F) (targets : ℕ → Option (Dict String)) (org : OrgRow) (i : SlaveIntent F)
      (st : Store F)
      → is_live org ≡ true
      → handle_trade prices targets org i st ≡ handle_live_send prices targets org.org_id i st
  unfolding handle_trade
  handle_trade-live prices targets org i st live = ground (arith, live)

  pub handle-IsStep :
      (prices : Prices F) (targets : ℕ → Option (Dict String)) (org : OrgRow) (i : SlaveIntent F)
      (st : Store F)
      → IsStep prices i st (settle i (handle prices targets org i st))
  handle-IsStep prices targets org i st = elim (Bool-cases (is_live org)) [
    | inr gated ↦ inl (handle-IsQuiet prices targets org gated i st)
    | inl live ↦ elim (handle-either prices targets org i st) [
      | inl quiet ↦ inl quiet
      | inr same ↦
          subst (λ o. IsStep prices i st (settle i o))
            (sym (same ∙ handle_trade-live prices targets org i st live))
            (handle_live_send-IsStep prices targets org.org_id i st)
    ]
  ]

  -- One table for each order, with a row of the order's client order id if it has one.
  abbrev pub HaveRows : {A : Type 0} → (A → Option Text) → List A → List (List (Mapping F)) → Type 0
  HaveRows coid [] [] = Unit
  HaveRows coid (order ∷ orders) (rows ∷ tables) =
      (is_mapped (coid order) rows ≡ true) × HaveRows coid orders tables
  HaveRows coid orders tables = ⊥

  -- Every request sent and every command queued with a client order id has a row with that id, and had
  -- it when it went out.
  pub record IsAwaited (store : Store F) : Type 0 where
    pub sends : All (λ s. is_mapped (request_coid s.1) store.mappings ≡ true) store.sends
    pub queued : All (λ q. is_mapped (client_order_id_for q.0) store.mappings ≡ true) store.queued
    pub before_sends : HaveRows (λ s. request_coid s.1) store.sends store.sent_over
    pub before_queued : HaveRows (λ q. client_order_id_for q.0) store.queued store.queued_over

  quiet-IsAwaited : (n : ℕ) (a b : Store F) → IsQuiet n a b → IsAwaited a → IsAwaited b
  quiet-IsAwaited n a b quiet h = record {
    sends = subst (All (λ s. is_mapped (request_coid s.1) b.mappings ≡ true)) (sym quiet.sends) (
        All-imp (λ s. is_mapped (request_coid s.1) a.mappings ≡ true)
          (λ s. is_mapped (request_coid s.1) b.mappings ≡ true)
          (λ s. quiet-is_mapped n a b quiet (request_coid s.1)) a.sends h.sends);
    queued =
        subst (All (λ q. is_mapped (client_order_id_for q.0) b.mappings ≡ true)) (sym quiet.queued)
          (All-imp (λ q. is_mapped (client_order_id_for q.0) a.mappings ≡ true)
            (λ q. is_mapped (client_order_id_for q.0) b.mappings ≡ true)
            (λ q. quiet-is_mapped n a b quiet (client_order_id_for q.0)) a.queued h.queued);
    before_sends = rw (quiet.sends, quiet.sent_over) h.before_sends;
    before_queued = rw (quiet.queued, quiet.queued_over) h.before_queued;
  }

  step-IsAwaited :
      (prices : Prices F) (i : SlaveIntent F) (a b : Store F)
      → IsStep prices i a b
      → IsAwaited a
      → IsAwaited b
  step-IsAwaited prices i a b (inl quiet) h = quiet-IsAwaited 1 a b quiet h
  step-IsAwaited prices i a b (inr (inl sent)) h =
      let k = quiet-IsAwaited 0 a sent.mid sent.quiet h in
      let there : is_mapped (request_coid sent.built.request) sent.mid.mappings ≡ true =
        ap (λ c. is_mapped c sent.mid.mappings)
          (build_request-coid prices i sent.built sent.is_built)
        ∙ sent.mapped in
      subst IsAwaited (sym sent.step) (record {
        sends = (there, k.sends);
        queued = k.queued;
        before_sends = (there, k.before_sends);
        before_queued = k.before_queued;
      })
  step-IsAwaited prices i a b (inr (inr queued)) h =
      let k = quiet-IsAwaited 0 a queued.mid queued.quiet h in
      subst IsAwaited (sym queued.step) (record {
        sends = k.sends;
        queued = (queued.mapped, k.queued);
        before_sends = k.before_sends;
        before_queued = (queued.mapped, k.before_queued);
      })

  -- If every request sent and every command queued with a client order id has a mapping row with that
  -- id, and had it when it went out, this is so after dispatch: the row is there before the order goes
  -- out.
  pub dispatch-IsAwaited :
      (prices : Prices F) (targets : ℕ → Option (Dict String)) (org : OrgRow)
      (intents : List (SlaveIntent F)) (st : Store F)
      → IsAwaited st
      → IsAwaited (dispatch prices targets org intents st)
  unfolding dispatch
  dispatch-IsAwaited prices targets org [] st h = h
  dispatch-IsAwaited prices targets org (i ∷ intents) st h =
      dispatch-IsAwaited prices targets org intents (settle i (handle prices targets org i st))
        (step-IsAwaited prices i st _ (handle-IsStep prices targets org i st) h)

  abbrev pub records : Store F → ℕ
  records store = length store.events + length store.sends

  step-records :
      (prices : Prices F) (i : SlaveIntent F) (a b : Store F)
      → IsStep prices i a b
      → suc (records a) ≤ records b
  step-records prices i a b (inl quiet) = omega (arith, quiet.logged, ap length quiet.sends)
  step-records prices i a b (inr (inl sent)) =
      subst (λ s. suc (records a) ≤ records s) (sym sent.step)
        (omega (arith, sent.quiet.logged, ap length sent.quiet.sends))
  step-records prices i a b (inr (inr queued)) =
      subst (λ s. suc (records a) ≤ records s) (sym queued.step)
        (omega (arith, queued.quiet.logged, ap length queued.quiet.sends))

  -- No intent of a batch is dropped in silence: log entries and requests grow by one for each.
  pub dispatch-records :
      (prices : Prices F) (targets : ℕ → Option (Dict String)) (org : OrgRow)
      (intents : List (SlaveIntent F)) (st : Store F)
      → length intents + records st ≤ records (dispatch prices targets org intents st)
  unfolding dispatch
  dispatch-records prices targets org [] st = omega arith
  dispatch-records prices targets org (i ∷ intents) st =
      let next = settle i (handle prices targets org i st) in
      omega (
        arith,
        step-records prices i st next (handle-IsStep prices targets org i st),
        dispatch-records prices targets org intents next,
      )
