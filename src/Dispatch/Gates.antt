-- ===== src/Dispatch/Gates.antt =====
-- The kill switch and the dry run.
use forex_automated_copy_tra.Base.{
  ℕ, ◌≡◌, ◌⊎◌, sym, refl, Bool, true, false, not, ◌&&◌, Option, List, [], ◌∷◌, arith, length, subst,
  Bool-cases, Option-cases, inl, inr, Dict, String,
}
use forex_automated_copy_tra.Models.{
  SlaveIntent, LinkPendingFill, open_market, close_position, amend_position_sltp, place_pending,
  amend_pending, cancel_pending, link_pending_fill, alert, account_of,
}
use forex_automated_copy_tra.Mappings.{link_pending_fill as link_row}
use forex_automated_copy_tra.Dispatch.{Prices, Store, build_request, degraded}
use forex_automated_copy_tra.Dispatch.Handlers.{
  OrgRow, raised, create_mapping, warn_dropped_protection, settle, handle_alert, handle_kill_switch,
  handle_link_pending_fill, handle_dry_run, handle_trade, handle, dispatch,
}
use forex_automated_copy_tra.Dispatch.Frames.{
  IsQuiet, refl-IsQuiet, trans-IsQuiet, then-IsQuiet, log_event-IsQuiet, set_account_status-IsQuiet,
  link_row-IsQuiet, warn_dropped_protection-IsQuiet, create_mapping-IsQuiet,
}

abbrev pub is_live : OrgRow → Bool
is_live org = org.copying_enabled && not org.dry_run

module _ {F : Type 0} where
  pub raised-IsQuiet : (i : SlaveIntent F) (st : Store F) → IsQuiet 1 st (settle i (raised st))
  unfolding settle
  raised-IsQuiet i st = elim (Option-cases (account_of i)) [
    | inl no_account ↦ rw (settle, no_account) (log_event-IsQuiet _ st)
    | inr (a, account) ↦
        rw (settle, account)
          (trans-IsQuiet 1 0 st _ _ (log_event-IsQuiet _ st)
            (set_account_status-IsQuiet a degraded _))
  ]

  handle_link-IsQuiet :
      (i : SlaveIntent F) (l : LinkPendingFill) (st : Store F)
      → IsQuiet 1 st (settle i (handle_link_pending_fill l st))
  unfolding handle_link_pending_fill settle
  handle_link-IsQuiet i l st =
      elim (Option-cases
        (link_row l.master_order_id l.slave_account_id l.master_position_id st.mappings)) [
          | inl missing ↦ rw (handle_link_pending_fill, missing, settle) (log_event-IsQuiet _ st)
          | inr (rows, linked) ↦
              rw (handle_link_pending_fill, linked, settle)
                (trans-IsQuiet 0 1 st (record st { mappings = rows }) _
                  (link_row-IsQuiet _ _ _ st rows linked) (log_event-IsQuiet _ _))
        ]

  handle_dry_run-IsQuiet :
      (prices : Prices F) (org : ℕ) (i : SlaveIntent F) (st : Store F)
      → IsQuiet 1 st (settle i (handle_dry_run prices org i st))
  unfolding handle_dry_run settle
  handle_dry_run-IsQuiet prices org i st = elim (Option-cases (build_request prices i)) [
    | inl unknown ↦ rw (handle_dry_run, unknown) (raised-IsQuiet i st)
    | inr (built, is_built) ↦ elim (Option-cases (create_mapping org i built.account st)) [
      | inl duplicate ↦ rw (handle_dry_run, is_built, duplicate) (raised-IsQuiet i st)
      | inr (mid, created) ↦
          rw (handle_dry_run, is_built, created, settle)
            (trans-IsQuiet 0 1 st (warn_dropped_protection built mid) _
              (trans-IsQuiet 0 0 st mid _
                (create_mapping-IsQuiet org i built.account st mid created).0
                (warn_dropped_protection-IsQuiet built mid))
              (log_event-IsQuiet _ (warn_dropped_protection built mid)))
    ]
  ]

  handle_trade-IsQuiet :
      (prices : Prices F) (targets : ℕ → Option (Dict String)) (org : OrgRow)
      → is_live org ≡ false
      → (i : SlaveIntent F) (st : Store F)
      → IsQuiet 1 st (settle i (handle_trade prices targets org i st))
  unfolding handle_trade settle
  handle_trade-IsQuiet prices targets org gated i st = elim (Bool-cases org.copying_enabled) [
    | inl on ↦
        let dry : org.dry_run ≡ true = ground (arith, on, gated) in
        rw (handle_trade, on, dry) (handle_dry_run-IsQuiet prices org.org_id i st)
    | inr off ↦ rw (handle_trade, off, handle_kill_switch, settle) (log_event-IsQuiet _ st)
  ]

  -- Alerts and links pass every gate, and send nothing.
  pub handle-either :
      (prices : Prices F) (targets : ℕ → Option (Dict String)) (org : OrgRow) (i : SlaveIntent F)
      (st : Store F)
      → IsQuiet 1 st (settle i (handle prices targets org i st))
        ⊎ (handle prices targets org i st ≡ handle_trade prices targets org i st)
  unfolding handle
  handle-either prices targets org (alert i) st =
      inl (unfold handle_alert settle in log_event-IsQuiet _ st)
  handle-either prices targets org (link_pending_fill i) st = inl (handle_link-IsQuiet _ i st)
  handle-either prices targets org (open_market i) st = inr refl
  handle-either prices targets org (close_position i) st = inr refl
  handle-either prices targets org (amend_position_sltp i) st = inr refl
  handle-either prices targets org (place_pending i) st = inr refl
  handle-either prices targets org (amend_pending i) st = inr refl
  handle-either prices targets org (cancel_pending i) st = inr refl

  pub handle-IsQuiet :
      (prices : Prices F) (targets : ℕ → Option (Dict String)) (org : OrgRow)
      → is_live org ≡ false
      → (i : SlaveIntent F) (st : Store F)
      → IsQuiet 1 st (settle i (handle prices targets org i st))
  handle-IsQuiet prices targets org gated i st = elim (handle-either prices targets org i st) [
    | inl quiet ↦ quiet
    | inr same ↦
        subst (λ o. IsQuiet 1 st (settle i o)) (sym same)
          (handle_trade-IsQuiet prices targets org gated i st)
  ]

  -- With copying off or in a dry run, a batch sends no request and queues no command, takes no client
  -- order id from a row, and logs at least one entry for each of its intents.
  pub dispatch-gated :
      (prices : Prices F) (targets : ℕ → Option (Dict String)) (org : OrgRow)
      → is_live org ≡ false
      → (intents : List (SlaveIntent F)) (st : Store F)
      → IsQuiet (length intents) st (dispatch prices targets org intents st)
  unfolding dispatch
  dispatch-gated prices targets org gated [] st = refl-IsQuiet st
  dispatch-gated prices targets org gated (i ∷ intents) st =
      let next = settle i (handle prices targets org i st) in
      then-IsQuiet (length intents) st next _ (handle-IsQuiet prices targets org gated i st)
        (dispatch-gated prices targets org gated intents next)
