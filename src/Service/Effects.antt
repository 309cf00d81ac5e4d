-- ===== src/Service/Effects.antt =====
-- What a slave's report may write, and what it may send.
use forex_automated_copy_tra.Base.{
  ℕ, ◌≡◌, inl, inr, refl, sym, ap, ◌∙◌, subst, Option, List, [], ◌∷◌, arith, Bool-cases,
  Option-cases, String, Dict,
}
use forex_automated_copy_tra.Models.{SlaveIntent, amend_position_sltp}
use forex_automated_copy_tra.Mappings.{Mapping}
use forex_automated_copy_tra.Mappings.Writes.{Write, write, account_of_write}
use forex_automated_copy_tra.Mappings.Owner.{others, write-others}
use forex_automated_copy_tra.Mappings.Unique.{IsUnique, coids, write-IsUnique}
use forex_automated_copy_tra.Dispatch.{Prices, Store, amend_sltp_request, build_request}
use forex_automated_copy_tra.Dispatch.Handlers.{OrgRow, dispatch, create_mapping}
use forex_automated_copy_tra.Service.{Service, log_report, ReportEntry}
use forex_automated_copy_tra.Service.Reports.{with_mappings}

-- The one intent that a report may give.
abbrev pub amend_of : {F : Type 0} → ℕ → ℕ → Option F → Option F → SlaveIntent F
amend_of account position stop target = amend_position_sltp (record {
  slave_account_id = account;
  position_id = position;
  stop_loss = stop;
  take_profit = target;
})

-- Nothing is sent or queued but at most one amendment of a position of the account.
pub data SendsAmend {F : Type 0} (account : ℕ) (before after : Store F) : Type 0 where
  nothing :
      after.sends ≡ before.sends → after.queued ≡ before.queued → SendsAmend account before after
  sent :
      (position : ℕ) (stop target : Option F)
      → after.sends ≡ (account, amend_sltp_request position stop target) ∷ before.sends
      → after.queued ≡ before.queued
      → SendsAmend account before after
  queued :
      (position : ℕ) (stop target : Option F) (symbol : String)
      → after.sends ≡ before.sends
      → after.queued ≡ (amend_of account position stop target, symbol) ∷ before.queued
      → SendsAmend account before after

pub record IsReport {F : Type 0} (account : ℕ) (before after : Service F) : Type 0 where
  pub others_kept : others account after.store.mappings ≡ others account before.store.mappings
  pub unique : IsUnique (coids before.store.mappings) → IsUnique (coids after.store.mappings)
  pub amends : SendsAmend account before.store after.store
  pub protection_kept : after.protection ≡ before.protection

module _ {F : Type 0} where
  pub written :
      (w : Write F) (rows rows' : List (Mapping F))
      → write w rows ≡ rows'
      → (others (account_of_write w) rows' ≡ others (account_of_write w) rows)
        × (IsUnique (coids rows) → IsUnique (coids rows'))
  written w rows rows' same =
      subst
        (λ r.
          (others (account_of_write w) r ≡ others (account_of_write w) rows)
          × (IsUnique (coids rows) → IsUnique (coids r)))
        same (write-others w rows, write-IsUnique w rows)

  pub unchanged-IsReport : (account : ℕ) (s : Service F) → IsReport account s s
  unchanged-IsReport account s = record {
    others_kept = refl;
    unique = λ h. h;
    amends = nothing refl refl;
    protection_kept = refl;
  }

  pub logged-IsReport :
      (account : ℕ) (entry : ReportEntry) (s : Service F)
      → IsReport account s (log_report account entry s)
  logged-IsReport account entry s = record {
    others_kept = refl;
    unique = λ h. h;
    amends = nothing refl refl;
    protection_kept = refl;
  }

  pub written-IsReport :
      (w : Write F) (entry : ReportEntry) (s : Service F) (rows : List (Mapping F))
      → write w s.store.mappings ≡ rows
      → IsReport
          (account_of_write w)
          s
          (log_report (account_of_write w) entry (with_mappings rows s))
  written-IsReport w entry s rows same = record {
    others_kept = (written w s.store.mappings rows same).0;
    unique = (written w s.store.mappings rows same).1;
    amends = nothing refl refl;
    protection_kept = refl;
  }

  module _ (prices : Prices F) (targets : ℕ → Option (Dict String)) (org : OrgRow) where
    pub dispatch-amend_mappings :
        (a p : ℕ) (sl tp : Option F) (st : Store F)
        → (dispatch prices targets org (amend_of a p sl tp ∷ []) st).mappings ≡ st.mappings
    unfolding dispatch create_mapping build_request
    dispatch-amend_mappings a p sl tp st = ground arith

    dispatch-SendsAmend :
        (a p : ℕ) (sl tp : Option F) (st : Store F)
        → SendsAmend a st (dispatch prices targets org (amend_of a p sl tp ∷ []) st)
    unfolding dispatch create_mapping build_request
    dispatch-SendsAmend a p sl tp st = elim (Bool-cases org.copying_enabled) [
      | inr off ↦ nothing (ground (arith, off)) (ground (arith, off))
      | inl on ↦ elim (Bool-cases org.dry_run) [
        | inl dry ↦ nothing (ground (arith, on, dry)) (ground (arith, on, dry))
        | inr live ↦ elim (Option-cases (targets a)) [
          | inl ctrader ↦
              sent p sl tp (ground (arith, on, live, ctrader)) (ground (arith, on, live, ctrader))
          | inr (names, mt5) ↦
              queued p sl tp "" (ground (arith, on, live, mt5)) (ground (arith, on, live, mt5))
        ]
      ]
    ]

    SendsAmend-from :
        (a : ℕ) (st st' after : Store F)
        → st'.sends ≡ st.sends
        → st'.queued ≡ st.queued
        → SendsAmend a st' after
        → SendsAmend a st after
    SendsAmend-from a st st' after sends queues (nothing x y) = nothing (x ∙ sends) (y ∙ queues)
    SendsAmend-from a st st' after sends queues (sent p sl tp x y) =
        sent p sl tp (x ∙ ap (λ t. (a, amend_sltp_request p sl tp) ∷ t) sends) (y ∙ queues)
    SendsAmend-from a st st' after sends queues (queued p sl tp name x y) =
        queued p sl tp name (x ∙ sends) (y ∙ ap (λ t. (amend_of a p sl tp, name) ∷ t) queues)

    pub amended-IsReport :
        (a p : ℕ) (sl tp : Option F) (s s' : Service F)
        → IsReport a s s'
        → s'.store.sends ≡ s.store.sends
        → s'.store.queued ≡ s.store.queued
        → IsReport a s
            (record s' { store = dispatch prices targets org (amend_of a p sl tp ∷ []) s'.store })
    amended-IsReport a p sl tp s s' h sends queues = record {
      others_kept = ap (others a) (dispatch-amend_mappings a p sl tp s'.store) ∙ h.others_kept;
      unique = λ u.
          subst (λ rows. IsUnique (coids rows)) (sym (dispatch-amend_mappings a p sl tp s'.store))
            (h.unique u);
      amends =
          SendsAmend-from a s.store s'.store _ sends queues
            (dispatch-SendsAmend a p sl tp s'.store);
      protection_kept = h.protection_kept;
    }
