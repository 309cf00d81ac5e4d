-- ===== src/Dispatch/Frames.antt =====
-- What a step of the dispatcher leaves alone.
use forex_automated_copy_tra.Base.{
  ℕ, suc, ◌+◌, ◌≤◌, ◌≡◌, refl, Bool, true, ◌||◌, Option, none, some, List, [], ◌∷◌, ◌++◌, arith,
  length, subst, String, Bool-cases, Option-cases, inl, inr, ◌∙◌,
}
use forex_automated_copy_tra.Text.{Text}
use forex_automated_copy_tra.Text.Print.{text_eq_refl}
use forex_automated_copy_tra.Models.{
  SlaveIntent, open_market, close_position, amend_position_sltp, place_pending, amend_pending,
  cancel_pending, link_pending_fill, alert,
}
use forex_automated_copy_tra.Mappings.{
  Mapping, update, matches, has_coid, update_or_raise, create_position_mapping,
  create_order_mapping, position_row, order_row, link_pending_fill as link_row,
}
use forex_automated_copy_tra.OrderIds.{client_order_id_for, position_coid, order_coid}
use forex_automated_copy_tra.Dispatch.{
  Store, Built, LogEntry, AccountStatus, log_event, set_account_status,
}
use forex_automated_copy_tra.Dispatch.Handlers.{create_mapping, warn_dropped_protection, or_none}

-- What a step keeps: it sends and queues nothing, unmaps no id, and adds at least `n` log entries.
pub record IsQuiet {F : Type 0} (n : ℕ) (before after : Store F) : Type 0 where
  pub sends : after.sends ≡ before.sends
  pub queued : after.queued ≡ before.queued
  pub sent_over : after.sent_over ≡ before.sent_over
  pub queued_over : after.queued_over ≡ before.queued_over
  pub logged : n + length before.events ≤ length after.events
  pub mapped :
      (coid : Text)
      → matches (has_coid coid) before.mappings ≡ true
      → matches (has_coid coid) after.mappings ≡ true

some_injective {ℓ} : {A : Type ℓ} {x y : A} → some x ≡ some y → x ≡ y
some_injective h = ground arith

module _ {F : Type 0} where
  -- Whether a row has the client order id, for an intent or a request that has one.
  abbrev pub is_mapped : Option Text → List (Mapping F) → Bool
  is_mapped none rows = true
  is_mapped (some coid) rows = matches (has_coid coid) rows

  matches-append :
      (test : Mapping F → Bool) (xs ys : List (Mapping F))
      → matches test (xs ++ ys) ≡ (matches test xs || matches test ys)
  unfolding matches
  matches-append test [] ys = refl
  matches-append test (x ∷ xs) ys = ground (arith, matches-append test xs ys)

  matches-update :
      (coid : Text) (test : Mapping F → Bool) (change : Mapping F → Mapping F)
      → ((r : Mapping F) → (change r).client_order_id ≡ r.client_order_id)
      → (rows : List (Mapping F))
      → matches (has_coid coid) (update test change rows) ≡ matches (has_coid coid) rows
  unfolding update matches
  matches-update coid test change kept [] = refl
  matches-update coid test change kept (r ∷ rows) =
      ground (arith, kept r, matches-update coid test change kept rows)

  matches-new :
      (coid : Text) (rows : List (Mapping F)) (r : Mapping F)
      → r.client_order_id ≡ some coid
      → matches (has_coid coid) (rows ++ r ∷ []) ≡ true
  unfolding matches
  matches-new coid rows r named =
      ground (arith, named, text_eq_refl coid, matches-append (has_coid coid) rows (r ∷ []))

  matches-update_or_raise :
      (coid : Text) (test : Mapping F → Bool) (change : Mapping F → Mapping F)
      → ((r : Mapping F) → (change r).client_order_id ≡ r.client_order_id)
      → (rows rows' : List (Mapping F)) → update_or_raise test change rows ≡ some rows'
      → matches (has_coid coid) rows' ≡ matches (has_coid coid) rows
  unfolding update_or_raise
  matches-update_or_raise coid test change kept rows rows' h =
      ground (arith, matches-update coid test change kept rows)

  matches-grown :
      (coid : Text) (rows : List (Mapping F)) (r : Mapping F)
      → matches (has_coid coid) rows ≡ true
      → matches (has_coid coid) (rows ++ r ∷ []) ≡ true
  matches-grown coid rows r h = ground (arith, matches-append (has_coid coid) rows (r ∷ []))

  matches-create_position_mapping :
      (coid : Text) (m a : ℕ) (c : Text) (org : ℕ) (s : Option String) (rows : List (Mapping F))
      → (matches (has_coid c) (create_position_mapping m a c org s rows) ≡ true)
        × (matches (has_coid coid) rows ≡ true
            → matches (has_coid coid) (create_position_mapping m a c org s rows) ≡ true)
  unfolding create_position_mapping
  matches-create_position_mapping coid m a c org s rows =
      elim (Bool-cases (matches (has_coid c) rows)) [
        | inl known ↦ rw known (known, λ h. h)
        | inr fresh ↦ rw fresh (
          matches-new c rows (position_row m a c org s) refl,
          matches-grown coid rows (position_row m a c org s),
        )
      ]

  matches-create_order_mapping :
      (coid : Text) (m a : ℕ) (c : Text) (org : ℕ) (s : Option String)
      (rows rows' : List (Mapping F))
      → create_order_mapping m a c org s rows ≡ some rows'
      → (matches (has_coid c) rows' ≡ true)
        × (matches (has_coid coid) rows ≡ true → matches (has_coid coid) rows' ≡ true)
  unfolding create_order_mapping
  matches-create_order_mapping coid m a c org s rows rows' h =
      elim (Bool-cases (matches (has_coid c) rows)) [
        | inl known ↦ ground (arith, known, h)
        | inr fresh ↦
            let made = matches-new c rows (order_row m a c org s) refl in
            let grown = matches-grown coid rows (order_row m a c org s) in
            (ground (arith, made, fresh, h), λ k. ground (arith, grown k, fresh, h))
      ]

  pub refl-IsQuiet : (st : Store F) → IsQuiet 0 st st
  refl-IsQuiet st = record {
    sends = refl;
    queued = refl;
    sent_over = refl;
    queued_over = refl;
    logged = omega arith;
    mapped = λ coid h. h;
  }

  pub trans-IsQuiet :
      (m n : ℕ) (a b c : Store F) → IsQuiet m a b → IsQuiet n b c → IsQuiet (m + n) a c
  trans-IsQuiet m n a b c h k = record {
    sends = k.sends ∙ h.sends;
    queued = k.queued ∙ h.queued;
    sent_over = k.sent_over ∙ h.sent_over;
    queued_over = k.queued_over ∙ h.queued_over;
    logged = omega (arith, h.logged, k.logged);
    mapped = λ coid x. k.mapped coid (h.mapped coid x);
  }

  pub then-IsQuiet : (n : ℕ) (a b c : Store F) → IsQuiet 1 a b → IsQuiet n b c → IsQuiet (suc n) a c
  then-IsQuiet n a b c h k = record {
    sends = k.sends ∙ h.sends;
    queued = k.queued ∙ h.queued;
    sent_over = k.sent_over ∙ h.sent_over;
    queued_over = k.queued_over ∙ h.queued_over;
    logged = omega (arith, h.logged, k.logged);
    mapped = λ coid x. k.mapped coid (h.mapped coid x);
  }

  pub log_event-IsQuiet : (e : LogEntry F) (st : Store F) → IsQuiet 1 st (log_event e st)
  log_event-IsQuiet e st = record {
    sends = refl;
    queued = refl;
    sent_over = refl;
    queued_over = refl;
    logged = omega arith;
    mapped = λ coid h. h;
  }

  pub set_account_status-IsQuiet :
      (a : ℕ) (s : AccountStatus) (st : Store F) → IsQuiet 0 st (set_account_status a s st)
  unfolding set_account_status
  set_account_status-IsQuiet a s st = record {
    sends = refl;
    queued = refl;
    sent_over = refl;
    queued_over = refl;
    logged = omega arith;
    mapped = λ coid h. h;
  }

  mappings-IsQuiet :
      (st : Store F) (rows : List (Mapping F))
      → ((coid : Text)
          → matches (has_coid coid) st.mappings ≡ true
          → matches (has_coid coid) rows ≡ true)
      → IsQuiet 0 st (record st { mappings = rows })
  mappings-IsQuiet st rows kept = record {
    sends = refl;
    queued = refl;
    sent_over = refl;
    queued_over = refl;
    logged = omega arith;
    mapped = kept;
  }

  pub warn_dropped_protection-IsQuiet :
      (b : Built F) (st : Store F) → IsQuiet 0 st (warn_dropped_protection b st)
  unfolding warn_dropped_protection
  warn_dropped_protection-IsQuiet b st = record {
    sends = ground arith;
    queued = ground arith;
    sent_over = ground arith;
    queued_over = ground arith;
    logged = ground arith;
    mapped = λ coid h. ground arith;
  }

  -- Links change no client order id.
  pub link_row-IsQuiet :
      (o a p : ℕ) (st : Store F) (rows : List (Mapping F))
      → link_row o a p st.mappings ≡ some rows
      → IsQuiet 0 st (record st { mappings = rows })
  unfolding link_row
  link_row-IsQuiet o a p st rows h =
      mappings-IsQuiet st rows
        (λ coid k. matches-update_or_raise coid _ _ (λ r. refl) st.mappings rows h ∙ k)

  uncreated-IsQuiet : (st after : Store F) → st ≡ after → IsQuiet 0 st after × (true ≡ true)
  uncreated-IsQuiet st after same = (subst (IsQuiet 0 st) same (refl-IsQuiet st), refl)

  -- A created row has the intent's id, and older ids keep theirs.
  pub create_mapping-IsQuiet :
      (org : ℕ) (i : SlaveIntent F) (a : ℕ) (st after : Store F)
      → create_mapping org i a st ≡ some after
      → IsQuiet 0 st after × (is_mapped (client_order_id_for i) after.mappings ≡ true)
  unfolding create_mapping client_order_id_for
  create_mapping-IsQuiet org (open_market i) a st after h =
      subst
        (λ st'.
          IsQuiet 0 st st'
          × (matches (has_coid (position_coid i.master_position_id i.slave_account_id)) st'.mappings
              ≡ true))
        (some_injective h)
        (
          mappings-IsQuiet st _
              (λ coid. (matches-create_position_mapping coid _ _ _ _ _ st.mappings).1),
          (matches-create_position_mapping [] _ _ _ _ _ st.mappings).0,
        )
  create_mapping-IsQuiet org (place_pending i) a st after h =
      elim (Option-cases (
        create_order_mapping i.master_order_id a (order_coid i.master_order_id i.slave_account_id)
          org (or_none i.symbol_name) st.mappings)) [
            | inl refused ↦ ground (arith, refused, h)
            | inr (rows, made) ↦
                subst
                  (λ st'.
                    IsQuiet 0 st st'
                    × (matches (has_coid (order_coid i.master_order_id i.slave_account_id))
                          st'.mappings
                        ≡ true))
                  (ground (arith, made, h))
                  (
                    mappings-IsQuiet st rows (λ coid.
                        (matches-create_order_mapping coid _ _ _ _ _ st.mappings rows made).1),
                    (matches-create_order_mapping [] _ _ _ _ _ st.mappings rows made).0,
                  )
          ]
  create_mapping-IsQuiet org (close_position i) a st after h =
      uncreated-IsQuiet st after (ground arith)
  create_mapping-IsQuiet org (amend_position_sltp i) a st after h =
      uncreated-IsQuiet st after (ground arith)
  create_mapping-IsQuiet org (amend_pending i) a st after h =
      uncreated-IsQuiet st after (ground arith)
  create_mapping-IsQuiet org (cancel_pending i) a st after h =
      uncreated-IsQuiet st after (ground arith)
  create_mapping-IsQuiet org (link_pending_fill i) a st after h =
      uncreated-IsQuiet st after (ground arith)
  create_mapping-IsQuiet org (alert i) a st after h = uncreated-IsQuiet st after (ground arith)
