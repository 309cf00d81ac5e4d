-- ===== src/Service/Copies.antt =====
-- A copy from the intent to the entry by which it will be closed: the dispatcher, the slave's report and
-- the mappings together.
use forex_automated_copy_tra.Base.{
  ℕ, ◌≡◌, refl, ap, ◌∙◌, Bool, true, false, ◌&&◌, Option, none, some, List, [], ◌∷◌, ◌++◌, arith,
  Bool-cases, Option-cases, inl, inr, String, Dict, lookup,
}
use forex_automated_copy_tra.Text.{Text, strip_prefix}
use forex_automated_copy_tra.Models.{OpenMarket, open_market}
use forex_automated_copy_tra.OrderIds.{position_coid, master_position_of}
use forex_automated_copy_tra.Mappings.{
  Mapping, matches, has_coid, create_position_mapping, activate_position_mapping,
}
use forex_automated_copy_tra.Mappings.Reads.{position_entries}
use forex_automated_copy_tra.Mappings.Copies.{
  entry_of, filled_row, activate-create_position_mapping, position_entries-filled,
}
use forex_automated_copy_tra.Dispatch.{Prices, Store, Built, build_request, relative_protection}
use forex_automated_copy_tra.Dispatch.Handlers.{OrgRow, dispatch, create_mapping, or_none}
use forex_automated_copy_tra.Dispatch.Gates.{is_live}
use forex_automated_copy_tra.Service.{Service, SlaveFill, protect_new_copy, same_level}
use forex_automated_copy_tra.Service.Reports.{handle_slave_fill, open_fill, copy_fill, with_prefix}
use forex_automated_copy_tra.Service.Effects.{dispatch-amend_mappings}

with_prefix-position_coid :
    (m a : ℕ) → with_prefix "cm" (some (position_coid m a)) ≡ some (position_coid m a)
unfolding position_coid strip_prefix
with_prefix-position_coid m a = refl

module _ {F : Type 0} (prices : Prices F) (targets : ℕ → Option (Dict String)) (org : OrgRow) where
  -- The row that the dispatcher creates for a market copy.
  abbrev created : OpenMarket F → List (Mapping F) → List (Mapping F)
  created i rows =
      create_position_mapping i.master_position_id i.slave_account_id
        (position_coid i.master_position_id i.slave_account_id) org.org_id (or_none i.symbol_name)
        rows

  dispatch-open_market :
      (i : OpenMarket F) (built : Built F) (st : Store F)
      → is_live org ≡ true
      → targets i.slave_account_id ≡ none
      → build_request prices (open_market i) ≡ some built
      → built.account ≡ i.slave_account_id
      → ((dispatch prices targets org (open_market i ∷ []) st).mappings ≡ created i st.mappings)
        × ((dispatch prices targets org (open_market i ∷ []) st).sends
            ≡ (i.slave_account_id, built.request) ∷ st.sends)
  unfolding dispatch create_mapping
  dispatch-open_market i built st live ctrader is_built own =
      (ground (arith, live, ctrader, is_built, own), ground (arith, live, ctrader, is_built, own))

  protect_new_copy-mappings :
      (is_close : F → F → Bool) (a : ℕ) (coid : Text) (p : ℕ) (current : Option F × Option F)
      (s : Service F)
      → (protect_new_copy prices targets org is_close a coid p current s).store.mappings
        ≡ s.store.mappings
  unfolding protect_new_copy
  protect_new_copy-mappings is_close a coid p current s =
      elim (Option-cases (master_position_of (some coid))) [
        | inl no_copy ↦ rw (protect_new_copy, no_copy)
        | inr (m, copy) ↦ elim (Option-cases (lookup m s.protection)) [
          | inl no_levels ↦ rw (protect_new_copy, copy, no_levels)
          | inr (levels, remembered) ↦
              elim (Bool-cases (
                same_level is_close levels.0 current.0 && same_level is_close levels.1 current.1)) [
                  | inl same ↦ rw (protect_new_copy, copy, remembered, same)
                  | inr different ↦
                      rw (protect_new_copy, copy, remembered, different)
                        (dispatch-amend_mappings prices targets org a p levels.0 levels.1 s.store)
                ]
        ]
      ]

  copy_fill-mappings :
      (is_close : F → F → Bool) (coid : Text) (fill : SlaveFill F) (s : Service F)
      (rows : List (Mapping F))
      → activate_position_mapping fill.account_id coid fill.position_id fill.filled_volume
          fill.fill_price s.store.mappings
        ≡ some rows
      → (copy_fill prices targets org is_close coid fill s).store.mappings ≡ rows
  unfolding copy_fill
  copy_fill-mappings is_close coid fill s rows done =
      rw (copy_fill, done)
        (protect_new_copy-mappings is_close fill.account_id coid fill.position_id
          (fill.stop_loss, fill.take_profit) _)

  build_request-account :
      (i : OpenMarket F) (built : Built F)
      → build_request prices (open_market i) ≡ some built
      → built.account ≡ i.slave_account_id
  unfolding build_request
  build_request-account i built h =
      elim (Option-cases
        (relative_protection prices i.side i.entry_price i.stop_loss i.take_profit)) [
          | inl unplaced ↦ ground (arith, unplaced, h)
          | inr (levels, placed) ↦ ground (arith, placed, h)
        ]

  -- The service after the intent is dispatched, and after its fill is reported.
  abbrev pub dispatched : OpenMarket F → Service F → Service F
  dispatched i s = record s { store = dispatch prices targets org (open_market i ∷ []) s.store }

  -- A market copy for a cTrader account that is dispatched live and then filled under its client order
  -- id was sent as `build_request` makes it, and is, after the older entries, the entry by which the
  -- next decision finds it: the slave's position with the filled volume.
  pub dispatch-fill-entries :
      (is_close : F → F → Bool) (i : OpenMarket F) (built : Built F) (fill : SlaveFill F)
      (s : Service F)
      → is_live org ≡ true
      → targets i.slave_account_id ≡ none
      → build_request prices (open_market i) ≡ some built
      → matches (has_coid (position_coid i.master_position_id i.slave_account_id)) s.store.mappings
        ≡ false
      → fill.account_id ≡ i.slave_account_id
      → fill.client_order_id ≡ some (position_coid i.master_position_id i.slave_account_id)
      → fill.closed_volume ≡ none
      → ((dispatched i s).store.sends ≡ (i.slave_account_id, built.request) ∷ s.store.sends)
        × (position_entries
              (handle_slave_fill prices targets org is_close fill (dispatched i s)).store.mappings
              i.master_position_id
            ≡ position_entries s.store.mappings i.master_position_id
              ++ entry_of i.slave_account_id fill.position_id fill.filled_volume ∷ [])
  unfolding handle_slave_fill
  dispatch-fill-entries is_close i built fill s live ctrader is_built fresh own coid opened =
      let m = i.master_position_id in
      let a = i.slave_account_id in
      let sent =
        dispatch-open_market i built s.store live ctrader is_built
          (build_request-account i built is_built) in
      let symbol = or_none i.symbol_name in
      let rows =
        s.store.mappings
        ++ filled_row m a (position_coid m a) org.org_id symbol fill.position_id fill.filled_volume
            fill.fill_price
          ∷ [] in
      let activated : activate_position_mapping fill.account_id (position_coid m a) fill.position_id
            fill.filled_volume fill.fill_price (dispatched i s).store.mappings
          ≡ some rows =
        ap
          (λ acc.
            activate_position_mapping acc (position_coid m a) fill.position_id fill.filled_volume
              fill.fill_price (dispatched i s).store.mappings)
          own
        ∙ ap
            (λ xs.
              activate_position_mapping a (position_coid m a) fill.position_id fill.filled_volume
                fill.fill_price xs)
            sent.0
        ∙ activate-create_position_mapping m a (position_coid m a) org.org_id symbol
            fill.position_id fill.filled_volume fill.fill_price s.store.mappings fresh in
      (
        sent.1,
        rw (handle_slave_fill, opened, open_fill, coid, with_prefix-position_coid m a)
            (ap (λ xs. position_entries xs m)
                (copy_fill-mappings is_close (position_coid m a) fill (dispatched i s) rows
                  activated)
              ∙ position_entries-filled m a (position_coid m a) org.org_id symbol fill.position_id
                  fill.filled_volume fill.fill_price s.store.mappings),
      )
