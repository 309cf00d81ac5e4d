-- ===== src/Decision/Safety.antt =====
-- What a decision does for the fleet, over every event.
use forex_automated_copy_tra.Base.{
  ℕ, ◌<◌, ◌≡◌, ◌≢◌, ap, ◌∙◌, ◌&&◌, Bool, true, false, Option, none, some, List, [], ◌∷◌, map,
  contains, Option-cases, inl, inr, arith,
}
use forex_automated_copy_tra.Models.{
  SlaveConfig, MasterPositionOpened, MasterEvent, position_opened, position_closed,
  position_sltp_amended, pending_placed, pending_replaced, pending_cancelled, pending_filled,
  rejected, MappingState, PositionMappingEntry, OrderMappingEntry, SlaveIntent, account_of,
  close_unmapped, sltp_unmapped, replace_unmapped, cancel_unmapped, fill_unmapped,
}
use forex_automated_copy_tra.Decision.Loops.{enabled, for_slaves}
use forex_automated_copy_tra.Decision.{
  decide, decide_opened, open_for, place_for, close_for, replace_for, sltp_for, cancel_for,
  link_for,
}
use forex_automated_copy_tra.Decision.Fleet.{enabled_ids, kept_ids, kept_ids-enabled}
use forex_automated_copy_tra.Decision.Coverage.{
  addressed, addressed-for_slaves, addressed-for_mapped, VisitsAll,
}
use forex_automated_copy_tra.Decision.Handlers.{
  account_of-open_for, account_of-place_for, account_of-close_for, account_of-replace_for,
  open_for-ne-none, place_for-ne-none, replace_for-ne-none, close_for-ne-none, for_slaves-ne-none,
  for_mapped-ne-none,
}

module _ {F : Type 0} where
  -- The master's lot size, where the event sizes a copy by it.
  abbrev pub IsSized : MasterEvent F → Type 0
  IsSized (position_opened e) = 0 < e.lot_size
  IsSized (pending_placed e) = 0 < e.lot_size
  IsSized (pending_replaced e) = 0 < e.lot_size
  IsSized _ = Unit

  abbrev pub is_copied : MasterEvent F → Bool
  is_copied (rejected e) = false
  is_copied _ = true

  module _ (set_order : List ℕ → List ℕ) (mappings : MappingState) (slaves : List SlaveConfig) where
    decide-ne-none : (e : MasterEvent F) → IsSized e → decide set_order e mappings slaves ≢ none
    unfolding decide
    decide-ne-none (position_opened e) h =
        for_slaves-ne-none (open_for e) (λ s. open_for-ne-none e s h) (enabled slaves)
    decide-ne-none (position_closed e) h =
        for_mapped-ne-none (λ (m : PositionMappingEntry). m.slave_account_id) (close_for e)
          (close_for-ne-none e) set_order (close_unmapped e.position_id)
          (mappings.position_entries e.position_id) slaves
    decide-ne-none (position_sltp_amended e) h =
        for_mapped-ne-none (λ (m : PositionMappingEntry). m.slave_account_id) (sltp_for e)
          (λ s entry. ground arith) set_order (sltp_unmapped e.position_id)
          (mappings.position_entries e.position_id) slaves
    decide-ne-none (pending_placed e) h =
        for_slaves-ne-none (place_for e) (λ s. place_for-ne-none e s h) (enabled slaves)
    decide-ne-none (pending_replaced e) h =
        for_mapped-ne-none (λ (m : OrderMappingEntry). m.slave_account_id) (replace_for e)
          (λ s entry. replace_for-ne-none e s entry h) set_order (replace_unmapped e.order_id)
          (mappings.order_entries e.order_id) slaves
    decide-ne-none (pending_cancelled e) h =
        for_mapped-ne-none {F = F} (λ (m : OrderMappingEntry). m.slave_account_id) cancel_for
          (λ s entry. ground arith) set_order (cancel_unmapped e.order_id)
          (mappings.order_entries e.order_id) slaves
    decide-ne-none (pending_filled e) h =
        for_mapped-ne-none {F = F} (λ (m : OrderMappingEntry). m.slave_account_id) (link_for e)
          (λ s entry. ground arith) set_order (fill_unmapped e.order_id)
          (mappings.order_entries e.order_id) slaves
    decide-ne-none (rejected e) h = ground arith

    module _ (visits : VisitsAll set_order) (a : ℕ) (out : List (SlaveIntent F)) where
      decide-addressed :
          (e : MasterEvent F)
          → decide set_order e mappings slaves ≡ some out
          → addressed a out ≡ (is_copied e && contains a (kept_ids slaves))
      unfolding decide
      decide-addressed (position_opened e) h =
          addressed-for_slaves a (open_for e) (account_of-open_for e) (enabled slaves) out h
      decide-addressed (position_closed e) h =
          addressed-for_mapped set_order visits a (λ (m : PositionMappingEntry). m.slave_account_id)
            (close_for e) (close_unmapped e.position_id) (account_of-close_for e)
            (mappings.position_entries e.position_id) slaves out h
      decide-addressed (position_sltp_amended e) h =
          addressed-for_mapped set_order visits a (λ (m : PositionMappingEntry). m.slave_account_id)
            (sltp_for e) (sltp_unmapped e.position_id) (λ s entry i own done. ground arith)
            (mappings.position_entries e.position_id) slaves out h
      decide-addressed (pending_placed e) h =
          addressed-for_slaves a (place_for e) (account_of-place_for e) (enabled slaves) out h
      decide-addressed (pending_replaced e) h =
          addressed-for_mapped set_order visits a (λ (m : OrderMappingEntry). m.slave_account_id)
            (replace_for e) (replace_unmapped e.order_id) (account_of-replace_for e)
            (mappings.order_entries e.order_id) slaves out h
      decide-addressed (pending_cancelled e) h =
          addressed-for_mapped set_order visits a (λ (m : OrderMappingEntry). m.slave_account_id)
            cancel_for (cancel_unmapped e.order_id) (λ s entry i own done. ground arith)
            (mappings.order_entries e.order_id) slaves out h
      decide-addressed (pending_filled e) h =
          addressed-for_mapped set_order visits a (λ (m : OrderMappingEntry). m.slave_account_id)
            (link_for e) (fill_unmapped e.order_id) (λ s entry i own done. ground arith)
            (mappings.order_entries e.order_id) slaves out h
      decide-addressed (rejected e) h = ground arith

-- If the master's lot size is positive wherever it is divided by, `decide` returns. Its intents are
-- then for exactly the enabled slaves: every enabled slave gets an order or an alert, and no other
-- account gets anything; a rejected master order gives no intent at all.
pub decide-addresses-enabled :
    {F : Type 0} (set_order : List ℕ → List ℕ) (e : MasterEvent F) (mappings : MappingState)
    (slaves : List SlaveConfig)
    → VisitsAll set_order
    → IsSized e
    → (out : List (SlaveIntent F)) × (decide set_order e mappings slaves ≡ some out)
      × ((a : ℕ) → addressed a out ≡ (is_copied e && contains a (enabled_ids slaves)))
decide-addresses-enabled set_order e mappings slaves visits sized =
    elim (Option-cases (decide set_order e mappings slaves)) [
      | inl failed ↦ absurd (decide-ne-none set_order mappings slaves e sized failed)
      | inr (out, done) ↦ (
        out,
        done,
        λ a.
            decide-addressed set_order mappings slaves visits a out e done
            ∙ ap (λ ids. is_copied e && contains a ids) (kept_ids-enabled slaves),
      )
    ]

for_slaves-accounts :
    {F : Type 0} (body : SlaveConfig → Option (SlaveIntent F))
    → ((s : SlaveConfig) (i : SlaveIntent F) → body s ≡ some i → account_of i ≡ some s.account_id)
    → (xs : List SlaveConfig) (out : List (SlaveIntent F)) → for_slaves body xs ≡ some out
    → map account_of out ≡ map some (map (λ (s : SlaveConfig). s.account_id) xs)
unfolding for_slaves
for_slaves-accounts body own [] out e = ground arith
for_slaves-accounts body own (s ∷ xs) out e = elim (Option-cases (body s)) [
  | inl failed ↦ ground arith
  | inr (i, done) ↦ elim (Option-cases (for_slaves body xs)) [
    | inl failed ↦ ground arith
    | inr (rest, more) ↦ ground (arith, own s i done, for_slaves-accounts body own xs rest more)
  ]
]

-- A master's open gives one intent for each enabled slave, in the fleet's order.
pub decide_opened-accounts :
    {F : Type 0} (e : MasterPositionOpened F) (slaves : List SlaveConfig)
    → 0 < e.lot_size
    → (out : List (SlaveIntent F)) × (decide_opened e slaves ≡ some out)
      × (map account_of out ≡ map some (enabled_ids slaves))
unfolding decide_opened
decide_opened-accounts e slaves h = elim (Option-cases (for_slaves (open_for e) (enabled slaves))) [
  | inl failed ↦
      absurd (for_slaves-ne-none (open_for e) (λ s. open_for-ne-none e s h) (enabled slaves) failed)
  | inr (out, done) ↦ (
    out,
    done,
    for_slaves-accounts (open_for e) (account_of-open_for e) (enabled slaves) out done
        ∙ ap (map some) (kept_ids-enabled slaves),
  )
]
