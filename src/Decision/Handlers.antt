-- ===== src/Decision/Handlers.antt =====
-- Each handler of a decision returns, and its intent is for the slave or the mapped copy it is
-- given.
use forex_automated_copy_tra.Base.{
  ℕ, ◌<◌, ◌≡◌, ◌≢◌, Option, none, some, List, [], ◌∷◌, Dict, lookup, Option-cases, inl, inr, arith,
}
use forex_automated_copy_tra.Sizing.Close.{partial_close_volume-le}
use forex_automated_copy_tra.Sizing.Mirror.{mirror_volume-returns}
use forex_automated_copy_tra.Models.{
  SlaveConfig, MasterPositionOpened, MasterPositionClosed, MasterPendingPlaced,
  MasterPendingReplaced, PositionMappingEntry, OrderMappingEntry, SlaveIntent, AlertMessage,
  account_of,
}
use forex_automated_copy_tra.Decision.Loops.{
  get_symbol, for_slaves, for_entries, for_mapped, by_id, step_or_one,
}
use forex_automated_copy_tra.Decision.{open_for, place_for, close_for, replace_for}

module _ {F : Type 0} where
  pub account_of-open_for :
      (e : MasterPositionOpened F) (s : SlaveConfig) (i : SlaveIntent F)
      → open_for e s ≡ some i
      → account_of i ≡ some s.account_id
  unfolding open_for
  account_of-open_for e s i h = ground arith

  pub account_of-place_for :
      (e : MasterPendingPlaced F) (s : SlaveConfig) (i : SlaveIntent F)
      → place_for e s ≡ some i
      → account_of i ≡ some s.account_id
  unfolding place_for
  account_of-place_for e s i h = ground arith

  pub account_of-close_for :
      (e : MasterPositionClosed) (s : SlaveConfig) (entry : PositionMappingEntry)
      (i : SlaveIntent F)
      → s.account_id ≡ entry.slave_account_id
      → close_for e s entry ≡ some i
      → account_of i ≡ some entry.slave_account_id
  unfolding close_for
  account_of-close_for e s entry i own h = ground arith

  pub account_of-replace_for :
      (e : MasterPendingReplaced F) (s : SlaveConfig) (entry : OrderMappingEntry)
      (i : SlaveIntent F)
      → s.account_id ≡ entry.slave_account_id
      → replace_for e s entry ≡ some i
      → account_of i ≡ some entry.slave_account_id
  unfolding replace_for
  account_of-replace_for e s entry i own h = ground arith

  pub open_for-ne-none :
      (e : MasterPositionOpened F) (s : SlaveConfig) → 0 < e.lot_size → open_for e s ≢ none
  unfolding open_for
  open_for-ne-none e s h = elim (Option-cases (get_symbol e.symbol_name s.symbols)) [
    | inl missing ↦ ground arith
    | inr (sym, found) ↦ ground (
      arith,
      mirror_volume-returns e.volume e.lot_size s.multiplier sym.lot_size sym.step_volume h,
    )
  ]

  pub place_for-ne-none :
      (e : MasterPendingPlaced F) (s : SlaveConfig) → 0 < e.lot_size → place_for e s ≢ none
  unfolding place_for
  place_for-ne-none e s h = elim (Option-cases (get_symbol e.symbol_name s.symbols)) [
    | inl missing ↦ ground arith
    | inr (sym, found) ↦ ground (
      arith,
      mirror_volume-returns e.volume e.lot_size s.multiplier sym.lot_size sym.step_volume h,
    )
  ]

  pub replace_for-ne-none :
      (e : MasterPendingReplaced F) (s : SlaveConfig) (entry : OrderMappingEntry)
      → 0 < e.lot_size
      → replace_for e s entry ≢ none
  unfolding replace_for
  replace_for-ne-none e s entry h = elim (Option-cases (get_symbol e.symbol_name s.symbols)) [
    | inl missing ↦ ground arith
    | inr (sym, found) ↦ ground (
      arith,
      mirror_volume-returns e.volume e.lot_size s.multiplier sym.lot_size sym.step_volume h,
    )
  ]

  pub close_for-ne-none :
      (e : MasterPositionClosed) (s : SlaveConfig) (entry : PositionMappingEntry)
      → close_for {F = F} e s entry ≢ none
  unfolding close_for
  close_for-ne-none e s entry = ground (
    arith,
    partial_close_volume-le entry.slave_volume e.closed_volume e.remaining_volume
        (step_or_one (get_symbol e.symbol_name s.symbols)),
  )

  pub for_slaves-ne-none :
      (body : SlaveConfig → Option (SlaveIntent F))
      → ((s : SlaveConfig) → body s ≢ none)
      → (xs : List SlaveConfig) → for_slaves body xs ≢ none
  unfolding for_slaves
  for_slaves-ne-none body total [] = ground arith
  for_slaves-ne-none body total (s ∷ xs) = ground (arith, total s, for_slaves-ne-none body total xs)

  module _ {A : Type 0} (account : A → ℕ) (body : SlaveConfig → A → Option (SlaveIntent F)) where
    for_entries-ne-none :
        ((s : SlaveConfig) (entry : A) → body s entry ≢ none)
        → (d : Dict SlaveConfig) (entries : List A) → for_entries account body d entries ≢ none
    unfolding for_entries
    for_entries-ne-none total d [] = ground arith
    for_entries-ne-none total d (entry ∷ entries) = elim (Option-cases (lookup (account entry) d)) [
      | inl skipped ↦ ground (arith, for_entries-ne-none total d entries)
      | inr (s, found) ↦ ground (arith, total s entry, for_entries-ne-none total d entries)
    ]

    pub for_mapped-ne-none :
        ((s : SlaveConfig) (entry : A) → body s entry ≢ none)
        → (set_order : List ℕ → List ℕ) (m : AlertMessage) (entries : List A)
          (slaves : List SlaveConfig)
        → for_mapped set_order account body m entries slaves ≢ none
    unfolding for_mapped
    for_mapped-ne-none total set_order m entries slaves =
        ground (arith, for_entries-ne-none total (by_id slaves) entries)
