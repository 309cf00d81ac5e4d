-- ===== src/Mappings/Reads.antt =====
-- What a decision reads of the mappings: `Repo.position_entries` and `Repo.order_entries`.
use forex_automated_copy_tra.Base.{
  ℕ, ◌≡◌, refl, ◌&&◌, none, some, List, [], ◌∷◌, ◌++◌, if◌then◌else◌, arith, Option-cases, inl, inr,
}
use forex_automated_copy_tra.Models.{PositionMappingEntry, OrderMappingEntry, MappingState}
use forex_automated_copy_tra.Mappings.{Mapping, is_value, is_active, or_zero}

module _ {F : Type 0} where
  -- A row with a position has a volume: every statement of the table writes them together.
  unfoldable pub position_entries : List (Mapping F) → ℕ → List PositionMappingEntry
  position_entries [] master_position = []
  position_entries (r ∷ rows) master_position =
      let rest = position_entries rows master_position in
      elim r.slave_position_id [
        | none ↦ rest
        | some position ↦
            if is_value r.master_position_id master_position && is_active r.status
            then record {
              slave_account_id = r.slave_account_id;
              slave_position_id = position;
              slave_volume = or_zero r.slave_volume;
            }
              ∷ rest
            else rest
      ]

  -- An active row of an order has the slave's order: the statement that activates it writes both.
  unfoldable pub order_entries : List (Mapping F) → ℕ → List OrderMappingEntry
  order_entries [] master_order = []
  order_entries (r ∷ rows) master_order =
      let rest = order_entries rows master_order in
      if is_value r.master_order_id master_order && is_active r.status
      then record {
        slave_account_id = r.slave_account_id;
        slave_order_id = or_zero r.slave_order_id;
      }
        ∷ rest
      else rest

  -- The repository as what `decide` reads.
  abbrev pub mapping_state : List (Mapping F) → MappingState
  mapping_state rows = record {
    position_entries = position_entries rows;
    order_entries = order_entries rows;
  }

  pub position_entries-append :
      (xs ys : List (Mapping F)) (m : ℕ)
      → position_entries (xs ++ ys) m ≡ position_entries xs m ++ position_entries ys m
  unfolding position_entries
  position_entries-append [] ys m = refl
  position_entries-append (x ∷ xs) ys m = elim (Option-cases x.slave_position_id) [
    | inl no_position ↦ ground (arith, no_position, position_entries-append xs ys m)
    | inr (p, position) ↦ ground (arith, position, position_entries-append xs ys m)
  ]
