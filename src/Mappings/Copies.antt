-- ===== src/Mappings/Copies.antt =====
-- From the pending row of a copy to the entry that the next decision reads.
use forex_automated_copy_tra.Base.{
  ℕ, ◌≡◌, refl, ap, ◌∙◌, Bool, true, false, Option, some, List, [], ◌∷◌, ◌++◌, arith, String,
  ==_refl, Bool-cases, inl, inr,
}
use forex_automated_copy_tra.Text.{Text}
use forex_automated_copy_tra.Text.Print.{text_eq_refl}
use forex_automated_copy_tra.Models.{PositionMappingEntry}
use forex_automated_copy_tra.Mappings.{
  Mapping, active, update, matches, update_or_raise, has_coid, owns_coid, position_row,
  create_position_mapping, activate_position_mapping,
}
use forex_automated_copy_tra.Mappings.Reads.{position_entries, position_entries-append}

-- The entry of a filled copy.
abbrev pub entry_of : ℕ → ℕ → ℕ → PositionMappingEntry
entry_of account position volume = record {
  slave_account_id = account;
  slave_position_id = position;
  slave_volume = volume;
}

owns_coid-position_row :
    (F : Type 0) (m a : ℕ) (coid : Text) (org : ℕ) (symbol : Option String)
    → owns_coid a coid (position_row {F = F} m a coid org symbol) ≡ true
owns_coid-position_row F m a coid org symbol = ground (arith, text_eq_refl coid, ==_refl a)

module _ {F : Type 0} where
  update-append :
      (test : Mapping F → Bool) (change : Mapping F → Mapping F) (xs ys : List (Mapping F))
      → update test change (xs ++ ys) ≡ update test change xs ++ update test change ys
  unfolding update
  update-append test change [] ys = refl
  update-append test change (x ∷ xs) ys = ground (arith, update-append test change xs ys)

  -- A statement for an id that no row has changes none.
  update-fresh :
      (a : ℕ) (coid : Text) (change : Mapping F → Mapping F) (rows : List (Mapping F))
      → matches (has_coid coid) rows ≡ false
      → update (owns_coid a coid) change rows ≡ rows
  unfolding update matches
  update-fresh a coid change [] fresh = refl
  update-fresh a coid change (r ∷ rows) fresh = elim (Bool-cases (has_coid coid r)) [
    | inl old ↦ ground (arith, old, fresh)
    | inr new ↦ ground (arith, new, fresh, update-fresh a coid change rows)
  ]

  matches-last :
      (test : Mapping F → Bool) (rows : List (Mapping F)) (r : Mapping F)
      → test r ≡ true
      → matches test (rows ++ r ∷ []) ≡ true
  unfolding matches
  matches-last test [] r h = ground (arith, h)
  matches-last test (x ∷ rows) r h = ground (arith, matches-last test rows r h)

  -- The row that a fill makes of a pending one.
  abbrev pub filled_row : ℕ → ℕ → Text → ℕ → Option String → ℕ → ℕ → Option F → Mapping F
  filled_row m a coid org symbol position volume price = record (position_row m a coid org symbol) {
    slave_position_id = some position;
    slave_volume = some volume;
    fill_price = price;
    status = active;
  }

  update-position_row :
      (m a : ℕ) (coid : Text) (org : ℕ) (symbol : Option String) (change : Mapping F → Mapping F)
      → update (owns_coid a coid) change (position_row m a coid org symbol ∷ [])
        ≡ change (position_row m a coid org symbol) ∷ []
  unfolding update
  update-position_row m a coid org symbol change = rw (owns_coid-position_row F m a coid org symbol)

  -- A statement for a new copy's id changes the copy's row alone.
  update-created :
      (m a : ℕ) (coid : Text) (org : ℕ) (symbol : Option String) (change : Mapping F → Mapping F)
      (rows : List (Mapping F))
      → matches (has_coid coid) rows ≡ false
      → update_or_raise (owns_coid a coid) change (create_position_mapping m a coid org symbol rows)
        ≡ some (rows ++ change (position_row m a coid org symbol) ∷ [])
  unfolding create_position_mapping update_or_raise
  update-created m a coid org symbol change rows fresh =
      let row = position_row m a coid org symbol in
      rw
        (
          fresh,
          matches-last (owns_coid a coid) rows row (owns_coid-position_row F m a coid org symbol),
        )
        (ap some (
          update-append (owns_coid a coid) change rows (row ∷ [])
          ∙ ap (λ xs. xs ++ update (owns_coid a coid) change (row ∷ []))
              (update-fresh a coid change rows fresh)
          ∙ ap (λ xs. rows ++ xs) (update-position_row m a coid org symbol change)))

  pub activate-create_position_mapping :
      (m a : ℕ) (coid : Text) (org : ℕ) (symbol : Option String) (position volume : ℕ)
      (price : Option F) (rows : List (Mapping F))
      → matches (has_coid coid) rows ≡ false
      → activate_position_mapping a coid position volume price
          (create_position_mapping m a coid org symbol rows)
        ≡ some (rows ++ filled_row m a coid org symbol position volume price ∷ [])
  unfolding activate_position_mapping
  activate-create_position_mapping m a coid org symbol position volume price rows fresh =
      update-created m a coid org symbol _ rows fresh
      ∙ ap (λ v. some (rows ++ filled_row m a coid org symbol position v price ∷ [])) (omega arith)

  -- Once its fill is reported, the copy is the last entry that a decision finds for the master's
  -- position, with the slave's position and the filled volume; the older entries stay.
  pub position_entries-filled :
      (m a : ℕ) (coid : Text) (org : ℕ) (symbol : Option String) (position volume : ℕ)
      (price : Option F) (rows : List (Mapping F))
      → position_entries (rows ++ filled_row m a coid org symbol position volume price ∷ []) m
        ≡ position_entries rows m ++ entry_of a position volume ∷ []
  unfolding position_entries
  position_entries-filled m a coid org symbol position volume price rows =
      position_entries-append rows _ m ∙ ap (λ xs. position_entries rows m ++ xs) (rw (==_refl m))
