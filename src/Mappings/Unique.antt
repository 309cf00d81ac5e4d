-- ===== src/Mappings/Unique.antt =====
-- The unique index on client_order_id, over every write of the table.
use forex_automated_copy_tra.Base.{
  ℕ, ◌-◌, ◌≡◌, refl, ap, sym, ◌∙◌, subst, Bool, false, Option, none, some, List, [], ◌∷◌, ◌++◌,
  arith, Bool-cases, inl, inr, min, All, All-append,
}
use forex_automated_copy_tra.Text.{Text}
use forex_automated_copy_tra.Mappings.{
  Mapping, update, matches, update_or_raise, has_coid, owns_coid, owns_order, is_text, position_row,
  order_row, create_position_mapping, create_order_mapping, activate_position_mapping,
  activate_order_mapping, fail_mapping, close_order_mapping, link_pending_fill,
  activate_pending_fill, reduce_position_mapping, reduce_fifo, reduces, or_zero, or_unchanged,
  adopt_position_mapping, adopted_row,
}
use forex_automated_copy_tra.Mappings.Writes.{
  Write, write, create_position, create_order, activate_position, activate_order, fail, close_order,
  link_fill, activate_fill, reduce, reduce_oldest, adopt,
}

-- Two ids clash when both are there and equal.
abbrev clash : Option Text → Option Text → Bool
clash x none = false
clash x (some t) = is_text x t

abbrev pub IsUnique : List (Option Text) → Type 0
IsUnique [] = Unit
IsUnique (x ∷ xs) = All (λ y. clash x y ≡ false) xs × IsUnique xs

IsUnique-append_one :
    (c : Text) (xs : List (Option Text))
    → All (λ x. is_text x c ≡ false) xs
    → IsUnique xs
    → IsUnique (xs ++ some c ∷ [])
IsUnique-append_one c [] new h = (tt, tt)
IsUnique-append_one c (x ∷ xs) new h = (
  All-append (λ y. clash x y ≡ false) xs (some c ∷ []) h.0 (new.0, tt),
  IsUnique-append_one c xs new.1 h.1,
)

IsUnique-append_none : (xs : List (Option Text)) → IsUnique xs → IsUnique (xs ++ none ∷ [])
IsUnique-append_none [] h = (tt, tt)
IsUnique-append_none (x ∷ xs) h =
    (All-append (λ y. clash x y ≡ false) xs (none ∷ []) h.0 (refl, tt), IsUnique-append_none xs h.1)

module _ {F : Type 0} where
  -- The column.
  abbrev pub coids : List (Mapping F) → List (Option Text)
  coids [] = []
  coids (r ∷ rows) = r.client_order_id ∷ coids rows

  coids-append_one :
      (rows : List (Mapping F)) (r : Mapping F)
      → coids (rows ++ r ∷ []) ≡ coids rows ++ r.client_order_id ∷ []
  coids-append_one [] r = refl
  coids-append_one (x ∷ rows) r = ap (λ xs. x.client_order_id ∷ xs) (coids-append_one rows r)

  matches-fresh :
      (c : Text) (rows : List (Mapping F))
      → matches (has_coid c) rows ≡ false
      → All (λ x. is_text x c ≡ false) (coids rows)
  unfolding matches
  matches-fresh c [] h = tt
  matches-fresh c (r ∷ rows) h = elim (Bool-cases (has_coid c r)) [
    | inl old ↦ ground arith
    | inr new ↦ (new, matches-fresh c rows (ground arith))
  ]

  coids-update :
      (test : Mapping F → Bool) (change : Mapping F → Mapping F)
      → ((r : Mapping F) → (change r).client_order_id ≡ r.client_order_id)
      → (rows : List (Mapping F)) → coids (update test change rows) ≡ coids rows
  unfolding update
  coids-update test change kept [] = refl
  coids-update test change kept (r ∷ rows) =
      ground (arith, kept r, coids-update test change kept rows)

  coids-update_or_raise :
      (test : Mapping F → Bool) (change : Mapping F → Mapping F)
      → ((r : Mapping F) → (change r).client_order_id ≡ r.client_order_id)
      → (rows : List (Mapping F))
      → coids (or_unchanged rows (update_or_raise test change rows)) ≡ coids rows
  coids-update_or_raise test change kept rows = elim (Bool-cases (matches test rows)) [
    | inl some_row ↦ unfold update_or_raise in rw some_row (coids-update test change kept rows)
    | inr no_row ↦ unfold update_or_raise in rw no_row
  ]

  coids-reduce_fifo :
      (a p n : ℕ) (rows : List (Mapping F)) → coids (reduce_fifo a p n rows) ≡ coids rows
  unfolding reduce_fifo
  coids-reduce_fifo a p n [] = refl
  coids-reduce_fifo a p n (r ∷ rows) = elim (Bool-cases (reduces a p none r)) [
    | inl on_ticket ↦
        ground (arith, coids-reduce_fifo a p (n - min (or_zero r.slave_volume) n) rows)
    | inr off_ticket ↦ ground (arith, coids-reduce_fifo a p (n - 0) rows)
  ]

  IsUnique-created :
      (c : Text) (r : Mapping F)
      → r.client_order_id ≡ some c
      → (rows : List (Mapping F)) → matches (has_coid c) rows ≡ false
      → IsUnique (coids rows)
      → IsUnique (coids (rows ++ r ∷ []))
  IsUnique-created c r named rows fresh h =
      subst IsUnique (sym (coids-append_one rows r ∙ ap (λ x. coids rows ++ x ∷ []) named))
        (IsUnique-append_one c (coids rows) (matches-fresh c rows fresh) h)

  IsUnique-same :
      (rows rows' : List (Mapping F))
      → coids rows' ≡ coids rows
      → IsUnique (coids rows)
      → IsUnique (coids rows')
  IsUnique-same rows rows' same h = subst IsUnique (sym same) h

  -- No write gives two rows the same client order id.
  pub write-IsUnique :
      (w : Write F) (rows : List (Mapping F))
      → IsUnique (coids rows)
      → IsUnique (coids (write w rows))
  unfolding write activate_position_mapping activate_order_mapping fail_mapping close_order_mapping
      link_pending_fill activate_pending_fill reduce_position_mapping create_position_mapping
      create_order_mapping adopt_position_mapping
  write-IsUnique (create_position m a c o s) rows h =
      elim (Bool-cases (matches (has_coid c) rows)) [
        | inl known ↦ rw known h
        | inr fresh ↦ rw fresh (IsUnique-created c (position_row m a c o s) refl rows fresh h)
      ]
  write-IsUnique (create_order m a c o s) rows h = elim (Bool-cases (matches (has_coid c) rows)) [
    | inl known ↦ rw known h
    | inr fresh ↦ rw fresh (IsUnique-created c (order_row m a c o s) refl rows fresh h)
  ]
  write-IsUnique (activate_position a c p v x) rows h =
      IsUnique-same rows _ (coids-update_or_raise (owns_coid a c) _ (λ r. refl) rows) h
  write-IsUnique (activate_order a c o) rows h =
      IsUnique-same rows _ (coids-update_or_raise (owns_coid a c) _ (λ r. refl) rows) h
  write-IsUnique (fail a c e) rows h =
      IsUnique-same rows _ (coids-update_or_raise (owns_coid a c) _ (λ r. refl) rows) h
  write-IsUnique (close_order a o) rows h =
      IsUnique-same rows _ (coids-update_or_raise (owns_order a o) _ (λ r. refl) rows) h
  write-IsUnique (link_fill o a m) rows h =
      IsUnique-same rows _ (coids-update_or_raise _ _ (λ r. refl) rows) h
  write-IsUnique (activate_fill a o p v x) rows h =
      IsUnique-same rows _ (coids-update_or_raise (owns_order a o) _ (λ r. refl) rows) h
  write-IsUnique (reduce a p v c) rows h =
      IsUnique-same rows _ (coids-update (reduces a p c) _ (λ r. refl) rows) h
  write-IsUnique (reduce_oldest a p v) rows h =
      IsUnique-same rows _ (coids-reduce_fifo a p v rows) h
  write-IsUnique (adopt m a p v o) rows h =
      subst IsUnique (sym (coids-append_one rows (adopted_row m a p v o)))
        (IsUnique-append_none (coids rows) h)
