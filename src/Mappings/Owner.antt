-- ===== src/Mappings/Owner.antt =====
-- A write touches no row of another account.
use forex_automated_copy_tra.Base.{
  ℕ, ◌-◌, ◌≡◌, refl, Bool, true, not, none, some, List, [], ◌∷◌, ◌++◌, keep, ◌==◌, arith,
  Bool-cases, ==_refl, inl, inr, min,
}
use forex_automated_copy_tra.Mappings.{
  Mapping, update, matches, update_or_raise, has_coid, owns_coid, owns_order, position_row,
  order_row, create_position_mapping, create_order_mapping, activate_position_mapping,
  activate_order_mapping, fail_mapping, close_order_mapping, link_pending_fill,
  activate_pending_fill, reduce_position_mapping, reduce_fifo, reduces, or_zero, or_unchanged,
  adopt_position_mapping, adopted_row,
}
use forex_automated_copy_tra.Mappings.Writes.{
  Write, write, account_of_write, create_position, create_order, activate_position, activate_order,
  fail, close_order, link_fill, activate_fill, reduce, reduce_oldest, adopt,
}

module _ {F : Type 0} where
  -- The rows of all other accounts, in order.
  abbrev pub others : ℕ → List (Mapping F) → List (Mapping F)
  others account rows = keep (λ r. not (r.slave_account_id == account)) rows

  others-append_own :
      (a : ℕ) (r : Mapping F)
      → (r.slave_account_id == a) ≡ true
      → (rows : List (Mapping F)) → others a (rows ++ r ∷ []) ≡ others a rows
  others-append_own a r own [] = ground arith
  others-append_own a r own (x ∷ rows) = ground (arith, others-append_own a r own rows)

  others-update :
      (a : ℕ) (test : Mapping F → Bool) (change : Mapping F → Mapping F)
      → ((r : Mapping F) → test r ≡ true → (r.slave_account_id == a) ≡ true)
      → ((r : Mapping F) → (change r).slave_account_id ≡ r.slave_account_id)
      → (rows : List (Mapping F)) → others a (update test change rows) ≡ others a rows
  unfolding update
  others-update a test change own kept [] = refl
  others-update a test change own kept (r ∷ rows) =
      ground (arith, own r, kept r, others-update a test change own kept rows)

  others-update_or_raise :
      (a : ℕ) (test : Mapping F → Bool) (change : Mapping F → Mapping F)
      → ((r : Mapping F) → test r ≡ true → (r.slave_account_id == a) ≡ true)
      → ((r : Mapping F) → (change r).slave_account_id ≡ r.slave_account_id)
      → (rows : List (Mapping F))
      → others a (or_unchanged rows (update_or_raise test change rows)) ≡ others a rows
  others-update_or_raise a test change own kept rows = elim (Bool-cases (matches test rows)) [
    | inl some_row ↦
        unfold update_or_raise in rw some_row (others-update a test change own kept rows)
    | inr no_row ↦ unfold update_or_raise in rw no_row
  ]

  others-reduce_fifo :
      (a p n : ℕ) (rows : List (Mapping F)) → others a (reduce_fifo a p n rows) ≡ others a rows
  unfolding reduce_fifo
  others-reduce_fifo a p n [] = refl
  others-reduce_fifo a p n (r ∷ rows) = elim (Bool-cases (reduces a p none r)) [
    | inl on_ticket ↦
        ground (arith, others-reduce_fifo a p (n - min (or_zero r.slave_volume) n) rows)
    | inr off_ticket ↦ ground (arith, others-reduce_fifo a p (n - 0) rows)
  ]

  -- A write for one account leaves the rows of all others as they were, whatever it matches on.
  pub write-others :
      (w : Write F) (rows : List (Mapping F))
      → others (account_of_write w) (write w rows) ≡ others (account_of_write w) rows
  unfolding write activate_position_mapping activate_order_mapping fail_mapping close_order_mapping
      link_pending_fill activate_pending_fill reduce_position_mapping create_position_mapping
      create_order_mapping adopt_position_mapping
  write-others (create_position m a c o s) rows = elim (Bool-cases (matches (has_coid c) rows)) [
    | inl known ↦ rw known
    | inr fresh ↦ rw fresh (others-append_own a (position_row m a c o s) (==_refl a) rows)
  ]
  write-others (create_order m a c o s) rows = elim (Bool-cases (matches (has_coid c) rows)) [
    | inl known ↦ rw known
    | inr fresh ↦ rw fresh (others-append_own a (order_row m a c o s) (==_refl a) rows)
  ]
  write-others (activate_position a c p v x) rows =
      others-update_or_raise a (owns_coid a c) _ (λ r h. ground arith) (λ r. refl) rows
  write-others (activate_order a c o) rows =
      others-update_or_raise a (owns_coid a c) _ (λ r h. ground arith) (λ r. refl) rows
  write-others (fail a c e) rows =
      others-update_or_raise a (owns_coid a c) _ (λ r h. ground arith) (λ r. refl) rows
  write-others (close_order a o) rows =
      others-update_or_raise a (owns_order a o) _ (λ r h. ground arith) (λ r. refl) rows
  write-others (link_fill o a m) rows =
      others-update_or_raise a _ _ (λ r h. ground arith) (λ r. refl) rows
  write-others (activate_fill a o p v x) rows =
      others-update_or_raise a (owns_order a o) _ (λ r h. ground arith) (λ r. refl) rows
  write-others (reduce a p v none) rows =
      others-update a (reduces a p none) _ (λ r h. ground arith) (λ r. refl) rows
  write-others (reduce a p v (some c)) rows =
      others-update a (reduces a p (some c)) _ (λ r h. ground arith) (λ r. refl) rows
  write-others (reduce_oldest a p v) rows = others-reduce_fifo a p v rows
  write-others (adopt m a p v o) rows = others-append_own a (adopted_row m a p v o) (==_refl a) rows
