-- ===== src/Ingress/Rows.antt =====
-- The rows of mt5_net_ledger after the statements of a save.
use forex_automated_copy_tra.Base.{
  ℕ, ◌∷◌, [], List, true, false, Option, none, some, if◌then◌else◌, ◌==◌, ==_iff, ◌≡◌, refl, sym,
  subst, ◌∙◌, ap, arith, Bool-cases, inl, inr, Dict, lookup, contains,
}
use forex_automated_copy_tra.Ingress.Book.{VirtualPosition}
use forex_automated_copy_tra.Ingress.Stored.{
  values, refresh, upsert_row, upsert_net_ledger, delete_net_ledger,
}
use forex_automated_copy_tra.Ingress.Found.{find, IsDistinct}
use forex_automated_copy_tra.Ingress.Keyed.{IsKeyed}

module _ {F : Type 0} where
  lookup-here :
      (id k : ℕ) (v : VirtualPosition F) (d : Dict (VirtualPosition F))
      → (id == k) ≡ true
      → lookup id ((k, v) ∷ d) ≡ some v
  lookup-here id k v d e = ground (arith, e)

  lookup-there :
      (id k : ℕ) (v : VirtualPosition F) (d : Dict (VirtualPosition F))
      → (id == k) ≡ false
      → lookup id ((k, v) ∷ d) ≡ lookup id d
  lookup-there id k v d e = ground (arith, e)

  -- A row after an upsert of `v`.
  abbrev pub merged : VirtualPosition F → Option (VirtualPosition F) → VirtualPosition F
  merged v none = v
  merged v (some row) = refresh v row

  lookup-upsert_row :
      (id : ℕ) (v : VirtualPosition F) (table : Dict (VirtualPosition F))
      → lookup id (upsert_row v table) ≡ elim (id == v.virtual_id) [
        | true ↦ some (merged v (lookup id table))
        | false ↦ lookup id table
      ]
  unfolding upsert_row
  lookup-upsert_row id v [] = refl
  lookup-upsert_row id v ((k, row) ∷ table) = elim (Bool-cases (k == v.virtual_id)) [
    | inl e ↦ rw e (elim (Bool-cases (id == v.virtual_id)) [
      | inl here ↦
          let at_k : (id == k) ≡ true = rw ((==_iff k v.virtual_id).0 e) here in
          rw here (
            lookup-here id k (refresh v row) table at_k
            ∙ ap (λ o. some (merged v o)) (sym (lookup-here id k row table at_k)))
      | inr there ↦
          let off_k : (id == k) ≡ false = rw ((==_iff k v.virtual_id).0 e) there in
          rw there (
            lookup-there id k (refresh v row) table off_k ∙ sym (lookup-there id k row table off_k))
    ])
    | inr e ↦ rw e (ground (arith, e, lookup-upsert_row id v table))
  ]

  -- A row under its key after the upserts of a dict.
  abbrev pub upserted :
      Option (VirtualPosition F) → Option (VirtualPosition F) → Option (VirtualPosition F)
  upserted none row = row
  upserted (some v) row = some (merged v row)

  pub lookup-upsert_net_ledger :
      (id : ℕ) (dirty table : Dict (VirtualPosition F))
      → IsKeyed dirty
      → lookup id (upsert_net_ledger (values dirty) table)
        ≡ upserted (lookup id dirty) (lookup id table)
  unfolding upsert_net_ledger
  lookup-upsert_net_ledger id [] table keyed = refl
  lookup-upsert_net_ledger id ((k, v) ∷ dirty) table keyed =
      let rest = lookup-upsert_net_ledger id dirty (upsert_row v table) keyed.1.1 in
      let one = lookup-upsert_row id v table in
      elim (Bool-cases (id == k)) [
        | inl e ↦
            let gone : lookup id dirty ≡ none = rw ((==_iff id k).0 e) keyed.1.0 in
            let here : (id == v.virtual_id) ≡ true = rw keyed.0 e in
            rest
            ∙ rw gone (
                one
                ∙ (rw here refl
                    ∙ ap (λ o. upserted o (lookup id table)) (sym (lookup-here id k v dirty e))))
        | inr e ↦
            let there : (id == v.virtual_id) ≡ false = rw keyed.0 e in
            rest
            ∙ (ap (upserted (lookup id dirty)) (one ∙ rw there refl)
                ∙ ap (λ o. upserted o (lookup id table)) (sym (lookup-there id k v dirty e)))
      ]

  pub lookup-delete_net_ledger :
      (id : ℕ) (ids : List ℕ) (table : Dict (VirtualPosition F))
      → lookup id (delete_net_ledger ids table)
        ≡ (if contains id ids then none else lookup id table)
  unfolding delete_net_ledger
  lookup-delete_net_ledger id ids [] = ground arith
  lookup-delete_net_ledger id ids ((k, row) ∷ table) =
      grind (arith, lookup-delete_net_ledger id ids table)

  pub find-values :
      (id : ℕ) (table : Dict (VirtualPosition F))
      → IsKeyed table
      → find id (values table) ≡ lookup id table
  find-values id [] keyed = refl
  find-values id ((k, row) ∷ table) keyed = ground (arith, keyed.0, find-values id table keyed.1.1)

  pub values-IsDistinct :
      (table : Dict (VirtualPosition F)) → IsKeyed table → IsDistinct (values table)
  values-IsDistinct [] keyed = tt
  values-IsDistinct ((k, row) ∷ table) keyed = (
    find-values row.virtual_id table keyed.1.1 ∙ (ap (λ j. lookup j table) keyed.0 ∙ keyed.1.0),
    values-IsDistinct table keyed.1.1,
  )

  upsert_row-IsKeyed :
      (v : VirtualPosition F) (table : Dict (VirtualPosition F))
      → IsKeyed table
      → IsKeyed (upsert_row v table)
  unfolding upsert_row
  upsert_row-IsKeyed v [] keyed = (refl, (refl, tt))
  upsert_row-IsKeyed v ((k, row) ∷ table) keyed = elim (Bool-cases (k == v.virtual_id)) [
    | inl e ↦ rw e keyed
    | inr e ↦ rw e (
      keyed.0,
      (
        ground (arith, e, lookup-upsert_row k v table, keyed.1.0),
        upsert_row-IsKeyed v table keyed.1.1,
      ),
    )
  ]

  pub upsert_net_ledger-IsKeyed :
      (vs : List (VirtualPosition F)) (table : Dict (VirtualPosition F))
      → IsKeyed table
      → IsKeyed (upsert_net_ledger vs table)
  unfolding upsert_net_ledger
  upsert_net_ledger-IsKeyed [] table keyed = keyed
  upsert_net_ledger-IsKeyed (v ∷ vs) table keyed =
      upsert_net_ledger-IsKeyed vs (upsert_row v table) (upsert_row-IsKeyed v table keyed)

  deleted_head :
      (ids : List ℕ) (k : ℕ) (row : VirtualPosition F) (table : Dict (VirtualPosition F))
      → contains k ids ≡ true
      → delete_net_ledger ids ((k, row) ∷ table) ≡ delete_net_ledger ids table
  unfolding delete_net_ledger
  deleted_head ids k row table e = ground (arith, e)

  left_head :
      (ids : List ℕ) (k : ℕ) (row : VirtualPosition F) (table : Dict (VirtualPosition F))
      → contains k ids ≡ false
      → delete_net_ledger ids ((k, row) ∷ table) ≡ (k, row) ∷ delete_net_ledger ids table
  unfolding delete_net_ledger
  left_head ids k row table e = ground (arith, e)

  pub delete_net_ledger-IsKeyed :
      (ids : List ℕ) (table : Dict (VirtualPosition F))
      → IsKeyed table
      → IsKeyed (delete_net_ledger ids table)
  unfolding delete_net_ledger
  delete_net_ledger-IsKeyed ids [] keyed = tt
  delete_net_ledger-IsKeyed ids ((k, row) ∷ table) keyed =
      let rest = delete_net_ledger-IsKeyed ids table keyed.1.1 in
      elim (Bool-cases (contains k ids)) [
        | inl e ↦ subst IsKeyed (sym (deleted_head ids k row table e)) rest
        | inr e ↦
            subst IsKeyed (sym (left_head ids k row table e))
              (keyed.0, (lookup-delete_net_ledger k ids table ∙ rw (e, keyed.1.0) refl, rest))
      ]
