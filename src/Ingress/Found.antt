-- ===== src/Ingress/Found.antt =====
-- Looking up the ledger's positions by id, through sorting and through the loops.
use forex_automated_copy_tra.Base.{
  ℕ, ◌∷◌, [], List, ◌++◌, false, Option, none, some, if◌then◌else◌, ◌==◌, ◌≡◌, refl, sym, subst,
  ◌∙◌, ap, arith, Bool-cases, inl, inr,
}
use forex_automated_copy_tra.Ingress.Book.{VirtualPosition, place, sort_onto, not_after}

-- `a`, or `b` if there is none
abbrev pub or_else {ℓ} : {A : Type ℓ} → Option A → Option A → Option A
or_else none b = b
or_else (some a) b = some a

module _ {F : Type 0} where
  abbrev pub find : ℕ → List (VirtualPosition F) → Option (VirtualPosition F)
  find id [] = none
  find id (v ∷ vs) = let rest = find id vs in if id == v.virtual_id then some v else rest

  -- No two positions share an id.
  abbrev pub IsDistinct : List (VirtualPosition F) → Type 0
  IsDistinct [] = Unit
  IsDistinct (v ∷ vs) = (find v.virtual_id vs ≡ none) × IsDistinct vs

  pub find-append :
      (id : ℕ) (vs ws : List (VirtualPosition F))
      → find id (vs ++ ws) ≡ or_else (find id vs) (find id ws)
  find-append id [] ws = refl
  find-append id (v ∷ vs) ws = ground (arith, find-append id vs ws)

  -- Another id than the head's is looked for behind it.
  pub find-fresh_head :
      (id : ℕ) (v : VirtualPosition F) (vs : List (VirtualPosition F))
      → find id (v ∷ vs) ≡ none
      → ((id == v.virtual_id) ≡ false) × (find id vs ≡ none)
  find-fresh_head id v vs fresh = elim (Bool-cases (id == v.virtual_id)) [
    | inl e ↦ ground (arith, e, fresh)
    | inr e ↦ (e, rw e at fresh)
  ]

  find-other_head :
      (id : ℕ) (v : VirtualPosition F) (vs : List (VirtualPosition F))
      → (v.virtual_id == id) ≡ false
      → find id (v ∷ vs) ≡ find id vs
  find-other_head id v vs apart = ground (arith, apart)

  find-place :
      (id : ℕ) (v : VirtualPosition F) (ws : List (VirtualPosition F))
      → find v.virtual_id ws ≡ none
      → find id (place v ws) ≡ find id (v ∷ ws)
  unfolding place
  find-place id v [] fresh = refl
  find-place id v (w ∷ ws) fresh =
      let head = find-fresh_head v.virtual_id w ws fresh in
      elim (Bool-cases (not_after w v)) [
        | inl e ↦ rw e (ground (arith, head.0, find-place id v ws head.1))
        | inr e ↦ rw e refl
      ]

  place-IsDistinct :
      (v : VirtualPosition F) (ws : List (VirtualPosition F))
      → find v.virtual_id ws ≡ none
      → IsDistinct ws
      → IsDistinct (place v ws)
  unfolding place
  place-IsDistinct v [] fresh distinct = (refl, tt)
  place-IsDistinct v (w ∷ ws) fresh distinct =
      let head = find-fresh_head v.virtual_id w ws fresh in
      elim (Bool-cases (not_after w v)) [
        | inl e ↦ rw e (
          find-place w.virtual_id v ws head.1
              ∙ (find-other_head w.virtual_id v ws head.0 ∙ distinct.0),
          place-IsDistinct v ws head.1 distinct.1,
        )
        | inr e ↦ rw e (fresh, distinct)
      ]

  find-append_fresh :
      (id : ℕ) (vs ws : List (VirtualPosition F))
      → find id (vs ++ ws) ≡ none
      → (find id vs ≡ none) × (find id ws ≡ none)
  find-append_fresh id [] ws fresh = (refl, fresh)
  find-append_fresh id (v ∷ vs) ws fresh =
      let head = find-fresh_head id v (vs ++ ws) fresh in
      let rest = find-append_fresh id vs ws head.1 in (rw (head.0, rest.0) refl, rest.1)

  -- A position put in at its place is found as if it stood in front.
  find-append_place :
      (id : ℕ) (v : VirtualPosition F) (vs sorted : List (VirtualPosition F))
      → find v.virtual_id (vs ++ sorted) ≡ none
      → find id (vs ++ place v sorted) ≡ find id (v ∷ (vs ++ sorted))
  find-append_place id v vs sorted fresh =
      let parts = find-append_fresh v.virtual_id vs sorted fresh in
      ground (
        arith,
        parts.0,
        find-append id vs sorted,
        find-append id vs (place v sorted),
        find-place id v sorted parts.1,
      )

  append_place-IsDistinct :
      (v : VirtualPosition F) (vs sorted : List (VirtualPosition F))
      → find v.virtual_id (vs ++ sorted) ≡ none
      → IsDistinct (vs ++ sorted)
      → IsDistinct (vs ++ place v sorted)
  append_place-IsDistinct v [] sorted fresh distinct = place-IsDistinct v sorted fresh distinct
  append_place-IsDistinct v (u ∷ vs) sorted fresh distinct =
      let head = find-fresh_head v.virtual_id u (vs ++ sorted) fresh in
      (
        find-append_place u.virtual_id v vs sorted head.1
            ∙ (find-other_head u.virtual_id v (vs ++ sorted) head.0 ∙ distinct.0),
        append_place-IsDistinct v vs sorted head.1 distinct.1,
      )

  -- Sorting keeps what is found, and the ids distinct.
  find-sort_onto :
      (id : ℕ) (sorted vs : List (VirtualPosition F))
      → IsDistinct (vs ++ sorted)
      → find id (sort_onto sorted vs) ≡ find id (vs ++ sorted)
  unfolding sort_onto
  find-sort_onto id sorted [] distinct = refl
  find-sort_onto id sorted (v ∷ vs) distinct =
      find-sort_onto id (place v sorted) vs
        (append_place-IsDistinct v vs sorted distinct.0 distinct.1)
      ∙ find-append_place id v vs sorted distinct.0

  sort_onto-IsDistinct :
      (sorted vs : List (VirtualPosition F))
      → IsDistinct (vs ++ sorted)
      → IsDistinct (sort_onto sorted vs)
  unfolding sort_onto
  sort_onto-IsDistinct sorted [] distinct = distinct
  sort_onto-IsDistinct sorted (v ∷ vs) distinct =
      sort_onto-IsDistinct (place v sorted) vs
        (append_place-IsDistinct v vs sorted distinct.0 distinct.1)

  append_nil : (vs : List (VirtualPosition F)) → vs ++ [] ≡ vs
  append_nil [] = refl
  append_nil (v ∷ vs) = ap (λ t. v ∷ t) (append_nil vs)

  pub find-sorted :
      (id : ℕ) (vs : List (VirtualPosition F))
      → IsDistinct vs
      → find id (sort_onto [] vs) ≡ find id vs
  find-sorted id vs distinct =
      find-sort_onto id [] vs (subst IsDistinct (sym (append_nil vs)) distinct)
      ∙ ap (find id) (append_nil vs)

  pub sorted-IsDistinct :
      (vs : List (VirtualPosition F)) → IsDistinct vs → IsDistinct (sort_onto [] vs)
  sorted-IsDistinct vs distinct =
      sort_onto-IsDistinct [] vs (subst IsDistinct (sym (append_nil vs)) distinct)

  -- A fresh position at the end
  pub append_one-IsDistinct :
      (v : VirtualPosition F) (vs : List (VirtualPosition F))
      → find v.virtual_id vs ≡ none
      → IsDistinct vs
      → IsDistinct (vs ++ v ∷ [])
  append_one-IsDistinct v [] fresh distinct = (refl, tt)
  append_one-IsDistinct v (u ∷ vs) fresh distinct =
      let head = find-fresh_head v.virtual_id u vs fresh in
      (
        ground (arith, head.0, distinct.0, find-append u.virtual_id vs (v ∷ [])),
        append_one-IsDistinct v vs head.1 distinct.1,
      )
