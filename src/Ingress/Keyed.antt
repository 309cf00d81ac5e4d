-- ===== src/Ingress/Keyed.antt =====
-- The dict of changed positions, each under its id.
use forex_automated_copy_tra.Base.{
  ℕ, ◌∷◌, [], true, false, none, if◌then◌else◌, ◌==◌, ==_iff, ◌≡◌, refl, sym, subst, ◌∙◌, arith,
  Bool-cases, inl, inr, Dict, lookup, insert, lookup-insert,
}
use forex_automated_copy_tra.Ingress.Book.{VirtualPosition, pop}

module _ {F : Type 0} where
  pub lookup-pop :
      (id k : ℕ) (d : Dict (VirtualPosition F))
      → lookup id (pop k d) ≡ (if id == k then none else lookup id d)
  lookup-pop id k [] = ground arith
  lookup-pop id k ((j, w) ∷ d) = ground (arith, lookup-pop id k d)

  -- Each entry stands under its position's id, and under no second key.
  abbrev pub IsKeyed : Dict (VirtualPosition F) → Type 0
  IsKeyed [] = Unit
  IsKeyed ((k, v) ∷ d) = (v.virtual_id ≡ k) × ((lookup k d ≡ none) × IsKeyed d)

  other_key :
      (k : ℕ) (v : VirtualPosition F) (d : Dict (VirtualPosition F))
      → (v.virtual_id == k) ≡ false
      → lookup k (insert v.virtual_id v d) ≡ lookup k d
  other_key k v d apart = ground (arith, apart, lookup-insert v.virtual_id k v d)

  insert-at_head :
      (v : VirtualPosition F) (k : ℕ) (w : VirtualPosition F) (d : Dict (VirtualPosition F))
      → (v.virtual_id == k) ≡ true
      → insert v.virtual_id v ((k, w) ∷ d) ≡ (v.virtual_id, v) ∷ d
  insert-at_head v k w d e = ground (arith, e)

  insert-past_head :
      (v : VirtualPosition F) (k : ℕ) (w : VirtualPosition F) (d : Dict (VirtualPosition F))
      → (v.virtual_id == k) ≡ false
      → insert v.virtual_id v ((k, w) ∷ d) ≡ (k, w) ∷ insert v.virtual_id v d
  insert-past_head v k w d e = ground (arith, e)

  pub insert-IsKeyed :
      (v : VirtualPosition F) (d : Dict (VirtualPosition F))
      → IsKeyed d
      → IsKeyed (insert v.virtual_id v d)
  insert-IsKeyed v [] keyed = (refl, (refl, tt))
  insert-IsKeyed v ((k, w) ∷ d) keyed = elim (Bool-cases (v.virtual_id == k)) [
    | inl e ↦
        subst IsKeyed (sym (insert-at_head v k w d e))
          (refl, rw ((==_iff v.virtual_id k).0 e) keyed.1)
    | inr e ↦
        subst IsKeyed (sym (insert-past_head v k w d e))
          (keyed.0, (other_key k v d e ∙ keyed.1.0, insert-IsKeyed v d keyed.1.1))
  ]

  pop-at_head :
      (j k : ℕ) (w : VirtualPosition F) (d : Dict (VirtualPosition F))
      → (j == k) ≡ true
      → pop k ((j, w) ∷ d) ≡ pop k d
  pop-at_head j k w d e = ground (arith, e)

  pop-past_head :
      (j k : ℕ) (w : VirtualPosition F) (d : Dict (VirtualPosition F))
      → (j == k) ≡ false
      → pop k ((j, w) ∷ d) ≡ (j, w) ∷ pop k d
  pop-past_head j k w d e = ground (arith, e)

  still_free :
      (j k : ℕ) (d : Dict (VirtualPosition F))
      → (j == k) ≡ false
      → lookup j d ≡ none
      → (if j == k then none else lookup j d) ≡ none
  still_free j k d e free = rw (e, free) refl

  pub pop-IsKeyed : (k : ℕ) (d : Dict (VirtualPosition F)) → IsKeyed d → IsKeyed (pop k d)
  pop-IsKeyed k [] keyed = tt
  pop-IsKeyed k ((j, w) ∷ d) keyed = elim (Bool-cases (j == k)) [
    | inl e ↦ subst IsKeyed (sym (pop-at_head j k w d e)) (pop-IsKeyed k d keyed.1.1)
    | inr e ↦
        subst IsKeyed (sym (pop-past_head j k w d e))
          (keyed.0, (lookup-pop j k d ∙ still_free j k d e keyed.1.0, pop-IsKeyed k d keyed.1.1))
  ]
