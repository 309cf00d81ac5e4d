-- ===== src/Ingress/Walk.antt =====
-- The branches of `_consume` for one position, and what is found after its loop.
use mathlib.Core.Option.{some-injective}
use forex_automated_copy_tra.Base.{
  ℕ, ◌-◌, ◌∷◌, [], List, true, false, none, some, String, leb, ◌==◌, ==_iff, ap, ◌≡◌, refl, sym,
  subst, ◌∙◌, Bool-cases, inl, inr,
}
use forex_automated_copy_tra.Ingress.Book.{
  VirtualPosition, Consumed, consume_one, consume_loop, cut, taken,
}
use forex_automated_copy_tra.Ingress.Stored.{refresh}
use forex_automated_copy_tra.Ingress.Found.{find, IsDistinct, find-fresh_head}

pub some≢none : {A : Type 0} {a : A} → some a ≡ none → ⊥
some≢none e = cc e

module _ {F : Type 0} where
  pub cuts-pass :
      (take : ℕ) (v : VirtualPosition F) (rest : Consumed F)
      → leb take 0 ≡ true
      → (consume_one take v rest).cuts ≡ rest.cuts
  cuts-pass take v rest e = rw e refl

  pub cuts-take :
      (take : ℕ) (v : VirtualPosition F) (rest : Consumed F)
      → leb take 0 ≡ false
      → (consume_one take v rest).cuts ≡ (cut take v, take) ∷ rest.cuts
  cuts-take take v rest e = elim (Bool-cases (leb (v.volume_left - take) 0)) [
    | inl emptied ↦ rw (e, emptied) refl
    | inr kept ↦ rw (e, kept) refl
  ]

  pub left-pass :
      (take : ℕ) (v : VirtualPosition F) (rest : Consumed F)
      → leb take 0 ≡ true
      → (consume_one take v rest).left ≡ v ∷ rest.left
  left-pass take v rest e = rw e refl

  pub left-emptied :
      (take : ℕ) (v : VirtualPosition F) (rest : Consumed F)
      → leb take 0 ≡ false
      → leb (v.volume_left - take) 0 ≡ true
      → (consume_one take v rest).left ≡ rest.left
  left-emptied take v rest e emptied = rw (e, emptied) refl

  pub left-kept :
      (take : ℕ) (v : VirtualPosition F) (rest : Consumed F)
      → leb take 0 ≡ false
      → leb (v.volume_left - take) 0 ≡ false
      → (consume_one take v rest).left ≡ cut take v ∷ rest.left
  left-kept take v rest e kept = rw (e, kept) refl

  -- What is not there before the loop is not there after it.
  pub consume-absent :
      (id : ℕ) (symbol : String) (n : ℕ) (vs : List (VirtualPosition F))
      → find id vs ≡ none
      → find id (consume_loop symbol n vs).left ≡ none
  unfolding consume_loop
  consume-absent id symbol n [] fresh = refl
  consume-absent id symbol n (v ∷ vs) fresh =
      let take = taken symbol n v in
      let walk = consume_loop symbol (n - take) vs in
      let head = find-fresh_head id v vs fresh in
      let rest = consume-absent id symbol (n - take) vs head.1 in
      elim (Bool-cases (leb take 0)) [
        | inl e ↦ rw (left-pass take v walk e) (rw head.0 rest)
        | inr e ↦ elim (Bool-cases (leb (v.volume_left - take) 0)) [
          | inl emptied ↦ rw (left-emptied take v walk e emptied) rest
          | inr kept ↦ rw (left-kept take v walk e kept) (rw head.0 rest)
        ]
      ]

  pub consume-IsDistinct :
      (symbol : String) (n : ℕ) (vs : List (VirtualPosition F))
      → IsDistinct vs
      → IsDistinct (consume_loop symbol n vs).left
  unfolding consume_loop
  consume-IsDistinct symbol n [] distinct = tt
  consume-IsDistinct symbol n (v ∷ vs) distinct =
      let take = taken symbol n v in
      let walk = consume_loop symbol (n - take) vs in
      let fresh = consume-absent v.virtual_id symbol (n - take) vs distinct.0 in
      let rest = consume-IsDistinct symbol (n - take) vs distinct.1 in
      elim (Bool-cases (leb take 0)) [
        | inl e ↦ subst IsDistinct (sym (left-pass take v walk e)) (fresh, rest)
        | inr e ↦ elim (Bool-cases (leb (v.volume_left - take) 0)) [
          | inl emptied ↦ subst IsDistinct (sym (left-emptied take v walk e emptied)) rest
          | inr kept ↦ subst IsDistinct (sym (left-kept take v walk e kept)) (fresh, rest)
        ]
      ]

  -- A position after an operation is one from before it, but for what an upsert takes over.
  abbrev pub IsKept : List (VirtualPosition F) → ℕ → VirtualPosition F → Type 0
  IsKept vs id w = (v : VirtualPosition F) × ((find id vs ≡ some v) × (refresh w v ≡ w))

  -- A head that is kept, in front of what the rest gives.
  pub found-IsKept_head :
      (id : ℕ) (v w u : VirtualPosition F) (vs ws : List (VirtualPosition F))
      → w.virtual_id ≡ v.virtual_id
      → refresh w v ≡ w
      → (find id ws ≡ some u → IsKept vs id u)
      → find id (w ∷ ws) ≡ some u
      → IsKept (v ∷ vs) id u
  found-IsKept_head id v w u vs ws same_id same rest found =
      elim (Bool-cases (id == w.virtual_id)) [
        | inl e ↦
            let here : some w ≡ some u = rw e at found in
            (
              v,
              (
                rw (sym same_id) (rw e refl),
                subst (λ x. refresh x v ≡ x) (some-injective _ _ here) same,
              ),
            )
        | inr e ↦
            let older = rest (rw e at found) in
            (older.0, (rw (sym same_id) (rw e older.1.0), older.1.1))
      ]

  -- The rest's outcome, behind a head that has another id or is gone.
  found-past_head :
      (id : ℕ) (v u : VirtualPosition F) (vs ws : List (VirtualPosition F))
      → find v.virtual_id ws ≡ none
      → (find id ws ≡ some u → IsKept vs id u)
      → find id ws ≡ some u
      → IsKept (v ∷ vs) id u
  found-past_head id v u vs ws gone rest found = elim (Bool-cases (id == v.virtual_id)) [
    | inl e ↦
        absurd (some≢none (sym found ∙ (ap (λ k. find k ws) ((==_iff id v.virtual_id).0 e) ∙ gone)))
    | inr e ↦ let older = rest found in (older.0, (rw e older.1.0, older.1.1))
  ]

  pub consume-IsKept :
      (id : ℕ) (symbol : String) (n : ℕ) (vs : List (VirtualPosition F)) (w : VirtualPosition F)
      → IsDistinct vs
      → find id (consume_loop symbol n vs).left ≡ some w
      → IsKept vs id w
  unfolding consume_loop
  consume-IsKept id symbol n [] w distinct found = absurd (some≢none (sym found))
  consume-IsKept id symbol n (v ∷ vs) w distinct found =
      let take = taken symbol n v in
      let walk = consume_loop symbol (n - take) vs in
      let rest = consume-IsKept id symbol (n - take) vs w distinct.1 in
      elim (Bool-cases (leb take 0)) [
        | inl e ↦
            found-IsKept_head id v v w vs walk.left refl refl rest
              (rw (left-pass take v walk e) at found)
        | inr e ↦ elim (Bool-cases (leb (v.volume_left - take) 0)) [
          | inl emptied ↦
              found-past_head id v w vs walk.left
                (consume-absent v.virtual_id symbol (n - take) vs distinct.0) rest
                (rw (left-emptied take v walk e emptied) at found)
          | inr kept ↦
              found-IsKept_head id v (cut take v) w vs walk.left refl refl rest
                (rw (left-kept take v walk e kept) at found)
        ]
      ]
