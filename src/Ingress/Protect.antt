-- ===== src/Ingress/Protect.antt =====
-- What is found after the loop of `apply_protection`, and what its marks say.
use forex_automated_copy_tra.Base.{
  ℕ, ◌∷◌, [], List, Bool, true, false, not, ◌&&◌, Option, none, some, String, str_eq, ◌==◌, ==_iff,
  ◌≡◌, refl, sym, subst, ◌∙◌, arith, Bool-cases, inl, inr, Dict, insert, lookup-insert, contains,
}
use forex_automated_copy_tra.Ingress.Book.{VirtualPosition}
use forex_automated_copy_tra.Ingress.Stored.{
  Amended, protect_loop, with_levels, has_levels, mark_changed,
}
use forex_automated_copy_tra.Ingress.Found.{find, IsDistinct, find-fresh_head}
use forex_automated_copy_tra.Ingress.Walk.{some≢none, IsKept, found-IsKept_head}
use forex_automated_copy_tra.Ingress.Marks.{pending, not_deleted}

module _ {F : Type 0} (same : Option F → Option F → Bool) (symbol : String)
    (stop_loss take_profit : Option F) where
  abbrev is_changed : VirtualPosition F → Bool
  is_changed v = str_eq v.symbol symbol && not (has_levels same stop_loss take_profit v)

  abbrev amended : VirtualPosition F → VirtualPosition F
  amended v = with_levels same stop_loss take_profit v

  abbrev walk : List (VirtualPosition F) → Amended F
  walk vs = protect_loop same symbol stop_loss take_profit vs

  book-pass :
      (v : VirtualPosition F) (vs : List (VirtualPosition F))
      → is_changed v ≡ false
      → ((walk (v ∷ vs)).book ≡ v ∷ (walk vs).book) × ((walk (v ∷ vs)).changed ≡ (walk vs).changed)
  unfolding protect_loop
  book-pass v vs e = rw e (refl, refl)

  book-change :
      (v : VirtualPosition F) (vs : List (VirtualPosition F))
      → is_changed v ≡ true
      → ((walk (v ∷ vs)).book ≡ amended v ∷ (walk vs).book)
        × ((walk (v ∷ vs)).changed ≡ amended v ∷ (walk vs).changed)
  unfolding protect_loop
  book-change v vs e = rw e (refl, refl)

  pub protect-absent :
      (id : ℕ) (vs : List (VirtualPosition F)) → find id vs ≡ none → find id (walk vs).book ≡ none
  unfolding protect_loop
  protect-absent id [] fresh = refl
  protect-absent id (v ∷ vs) fresh =
      let head = find-fresh_head id v vs fresh in
      let rest = protect-absent id vs head.1 in
      elim (Bool-cases (is_changed v)) [
        | inl e ↦ rw ((book-change v vs e).0) (rw head.0 rest)
        | inr e ↦ rw ((book-pass v vs e).0) (rw head.0 rest)
      ]

  pub protect-IsDistinct :
      (vs : List (VirtualPosition F)) → IsDistinct vs → IsDistinct (walk vs).book
  unfolding protect_loop
  protect-IsDistinct [] distinct = tt
  protect-IsDistinct (v ∷ vs) distinct =
      let rest : IsDistinct (v ∷ (walk vs).book) =
        (protect-absent v.virtual_id vs distinct.0, protect-IsDistinct vs distinct.1) in
      elim (Bool-cases (is_changed v)) [
        | inl e ↦ subst IsDistinct (sym (book-change v vs e).0) rest
        | inr e ↦ subst IsDistinct (sym (book-pass v vs e).0) rest
      ]

  pub protect-IsKept :
      (id : ℕ) (vs : List (VirtualPosition F)) (w : VirtualPosition F)
      → find id (walk vs).book ≡ some w
      → IsKept vs id w
  unfolding protect_loop
  protect-IsKept id [] w found = absurd (some≢none (sym found))
  protect-IsKept id (v ∷ vs) w found =
      let rest = protect-IsKept id vs w in
      elim (Bool-cases (is_changed v)) [
        | inl e ↦
            found-IsKept_head id v (amended v) w vs (walk vs).book refl refl rest
              (rw ((book-change v vs e).0) at found)
        | inr e ↦
            found-IsKept_head id v v w vs (walk vs).book refl refl rest
              (rw ((book-pass v vs e).0) at found)
      ]

  module _ (id : ℕ) (deleted : List ℕ) (table : Dict (VirtualPosition F)) where
    pending-changed :
        (w : VirtualPosition F) (dirty : Dict (VirtualPosition F))
        → contains id deleted ≡ false
        → pending id (insert w.virtual_id w dirty) deleted table
          ≡ elim (id == w.virtual_id) [ true ↦ some w | false ↦ pending id dirty deleted table ]
    pending-changed w dirty known = ground (arith, known, lookup-insert w.virtual_id id w dirty)

    pub protect-other :
        (vs : List (VirtualPosition F)) (dirty : Dict (VirtualPosition F))
        → find id vs ≡ none
        → pending id (mark_changed (walk vs).changed dirty) deleted table
          ≡ pending id dirty deleted table
    unfolding protect_loop
    protect-other [] dirty fresh = refl
    protect-other (v ∷ vs) dirty fresh =
        let head = find-fresh_head id v vs fresh in
        elim (Bool-cases (is_changed v)) [
          | inl e ↦ rw ((book-change v vs e).1) (
              protect-other vs (insert v.virtual_id (amended v) dirty) head.1
              ∙ ground (arith, head.0, lookup-insert v.virtual_id id (amended v) dirty))
          | inr e ↦ rw ((book-pass v vs e).1) (protect-other vs dirty head.1)
        ]

    pub protect-agrees :
        (v : VirtualPosition F) (vs : List (VirtualPosition F)) (dirty : Dict (VirtualPosition F))
        → IsDistinct vs
        → find id vs ≡ some v
        → pending id dirty deleted table ≡ some v
        → find id (walk vs).book ≡ pending id (mark_changed (walk vs).changed dirty) deleted table
    protect-agrees v [] dirty distinct found stored = absurd (some≢none (sym found))
    protect-agrees v (u ∷ vs) dirty distinct found stored =
        let known = not_deleted id v dirty deleted table stored in
        elim (Bool-cases (id == u.virtual_id)) [
          | inl here ↦
              let fresh : find id vs ≡ none = rw ((==_iff id u.virtual_id).0 here) distinct.0 in
              elim (Bool-cases (is_changed u)) [
                | inl e ↦
                    let one = pending-changed (amended u) dirty known in
                    let changed = (book-change u vs e) in
                    let marks = protect-other vs (insert u.virtual_id (amended u) dirty) fresh in
                    rw (changed.0, changed.1) (rw here (sym (marks ∙ (one ∙ rw here refl))))
                | inr e ↦
                    let passed = (book-pass u vs e) in
                    let marks = protect-other vs dirty fresh in
                    rw (passed.0, passed.1)
                      (rw here (sym (marks ∙ (stored ∙ (sym found ∙ rw here refl)))))
              ]
          | inr there ↦
              let later : find id vs ≡ some v = rw there at found in
              elim (Bool-cases (is_changed u)) [
                | inl e ↦
                    let one = pending-changed (amended u) dirty known in
                    let changed = (book-change u vs e) in
                    rw (changed.0, changed.1)
                      (rw there (
                        protect-agrees v vs (insert u.virtual_id (amended u) dirty) distinct.1 later
                          (one ∙ rw there stored)))
                | inr e ↦
                    let passed = (book-pass u vs e) in
                    rw (passed.0, passed.1)
                      (rw there (protect-agrees v vs dirty distinct.1 later stored))
              ]
        ]
