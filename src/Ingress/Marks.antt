-- ===== src/Ingress/Marks.antt =====
-- What the marks for the database say of each id, through the ledger's loops.
use forex_automated_copy_tra.Base.{
  ℕ, ◌-◌, ◌∷◌, [], List, ◌++◌, true, false, ◌||◌, Option, none, some, String, if◌then◌else◌, leb,
  ◌==◌, ==_iff, ◌≡◌, refl, sym, ◌∙◌, arith, Bool-cases, inl, inr, Dict, lookup, insert,
  lookup-insert, contains, contains-append,
}
use forex_automated_copy_tra.Ingress.Book.{
  VirtualPosition, consume_loop, taken, cut, pop, mark_dirty, mark_deleted,
}
use forex_automated_copy_tra.Ingress.Walk.{
  cuts-pass, cuts-take, left-pass, left-emptied, left-kept, consume-absent, some≢none,
}
use forex_automated_copy_tra.Ingress.Keyed.{lookup-pop}
use forex_automated_copy_tra.Ingress.Found.{find, IsDistinct, or_else, find-fresh_head}

module _ {F : Type 0} where
  -- What is stored of an id once the marks are written.
  abbrev pub pending :
      ℕ → Dict (VirtualPosition F) → List ℕ → Dict (VirtualPosition F) → Option (VirtualPosition F)
  pending id dirty deleted table =
      if contains id deleted then none else or_else (lookup id dirty) (lookup id table)

  -- The marks of one cut.
  abbrev pub dirty_with : VirtualPosition F → Dict (VirtualPosition F) → Dict (VirtualPosition F)
  dirty_with w dirty =
      if leb w.volume_left 0 then pop w.virtual_id dirty else insert w.virtual_id w dirty

  abbrev deleted_with : VirtualPosition F → List ℕ → List ℕ
  deleted_with w deleted = if leb w.volume_left 0 then deleted ++ w.virtual_id ∷ [] else deleted

  pending-cut :
      (id : ℕ) (w : VirtualPosition F) (dirty : Dict (VirtualPosition F)) (deleted : List ℕ)
      (table : Dict (VirtualPosition F))
      → pending id (dirty_with w dirty) (deleted_with w deleted) table ≡ (
          if id == w.virtual_id
          then (if leb w.volume_left 0 || contains id deleted then none else some w)
          else pending id dirty deleted table)
  pending-cut id w dirty deleted table = elim (Bool-cases (leb w.volume_left 0)) [
    | inl e ↦ rw e (
        ground
          (arith, lookup-pop id w.virtual_id dirty, contains-append id deleted (w.virtual_id ∷ [])))
    | inr e ↦ rw e (ground (arith, lookup-insert w.virtual_id id w dirty))
  ]

  -- The marks of the loop leave alone an id that it does not meet.
  pub pending-consume_other :
      (id : ℕ) (symbol : String) (n : ℕ) (vs : List (VirtualPosition F))
      (dirty : Dict (VirtualPosition F)) (deleted : List ℕ) (table : Dict (VirtualPosition F))
      → find id vs ≡ none
      → pending id
          (mark_dirty (consume_loop symbol n vs).cuts dirty)
          (mark_deleted (consume_loop symbol n vs).cuts deleted)
          table
        ≡ pending id dirty deleted table
  unfolding consume_loop
  pending-consume_other id symbol n [] dirty deleted table absent = refl
  pending-consume_other id symbol n (v ∷ vs) dirty deleted table absent =
      let take = taken symbol n v in
      let head = find-fresh_head id v vs absent in
      let rest : (dirt : Dict (VirtualPosition F)) (gone : List ℕ)
          → pending id (mark_dirty (consume_loop symbol (n - take) vs).cuts dirt)
              (mark_deleted (consume_loop symbol (n - take) vs).cuts gone) table
            ≡ pending id dirt gone table =
        λ dirt gone. pending-consume_other id symbol (n - take) vs dirt gone table head.1 in
      let walk = consume_loop symbol (n - take) vs in
      let w = cut take v in
      elim (Bool-cases (leb take 0)) [
        | inl e ↦ rw (cuts-pass take v walk e) (rest dirty deleted)
        | inr e ↦ rw (cuts-take take v walk e) (
            rest (dirty_with w dirty) (deleted_with w deleted)
            ∙ (pending-cut id w dirty deleted table ∙ rw head.0 refl))
      ]

  pub not_deleted :
      (id : ℕ) (v : VirtualPosition F) (dirty : Dict (VirtualPosition F)) (deleted : List ℕ)
      (table : Dict (VirtualPosition F))
      → pending id dirty deleted table ≡ some v
      → contains id deleted ≡ false
  not_deleted id v dirty deleted table stored = elim (Bool-cases (contains id deleted)) [
    | inl e ↦ absurd (some≢none (sym (rw e at stored)))
    | inr e ↦ e
  ]

  module _ (id : ℕ) (symbol : String) (table : Dict (VirtualPosition F)) where
    -- The loop's outcome for the id, and what its marks say.
    abbrev Agrees : ℕ → List (VirtualPosition F) → Dict (VirtualPosition F) → List ℕ → Type 0
    Agrees n vs dirty deleted =
        find id (consume_loop symbol n vs).left
        ≡ pending id (mark_dirty (consume_loop symbol n vs).cuts dirty)
            (mark_deleted (consume_loop symbol n vs).cuts deleted) table

    Agrees-here :
        (n : ℕ) (u : VirtualPosition F) (vs : List (VirtualPosition F))
        (dirty : Dict (VirtualPosition F)) (deleted : List ℕ)
        → (id == u.virtual_id) ≡ true
        → find id vs ≡ none
        → pending id dirty deleted table ≡ some u
        → Agrees n (u ∷ vs) dirty deleted
    unfolding consume_loop
    Agrees-here n u vs dirty deleted here fresh stored =
        let take = taken symbol n u in
        let walk = consume_loop symbol (n - take) vs in
        let w = cut take u in
        let kept_out = consume-absent id symbol (n - take) vs fresh in
        let known = not_deleted id u dirty deleted table stored in
        elim (Bool-cases (leb take 0)) [
          | inl e ↦
              rw (left-pass take u walk e, cuts-pass take u walk e)
                (rw here (
                  sym stored
                  ∙ sym (pending-consume_other id symbol (n - take) vs dirty deleted table fresh)))
          | inr e ↦
              let marks =
                pending-consume_other id symbol (n - take) vs (dirty_with w dirty)
                  (deleted_with w deleted) table fresh in
              let one = pending-cut id w dirty deleted table in
              elim (Bool-cases (leb (u.volume_left - take) 0)) [
                | inl emptied ↦
                    rw (left-emptied take u walk e emptied, cuts-take take u walk e)
                      (kept_out ∙ sym (marks ∙ (one ∙ rw (here, emptied) refl)))
                | inr kept ↦
                    rw (left-kept take u walk e kept, cuts-take take u walk e)
                      (rw here (sym (marks ∙ (one ∙ rw (here, kept, known) refl))))
              ]
        ]

    Agrees-there :
        (n : ℕ) (u : VirtualPosition F) (vs : List (VirtualPosition F))
        (dirty : Dict (VirtualPosition F)) (deleted : List ℕ)
        → (id == u.virtual_id) ≡ false
        → ((dirt : Dict (VirtualPosition F)) (gone : List ℕ)
            → pending id dirt gone table ≡ pending id dirty deleted table
            → Agrees (n - taken symbol n u) vs dirt gone)
        → Agrees n (u ∷ vs) dirty deleted
    unfolding consume_loop
    Agrees-there n u vs dirty deleted there rest =
        let take = taken symbol n u in
        let walk = consume_loop symbol (n - take) vs in
        let w = cut take u in
        elim (Bool-cases (leb take 0)) [
          | inl e ↦
              rw (left-pass take u walk e, cuts-pass take u walk e)
                (rw there (rest dirty deleted refl))
          | inr e ↦
              let cut_rest =
                rest (dirty_with w dirty) (deleted_with w deleted)
                  (pending-cut id w dirty deleted table ∙ rw there refl) in
              elim (Bool-cases (leb (u.volume_left - take) 0)) [
                | inl emptied ↦
                    rw (left-emptied take u walk e emptied, cuts-take take u walk e) cut_rest
                | inr kept ↦
                    rw (left-kept take u walk e kept, cuts-take take u walk e) (rw there cut_rest)
              ]
        ]

    -- The loop and its marks agree on the positions that were there.
    pub consume-Agrees :
        (n : ℕ) (v : VirtualPosition F) (vs : List (VirtualPosition F))
        (dirty : Dict (VirtualPosition F)) (deleted : List ℕ)
        → IsDistinct vs
        → find id vs ≡ some v
        → pending id dirty deleted table ≡ some v
        → Agrees n vs dirty deleted
    consume-Agrees n v [] dirty deleted distinct found stored = absurd (some≢none (sym found))
    consume-Agrees n v (u ∷ vs) dirty deleted distinct found stored =
        elim (Bool-cases (id == u.virtual_id)) [
          | inl here ↦
              Agrees-here n u vs dirty deleted here
                (rw ((==_iff id u.virtual_id).0 here) distinct.0)
                (stored ∙ (sym found ∙ rw here refl))
          | inr there ↦ Agrees-there n u vs dirty deleted there (λ dirt gone same.
              consume-Agrees (n - taken symbol n u) v vs dirt gone distinct.1 (rw there at found)
                (same ∙ stored))
        ]
