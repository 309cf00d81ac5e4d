-- ===== src/Ingress/Restart.antt =====
-- A restart: the ledger rebuilt from the rows that were saved.
use forex_automated_copy_tra.Base.{
  ℕ, ◌∷◌, [], List, Bool, Option, none, some, String, ◌≡◌, refl, sym, ◌∙◌, ap, Bool-cases,
  Option-cases, inl, inr, Dict, insert, lookup, contains, leb,
}
use forex_automated_copy_tra.Ingress.Book.{
  VirtualPosition, NetLedger, consume, consume_loop, mark_dirty,
}
use forex_automated_copy_tra.Ingress.Stored.{
  refresh, values, protect_loop, apply_protection, mark_changed, persist_net_ledger,
  upsert_net_ledger,
}
use forex_automated_copy_tra.Ingress.Found.{find, IsDistinct, or_else}
use forex_automated_copy_tra.Ingress.Walk.{
  IsKept, consume-absent, consume-IsKept, consume-IsDistinct,
}
use forex_automated_copy_tra.Ingress.Keyed.{IsKeyed, insert-IsKeyed, pop-IsKeyed}
use forex_automated_copy_tra.Ingress.Marks.{
  dirty_with, pending, pending-consume_other, consume-Agrees,
}
use forex_automated_copy_tra.Ingress.Protect.{
  protect-absent, protect-IsDistinct, protect-IsKept, protect-other, protect-agrees,
}
use forex_automated_copy_tra.Ingress.Rows.{
  upserted, lookup-upsert_net_ledger, lookup-delete_net_ledger,
}

-- The ledger, its marks and the table belong together: writing the marks gives the ledger's positions.
pub record IsSynced {F : Type 0} (table : Dict (VirtualPosition F)) (l : NetLedger F) : Type 0 where
  pub rows_keyed : IsKeyed table
  pub dirty_keyed : IsKeyed l.dirty
  pub distinct : IsDistinct l.positions
  pub stored : (id : ℕ) → find id l.positions ≡ pending id l.dirty l.deleted table
  pub fixed :
      (id : ℕ) (v row : VirtualPosition F)
      → find id l.positions ≡ some v
      → lookup id table ≡ some row
      → refresh v row ≡ v

module _ {F : Type 0} where
  -- What an upsert leaves of a row does not change when a position is kept but for its volume and levels.
  kept-fixed :
      (table : Dict (VirtualPosition F)) (vs : List (VirtualPosition F)) (id : ℕ)
      (w row : VirtualPosition F)
      → ((v : VirtualPosition F)
          → find id vs ≡ some v
          → lookup id table ≡ some row
          → refresh v row ≡ v)
      → IsKept vs id w
      → lookup id table ≡ some row
      → refresh w row ≡ w
  kept-fixed table vs id w row fixed kept there =
      ap (refresh w) (fixed kept.0 kept.1.0 there) ∙ kept.1.1

  -- The rows after an upsert are the positions.
  upserted-positions :
      (d t p : Option (VirtualPosition F))
      → p ≡ or_else d t
      → ((v row : VirtualPosition F) → p ≡ some v → t ≡ some row → refresh v row ≡ v)
      → upserted d t ≡ p
  upserted-positions none t p e fixed = sym e
  upserted-positions (some v) none p e fixed = sym e
  upserted-positions (some v) (some row) p e fixed = ap some (fixed v row e refl) ∙ sym e

  pub persist-stored :
      (table : Dict (VirtualPosition F)) (l : NetLedger F)
      → IsSynced table l
      → (id : ℕ) → lookup id (persist_net_ledger table l).0 ≡ find id l.positions
  unfolding persist_net_ledger
  persist-stored table l synced id =
      lookup-delete_net_ledger id l.deleted (upsert_net_ledger (values l.dirty) table)
      ∙ elim (Bool-cases (contains id l.deleted)) [
        | inl e ↦ rw e (sym (rw e at (synced.stored id)))
        | inr e ↦ rw e (
            lookup-upsert_net_ledger id l.dirty table synced.dirty_keyed
            ∙ upserted-positions (lookup id l.dirty) (lookup id table) (find id l.positions)
                (rw e at (synced.stored id)) (synced.fixed id))
      ]

  mark_dirty-IsKeyed :
      (cuts : List (VirtualPosition F × ℕ)) (dirty : Dict (VirtualPosition F))
      → IsKeyed dirty
      → IsKeyed (mark_dirty cuts dirty)
  mark_dirty-IsKeyed [] dirty keyed = keyed
  mark_dirty-IsKeyed ((v, take) ∷ cuts) dirty keyed = elim (Bool-cases (leb v.volume_left 0)) [
    | inl e ↦
        mark_dirty-IsKeyed cuts (dirty_with v dirty)
          (rw (dirty_with, e) (pop-IsKeyed v.virtual_id dirty keyed))
    | inr e ↦
        mark_dirty-IsKeyed cuts (dirty_with v dirty)
          (rw (dirty_with, e) (insert-IsKeyed v dirty keyed))
  ]

  mark_changed-IsKeyed :
      (vs : List (VirtualPosition F)) (dirty : Dict (VirtualPosition F))
      → IsKeyed dirty
      → IsKeyed (mark_changed vs dirty)
  mark_changed-IsKeyed [] dirty keyed = keyed
  mark_changed-IsKeyed (v ∷ vs) dirty keyed =
      mark_changed-IsKeyed vs (insert v.virtual_id v dirty) (insert-IsKeyed v dirty keyed)

  pub consume-IsSynced :
      (table : Dict (VirtualPosition F)) (l : NetLedger F) (symbol canonical : String) (n : ℕ)
      → IsSynced table l
      → IsSynced table (consume symbol canonical n l).1
  unfolding consume
  consume-IsSynced table l symbol canonical n synced = record {
    rows_keyed = synced.rows_keyed;
    dirty_keyed =
        mark_dirty-IsKeyed (consume_loop symbol n l.positions).cuts l.dirty synced.dirty_keyed;
    distinct = consume-IsDistinct symbol n l.positions synced.distinct;
    stored = λ id. elim (Option-cases (find id l.positions)) [
      | inl absent ↦
          consume-absent id symbol n l.positions absent
          ∙ sym (
              pending-consume_other id symbol n l.positions l.dirty l.deleted table absent
              ∙ (sym (synced.stored id) ∙ absent))
      | inr (v, found) ↦
          consume-Agrees id symbol table n v l.positions l.dirty l.deleted synced.distinct found
            (sym (synced.stored id) ∙ found)
    ];
    fixed = λ id w row found.
        kept-fixed table l.positions id w row (λ v. synced.fixed id v row)
          (consume-IsKept id symbol n l.positions w synced.distinct found);
  }

  pub protection-IsSynced :
      (same : Option F → Option F → Bool) (table : Dict (VirtualPosition F)) (l : NetLedger F)
      (symbol : String) (stop_loss take_profit : Option F)
      → IsSynced table l
      → IsSynced table (apply_protection same symbol stop_loss take_profit l).1
  unfolding apply_protection
  protection-IsSynced same table l symbol stop_loss take_profit synced = record {
    rows_keyed = synced.rows_keyed;
    dirty_keyed =
        mark_changed-IsKeyed (protect_loop same symbol stop_loss take_profit l.positions).changed
          l.dirty synced.dirty_keyed;
    distinct = protect-IsDistinct same symbol stop_loss take_profit l.positions synced.distinct;
    stored = λ id. elim (Option-cases (find id l.positions)) [
      | inl absent ↦
          protect-absent same symbol stop_loss take_profit id l.positions absent
          ∙ sym (
              protect-other same symbol stop_loss take_profit id l.deleted table l.positions l.dirty
                absent
              ∙ (sym (synced.stored id) ∙ absent))
      | inr (v, found) ↦
          protect-agrees same symbol stop_loss take_profit id l.deleted table v l.positions l.dirty
            synced.distinct found (sym (synced.stored id) ∙ found)
    ];
    fixed = λ id w row found.
        kept-fixed table l.positions id w row (λ v. synced.fixed id v row)
          (protect-IsKept same symbol stop_loss take_profit id l.positions w found);
  }
