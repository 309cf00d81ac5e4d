-- ===== src/Ingress/Opens.antt =====
-- The marks stay true over a deal.
use forex_automated_copy_tra.Base.{
  ℕ, ◌-◌, ◌∷◌, [], List, ◌++◌, false, not, ◌&&◌, Option, none, String, ◌==◌, ==_iff, ◌≡◌, sym, ◌∙◌,
  ap, arith, Bool-cases, Option-cases, inl, inr, Dict, insert, lookup, lookup-insert, contains,
  keep, ltb, leb,
}
use forex_automated_copy_tra.Models.{Side}
use forex_automated_copy_tra.Ingress.Book.{
  VirtualPosition, NetLedger, ReportDeal, open_position, opened_by, consume, apply_trade,
  apply_deal, held, trade_side, Entry, entry_in, entry_out, entry_out_by, entry_inout, entry_none,
}
use forex_automated_copy_tra.Ingress.Found.{
  find, find-append, find-sorted, sorted-IsDistinct, append_one-IsDistinct,
}
use forex_automated_copy_tra.Ingress.Walk.{some≢none, consume-absent}
use forex_automated_copy_tra.Ingress.Keyed.{insert-IsKeyed}
use forex_automated_copy_tra.Ingress.Marks.{pending}
use forex_automated_copy_tra.Ingress.Nets.{apply_deal-pass, apply_deal-trade}
use forex_automated_copy_tra.Ingress.Restart.{IsSynced, consume-IsSynced}

contains-keep :
    (id k : ℕ) (ids : List ℕ)
    → contains id (keep (λ d. not (d == k)) ids) ≡ (not (id == k) && contains id ids)
contains-keep id k [] = ground arith
contains-keep id k (d ∷ ids) = ground (arith, contains-keep id k ids)

module _ {F : Type 0} where
  -- No position of the ledger and no row has the id.
  abbrev pub IsFresh : ℕ → Dict (VirtualPosition F) → NetLedger F → Type 0
  IsFresh id table l = (find id l.positions ≡ none) × (lookup id table ≡ none)

  open-stored :
      (table : Dict (VirtualPosition F)) (l : NetLedger F) (v : VirtualPosition F) (id : ℕ)
      → find v.virtual_id l.positions ≡ none
      → find id l.positions ≡ pending id l.dirty l.deleted table
      → find id (l.positions ++ v ∷ [])
        ≡ pending id
            (insert v.virtual_id v l.dirty)
            (keep (λ d. not (d == v.virtual_id)) l.deleted)
            table
  open-stored table l v id fresh stored = grind (
    arith,
    find-append id l.positions (v ∷ []),
    lookup-insert v.virtual_id id v l.dirty,
    contains-keep id v.virtual_id l.deleted,
  )

  find-older :
      (id : ℕ) (v : VirtualPosition F) (vs : List (VirtualPosition F))
      → (id == v.virtual_id) ≡ false
      → find id (vs ++ v ∷ []) ≡ find id vs
  find-older id v vs e = ground (arith, e, find-append id vs (v ∷ []))

  open-IsSynced :
      (table : Dict (VirtualPosition F)) (l : NetLedger F) (v : VirtualPosition F)
      → IsFresh v.virtual_id table l
      → IsSynced table l
      → IsSynced table (open_position v l)
  unfolding open_position
  open-IsSynced table l v fresh synced =
      let apart = append_one-IsDistinct v l.positions fresh.0 synced.distinct in
      record {
        rows_keyed = synced.rows_keyed;
        dirty_keyed = insert-IsKeyed v l.dirty synced.dirty_keyed;
        distinct = sorted-IsDistinct (l.positions ++ v ∷ []) apart;
        stored = λ id.
            find-sorted id (l.positions ++ v ∷ []) apart
            ∙ open-stored table l v id fresh.0 (synced.stored id);
        fixed = λ id w row found there. elim (Bool-cases (id == v.virtual_id)) [
          | inl e ↦ absurd (
              some≢none
                (sym there ∙ (ap (λ k. lookup k table) ((==_iff id v.virtual_id).0 e) ∙ fresh.1)))
          | inr e ↦
              synced.fixed id w row
                (sym (find-older id v l.positions e)
                  ∙ (sym (find-sorted id (l.positions ++ v ∷ []) apart) ∙ found))
                there
        ];
      }

  consume-fresh :
      (d : ReportDeal F) (canonical : String) (n : ℕ) (l : NetLedger F)
      → find d.ticket l.positions ≡ none
      → find d.ticket (consume d.symbol canonical n l).1.positions ≡ none
  unfolding consume
  consume-fresh d canonical n l absent = consume-absent d.ticket d.symbol n l.positions absent

  apply_entry-IsSynced :
      (table : Dict (VirtualPosition F)) (d : ReportDeal F) (canonical : String) (side : Side)
      (stop_loss take_profit : Option F) (e : Entry) (l : NetLedger F)
      → IsFresh d.ticket table l
      → IsSynced table l
      → IsSynced table
          (apply_trade (record d { entry = e }) canonical side stop_loss take_profit l).1
  unfolding apply_trade
  apply_entry-IsSynced table d canonical side stop_loss take_profit entry_in l fresh synced =
      open-IsSynced table l (opened_by d side d.volume stop_loss take_profit) fresh synced
  apply_entry-IsSynced table d canonical side stop_loss take_profit entry_out l fresh synced =
      consume-IsSynced table l d.symbol canonical d.volume synced
  apply_entry-IsSynced table d canonical side stop_loss take_profit entry_out_by l fresh synced =
      consume-IsSynced table l d.symbol canonical d.volume synced
  apply_entry-IsSynced table d canonical side stop_loss take_profit entry_inout l fresh synced =
      let n = held d.symbol l.positions in
      let closed = consume-IsSynced table l d.symbol canonical n synced in
      elim (Bool-cases (ltb 0 (d.volume - n))) [
        | inl more ↦ rw more (
            open-IsSynced table (consume d.symbol canonical n l).1
              (opened_by d side (d.volume - n) stop_loss take_profit)
              (consume-fresh d canonical n l fresh.0, fresh.1) closed)
        | inr exact ↦ rw exact closed
      ]
  apply_entry-IsSynced table d canonical side stop_loss take_profit entry_none l fresh synced =
      synced

  pub apply_deal-IsSynced :
      (table : Dict (VirtualPosition F)) (d : ReportDeal F) (canonical : String)
      (stop_loss take_profit : Option F) (l : NetLedger F)
      → IsFresh d.ticket table l
      → IsSynced table l
      → IsSynced table (apply_deal d canonical stop_loss take_profit l).1
  apply_deal-IsSynced table d canonical stop_loss take_profit l fresh synced =
      elim (Option-cases (trade_side d.deal_type)) [
        | inl e ↦ rw (apply_deal-pass d canonical stop_loss take_profit l (inl e)) synced
        | inr (side, e) ↦ elim (Bool-cases (leb d.volume 0)) [
          | inl nothing ↦
              rw
                (apply_deal-pass d canonical stop_loss take_profit l
                  (inr (ground (arith, nothing))))
                synced
          | inr something ↦
              rw (apply_deal-trade d canonical stop_loss take_profit l side e something) (
                apply_entry-IsSynced table d canonical side stop_loss take_profit d.entry l fresh
                  synced)
        ]
      ]
