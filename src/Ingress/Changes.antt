-- ===== src/Ingress/Changes.antt =====
-- The marks stay true over deals, protection and saves, and a restart gives the ledger back.
use mathlib.Core.Option.{some-injective}
use forex_automated_copy_tra.Base.{
  ℕ, ◌∷◌, [], List, Bool, Option, some, ◌≡◌, refl, sym, subst, ◌∙◌, Dict, lookup,
}
use forex_automated_copy_tra.Ingress.Book.{VirtualPosition, NetLedger, apply_deal, new_ledger}
use forex_automated_copy_tra.Ingress.Stored.{
  refresh, values, Change, deal, protection, save, change, changes, apply_protection,
  persist_net_ledger, net_ledger, upsert_net_ledger,
}
use forex_automated_copy_tra.Ingress.Found.{find, find-sorted, sorted-IsDistinct}
use forex_automated_copy_tra.Ingress.Keyed.{IsKeyed}
use forex_automated_copy_tra.Ingress.Rows.{
  find-values, values-IsDistinct, upsert_net_ledger-IsKeyed, delete_net_ledger-IsKeyed,
}
use forex_automated_copy_tra.Ingress.Opens.{IsFresh, apply_deal-IsSynced}
use forex_automated_copy_tra.Ingress.Restart.{IsSynced, persist-stored, protection-IsSynced}

module _ {F : Type 0} where
  persist-IsSynced :
      (table : Dict (VirtualPosition F)) (l : NetLedger F)
      → IsSynced table l
      → IsSynced (persist_net_ledger table l).0 (persist_net_ledger table l).1
  unfolding persist_net_ledger
  persist-IsSynced table l synced = record {
    rows_keyed =
        delete_net_ledger-IsKeyed l.deleted (upsert_net_ledger (values l.dirty) table)
          (upsert_net_ledger-IsKeyed (values l.dirty) table synced.rows_keyed);
    dirty_keyed = tt;
    distinct = synced.distinct;
    stored = λ id. sym (persist-stored table l synced id);
    fixed = λ id v row found there.
        let row_is : some row ≡ some v = sym there ∙ (persist-stored table l synced id ∙ found) in
        subst (λ r. refresh v r ≡ v) (sym (some-injective _ _ row_is)) refl;
  }

  find-net_ledger :
      (id : ℕ) (table : Dict (VirtualPosition F))
      → IsKeyed table
      → find id (net_ledger table).positions ≡ lookup id table
  unfolding net_ledger new_ledger
  find-net_ledger id table keyed =
      find-sorted id (values table) (values-IsDistinct table keyed) ∙ find-values id table keyed

  -- The ledger that a restart makes of a table belongs to it.
  pub net_ledger-IsSynced :
      (table : Dict (VirtualPosition F)) → IsKeyed table → IsSynced table (net_ledger table)
  unfolding net_ledger new_ledger
  net_ledger-IsSynced table keyed = record {
    rows_keyed = keyed;
    dirty_keyed = tt;
    distinct = sorted-IsDistinct (values table) (values-IsDistinct table keyed);
    stored = λ id. find-net_ledger id table keyed;
    fixed = λ id v row found there.
        let same = sym there ∙ (sym (find-net_ledger id table keyed) ∙ found) in
        subst (λ r. refresh v r ≡ v) (sym (some-injective _ _ same)) refl;
  }

  -- The ledger after a save and a restart.
  abbrev pub restarted : Dict (VirtualPosition F) × NetLedger F → NetLedger F
  restarted (table, l) = net_ledger (persist_net_ledger table l).0

  module _ (same : Option F → Option F → Bool) where
    -- Each deal's ticket is new when it comes, to the ledger and to the table.
    abbrev pub AreFresh : List (Change same) → Dict (VirtualPosition F) × NetLedger F → Type 0
    AreFresh [] s = Unit
    AreFresh (deal d canonical stop_loss take_profit ∷ cs) (table, l) =
        IsFresh d.ticket table l
        × AreFresh cs (change same (deal d canonical stop_loss take_profit) (table, l))
    AreFresh (c ∷ cs) s = AreFresh cs (change same c s)

    pub changes-IsSynced :
        (cs : List (Change same)) (table : Dict (VirtualPosition F)) (l : NetLedger F)
        → AreFresh cs (table, l)
        → IsSynced table l
        → IsSynced (changes same cs (table, l)).0 (changes same cs (table, l)).1
    unfolding change
    changes-IsSynced [] table l fresh synced = synced
    changes-IsSynced (deal d canonical stop_loss take_profit ∷ cs) table l fresh synced =
        changes-IsSynced cs table (apply_deal d canonical stop_loss take_profit l).1 fresh.1
          (apply_deal-IsSynced table d canonical stop_loss take_profit l fresh.0 synced)
    changes-IsSynced (protection symbol stop_loss take_profit ∷ cs) table l fresh synced =
        changes-IsSynced cs table (apply_protection same symbol stop_loss take_profit l).1 fresh
          (protection-IsSynced same table l symbol stop_loss take_profit synced)
    changes-IsSynced (save ∷ cs) table l fresh synced =
        changes-IsSynced cs (persist_net_ledger table l).0 (persist_net_ledger table l).1 fresh
          (persist-IsSynced table l synced)

    -- A ledger starts from a table whose rows have distinct ids. After any deals with new tickets,
    -- changes of protection and saves, a save and a restart find the same position under every id.
    pub net_ledger-changes :
        (table : Dict (VirtualPosition F)) (cs : List (Change same)) (id : ℕ)
        → IsKeyed table
        → AreFresh cs (table, net_ledger table)
        → find id (restarted (changes same cs (table, net_ledger table))).positions
          ≡ find id (changes same cs (table, net_ledger table)).1.positions
    net_ledger-changes table cs id keyed fresh =
        let after = changes same cs (table, net_ledger table) in
        let synced =
          changes-IsSynced cs table (net_ledger table) fresh (net_ledger-IsSynced table keyed) in
        let saved = persist-IsSynced after.0 after.1 synced in
        find-net_ledger id (persist_net_ledger after.0 after.1).0 saved.rows_keyed
        ∙ persist-stored after.0 after.1 synced id
