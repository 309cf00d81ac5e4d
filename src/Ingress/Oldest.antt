-- ===== src/Ingress/Oldest.antt =====
-- Which positions a close of copier/src/copier/mt5/ingress.py takes from.
use forex_automated_copy_tra.Base.{
  ℕ, ◌+◌, ◌-◌, ◌∷◌, [], List, Bool, true, ◌&&◌, ◌||◌, none, Option, String, str_eq, if◌then◌else◌,
  ltb, leb, ◌==◌, min, ◌≡◌, refl, sym, ◌∙◌, ap, arith, All, Dict,
}
use forex_automated_copy_tra.Ingress.Book.{
  VirtualPosition, NetLedger, not_after, Consumed, consume_one, consume_loop, consume, taken,
  new_ledger, apply_deal,
}
use forex_automated_copy_tra.Ingress.Stored.{
  values, Change, deal, protection, save, change, changes, apply_protection, persist_net_ledger,
  net_ledger,
}
use forex_automated_copy_tra.Ingress.Found.{find, IsDistinct, find-fresh_head}
use forex_automated_copy_tra.Ingress.Keyed.{IsKeyed}
use forex_automated_copy_tra.Ingress.Ages.{
  IsByAge, sort_onto-IsByAge, apply_deal-IsByAge, protect_loop-IsByAge,
}
use forex_automated_copy_tra.Ingress.Changes.{AreFresh, changes-IsSynced, net_ledger-IsSynced}

module _ {F : Type 0} where
  -- Opened earlier, or at the same time under a smaller id.
  abbrev pub is_older : VirtualPosition F → VirtualPosition F → Bool
  is_older v w =
      ltb v.opened_at_ms w.opened_at_ms
      || (v.opened_at_ms == w.opened_at_ms && ltb v.virtual_id w.virtual_id)

  -- What the older positions of a symbol hold.
  abbrev pub held_by_older : String → VirtualPosition F → List (VirtualPosition F) → ℕ
  held_by_older symbol w [] = 0
  held_by_older symbol w (v ∷ vs) =
      (if str_eq v.symbol symbol && is_older v w then v.volume_left else 0)
      + held_by_older symbol w vs

  -- What a close of `n` takes from a position, wherever it stands among all: what the older ones do
  -- not hold.
  abbrev pub share : String → ℕ → List (VirtualPosition F) → VirtualPosition F → ℕ
  share symbol n all w =
      if str_eq w.symbol symbol then min w.volume_left (n - held_by_older symbol w all) else 0

  -- A position that loses nothing stays, one that loses all goes, and another is cut.
  abbrev pub without : ℕ → VirtualPosition F → List (VirtualPosition F) → List (VirtualPosition F)
  without take w rest =
      if take == 0
      then w ∷ rest
      else if leb w.volume_left take
      then rest
      else record w { volume_left = w.volume_left - take } ∷ rest

  abbrev pub without_shares :
      String → ℕ → List (VirtualPosition F) → List (VirtualPosition F) → List (VirtualPosition F)
  without_shares symbol n all [] = []
  without_shares symbol n all (w ∷ ws) =
      without (share symbol n all w) w (without_shares symbol n all ws)

  left-consume_one :
      (take : ℕ) (v : VirtualPosition F) (rest : Consumed F)
      → (consume_one take v rest).left ≡ without take v rest.left
  left-consume_one take v rest = ground arith

  older_none :
      (symbol : String) (v : VirtualPosition F) (vs : List (VirtualPosition F))
      → All (λ w. not_after v w ≡ true) vs
      → held_by_older symbol v vs ≡ 0
  older_none symbol v [] h = refl
  older_none symbol v (w ∷ ws) h = ground (arith, h.0, older_none symbol v ws h.1)

  -- The head is older than what stands behind it.
  past_head :
      (symbol : String) (m : ℕ) (all us : List (VirtualPosition F)) (v : VirtualPosition F)
      (vs : List (VirtualPosition F))
      → All (λ w. not_after v w ≡ true) vs
      → find v.virtual_id vs ≡ none
      → All (λ w. held_by_older symbol w all ≡ m + held_by_older symbol w (v ∷ us)) vs
      → All
          (λ w.
            held_by_older symbol w all
            ≡ (m + (if str_eq v.symbol symbol then v.volume_left else 0))
              + held_by_older symbol w us)
          vs
  past_head symbol m all us v [] newer fresh h = tt
  past_head symbol m all us v (w ∷ ws) newer fresh h =
      let apart = find-fresh_head v.virtual_id w ws fresh in
      (ground (arith, newer.0, apart.0, h.0), past_head symbol m all us v ws newer.1 apart.1 h.1)

  loop_shares :
      (symbol : String) (n m : ℕ) (all vs : List (VirtualPosition F))
      → IsByAge vs
      → IsDistinct vs
      → All (λ w. held_by_older symbol w all ≡ m + held_by_older symbol w vs) vs
      → (consume_loop symbol (n - m) vs).left ≡ without_shares symbol n all vs
  unfolding consume_loop
  loop_shares symbol n m all [] aged distinct h = refl
  loop_shares symbol n m all (v ∷ vs) aged distinct h =
      let take = taken symbol (n - m) v in
      let holds : ℕ = if str_eq v.symbol symbol then v.volume_left else 0 in
      let walk = consume_loop symbol ((n - m) - take) vs in
      let none_older = older_none symbol v vs aged.0 in
      let same : share symbol n all v ≡ take = ground (arith, none_older, h.0) in
      let amount : (n - m) - take ≡ n - (m + holds) = ground arith in
      let rest : walk.left ≡ without_shares symbol n all vs =
        ap (λ k. (consume_loop symbol k vs).left) amount
        ∙ loop_shares symbol n (m + holds) all vs aged.1 distinct.1
            (past_head symbol m all vs v vs aged.0 distinct.0 h.1) in
      left-consume_one take v walk
      ∙ (ap (λ k. without k v walk.left) (sym same) ∙ ap (without (share symbol n all v) v) rest)

  start :
      (symbol : String) (all vs : List (VirtualPosition F))
      → All (λ w. held_by_older symbol w all ≡ 0 + held_by_older symbol w all) vs
  start symbol all [] = tt
  start symbol all (v ∷ vs) = (omega arith, start symbol all vs)

  module _ (same : Option F → Option F → Bool) where
    changes-IsByAge :
        (cs : List (Change same)) (table : Dict (VirtualPosition F)) (l : NetLedger F)
        → IsByAge l.positions
        → IsByAge (changes same cs (table, l)).1.positions
    unfolding change apply_protection persist_net_ledger
    changes-IsByAge [] table l aged = aged
    changes-IsByAge (deal d canonical stop_loss take_profit ∷ cs) table l aged =
        changes-IsByAge cs table (apply_deal d canonical stop_loss take_profit l).1
          (apply_deal-IsByAge d canonical stop_loss take_profit l aged)
    changes-IsByAge (protection symbol stop_loss take_profit ∷ cs) table l aged =
        changes-IsByAge cs table (apply_protection same symbol stop_loss take_profit l).1
          (protect_loop-IsByAge same symbol stop_loss take_profit l.positions aged)
    changes-IsByAge (save ∷ cs) table l aged =
        changes-IsByAge cs (persist_net_ledger table l).0 (persist_net_ledger table l).1 aged

    net_ledger-IsByAge : (table : Dict (VirtualPosition F)) → IsByAge (net_ledger table).positions
    unfolding net_ledger new_ledger
    net_ledger-IsByAge table = sort_onto-IsByAge [] (values table) tt

    -- A ledger starts from a table whose rows have distinct ids. After any deals with new tickets,
    -- changes of protection and saves, a close of some volume of a symbol takes from each of its
    -- positions what the older ones of the symbol do not hold, up to what it has left; a position that
    -- loses nothing stays, and one that loses all goes. Older is opened earlier, or at the same time
    -- under a smaller id.
    pub consume-without_shares :
        (table : Dict (VirtualPosition F)) (cs : List (Change same)) (symbol canonical : String)
        (n : ℕ)
        → IsKeyed table
        → AreFresh same cs (table, net_ledger table)
        → let l = (changes same cs (table, net_ledger table)).1 in
          (consume symbol canonical n l).1.positions
          ≡ without_shares symbol n l.positions l.positions
    unfolding consume
    consume-without_shares table cs symbol canonical n keyed fresh =
        let l = (changes same cs (table, net_ledger table)).1 in
        let synced =
          changes-IsSynced same cs table (net_ledger table) fresh
            (net_ledger-IsSynced table keyed) in
        ap (λ k. (consume_loop symbol k l.positions).left) (omega arith)
        ∙ loop_shares symbol n 0 l.positions l.positions
            (changes-IsByAge cs table (net_ledger table) (net_ledger-IsByAge table)) synced.distinct
            (start symbol l.positions l.positions)
