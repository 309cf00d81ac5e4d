-- ===== src/Ingress/Ages.antt =====
-- The age of a netting master's positions, by which copier/src/copier/mt5/ingress.py sorts and closes
-- them.
use forex_automated_copy_tra.Base.{
  ℕ, ◌-◌, ◌∷◌, [], List, ◌++◌, Bool, true, false, ◌&&◌, Option, String, str_eq, not, ltb, leb, ◌≡◌,
  arith, Bool-cases, Option-cases, inl, inr, All, All-imp,
}
use forex_automated_copy_tra.Models.{Side}
use forex_automated_copy_tra.Ingress.Book.{
  VirtualPosition, NetLedger, ReportDeal, not_after, place, sort_onto, consume_loop, consume, cut,
  taken, open_position, apply_trade, apply_deal, opened_by, held, trade_side, Entry, entry_in,
  entry_out, entry_out_by, entry_inout, entry_none,
}
use forex_automated_copy_tra.Ingress.Stored.{protect_loop, with_levels, has_levels}
use forex_automated_copy_tra.Ingress.Nets.{apply_deal-pass, apply_deal-trade}
use forex_automated_copy_tra.Ingress.Walk.{left-pass, left-emptied, left-kept}

module _ {F : Type 0} where
  -- The oldest position comes first.
  abbrev pub IsByAge : List (VirtualPosition F) → Type 0
  IsByAge [] = Unit
  IsByAge (v ∷ vs) = All (λ w. not_after v w ≡ true) vs × IsByAge vs

  not_after_trans :
      (u v w : VirtualPosition F)
      → not_after u v ≡ true
      → not_after v w ≡ true
      → not_after u w ≡ true
  not_after_trans u v w h k = ground (arith, h, k)

  not_after_total : (v w : VirtualPosition F) → not_after w v ≡ false → not_after v w ≡ true
  not_after_total v w h = ground (arith, h)

  All-place :
      (P : VirtualPosition F → Type 0) (v : VirtualPosition F) (vs : List (VirtualPosition F))
      → P v
      → All P vs
      → All P (place v vs)
  unfolding place
  All-place P v [] p h = (p, tt)
  All-place P v (w ∷ ws) p h = elim (Bool-cases (not_after w v)) [
    | inl e ↦ rw e (h.0, All-place P v ws p h.1)
    | inr e ↦ rw e (p, h)
  ]

  place-IsByAge :
      (v : VirtualPosition F) (vs : List (VirtualPosition F)) → IsByAge vs → IsByAge (place v vs)
  unfolding place
  place-IsByAge v [] h = (tt, tt)
  place-IsByAge v (w ∷ ws) h = elim (Bool-cases (not_after w v)) [
    | inl e ↦ rw e (All-place (λ u. not_after w u ≡ true) v ws e h.0, place-IsByAge v ws h.1)
    | inr e ↦
        let le = not_after_total v w e in
        rw e (
          (
            le,
            All-imp (λ u. not_after w u ≡ true) (λ u. not_after v u ≡ true)
                (λ u. not_after_trans v w u le) ws h.0,
          ),
          h,
        )
  ]

  pub sort_onto-IsByAge :
      (sorted vs : List (VirtualPosition F)) → IsByAge sorted → IsByAge (sort_onto sorted vs)
  unfolding sort_onto
  sort_onto-IsByAge sorted [] h = h
  sort_onto-IsByAge sorted (v ∷ vs) h =
      sort_onto-IsByAge (place v sorted) vs (place-IsByAge v sorted h)

  -- A property of ids and times outlives the loop of `_consume`.
  All-consume_loop :
      (P : VirtualPosition F → Type 0)
      → ((v : VirtualPosition F) (take : ℕ) → P v → P (cut take v))
      → (symbol : String) (n : ℕ) (vs : List (VirtualPosition F)) → All P vs
      → All P (consume_loop symbol n vs).left
  unfolding consume_loop
  All-consume_loop P kept symbol n [] h = tt
  All-consume_loop P kept symbol n (v ∷ vs) h =
      let take = taken symbol n v in
      let walk = consume_loop symbol (n - take) vs in
      let rest = All-consume_loop P kept symbol (n - take) vs h.1 in
      elim (Bool-cases (leb take 0)) [
        | inl e ↦ rw (left-pass take v walk e) (h.0, rest)
        | inr e ↦ elim (Bool-cases (leb (v.volume_left - take) 0)) [
          | inl emptied ↦ rw (left-emptied take v walk e emptied) rest
          | inr cuts ↦ rw (left-kept take v walk e cuts) (kept v take h.0, rest)
        ]
      ]

  consume_loop-IsByAge :
      (symbol : String) (n : ℕ) (vs : List (VirtualPosition F))
      → IsByAge vs
      → IsByAge (consume_loop symbol n vs).left
  unfolding consume_loop
  consume_loop-IsByAge symbol n [] h = tt
  consume_loop-IsByAge symbol n (v ∷ vs) h =
      let take = taken symbol n v in
      let walk = consume_loop symbol (n - take) vs in
      let newer =
        All-consume_loop (λ w. not_after v w ≡ true) (λ w m k. k) symbol (n - take) vs h.0 in
      let rest = consume_loop-IsByAge symbol (n - take) vs h.1 in
      elim (Bool-cases (leb take 0)) [
        | inl e ↦ rw (left-pass take v walk e) (newer, rest)
        | inr e ↦ elim (Bool-cases (leb (v.volume_left - take) 0)) [
          | inl emptied ↦ rw (left-emptied take v walk e emptied) rest
          | inr cuts ↦ rw (left-kept take v walk e cuts) (newer, rest)
        ]
      ]

  pub consume-IsByAge :
      (symbol canonical : String) (n : ℕ) (l : NetLedger F)
      → IsByAge l.positions
      → IsByAge (consume symbol canonical n l).1.positions
  unfolding consume
  consume-IsByAge symbol canonical n l h = consume_loop-IsByAge symbol n l.positions h

  open_position-IsByAge :
      (v : VirtualPosition F) (l : NetLedger F) → IsByAge (open_position v l).positions
  unfolding open_position
  open_position-IsByAge v l = sort_onto-IsByAge [] (l.positions ++ v ∷ []) tt

  module _ (d : ReportDeal F) (canonical : String) (stop_loss take_profit : Option F) where
    apply_trade-IsByAge :
        (e : Entry) (side : Side) (l : NetLedger F)
        → IsByAge l.positions
        → IsByAge
            (apply_trade
              (record d { entry = e })
              canonical
              side
              stop_loss
              take_profit
              l).1.positions
    unfolding apply_trade
    apply_trade-IsByAge entry_in side l h =
        open_position-IsByAge (opened_by d side d.volume stop_loss take_profit) l
    apply_trade-IsByAge entry_out side l h = consume-IsByAge d.symbol canonical d.volume l h
    apply_trade-IsByAge entry_out_by side l h = consume-IsByAge d.symbol canonical d.volume l h
    apply_trade-IsByAge entry_inout side l h =
        let n = held d.symbol l.positions in
        elim (Bool-cases (ltb 0 (d.volume - n))) [
          | inl more ↦ rw more (
              open_position-IsByAge (opened_by d side (d.volume - n) stop_loss take_profit)
                (consume d.symbol canonical n l).1)
          | inr exact ↦ rw exact (consume-IsByAge d.symbol canonical n l h)
        ]
    apply_trade-IsByAge entry_none side l h = h

    pub apply_deal-IsByAge :
        (l : NetLedger F)
        → IsByAge l.positions
        → IsByAge (apply_deal d canonical stop_loss take_profit l).1.positions
    apply_deal-IsByAge l h = elim (Option-cases (trade_side d.deal_type)) [
      | inl e ↦ rw (apply_deal-pass d canonical stop_loss take_profit l (inl e)) h
      | inr (side, e) ↦ elim (Bool-cases (leb d.volume 0)) [
        | inl nothing ↦
            rw (apply_deal-pass d canonical stop_loss take_profit l (inr (ground (arith, nothing))))
              h
        | inr something ↦
            rw (apply_deal-trade d canonical stop_loss take_profit l side e something)
              (apply_trade-IsByAge d.entry side l h)
      ]
    ]

module _ {F : Type 0} (same : Option F → Option F → Bool) (symbol : String)
    (stop_loss take_profit : Option F) where
  abbrev is_changed : VirtualPosition F → Bool
  is_changed v = str_eq v.symbol symbol && not (has_levels same stop_loss take_profit v)

  All-protect_loop :
      (P : VirtualPosition F → Type 0)
      → ((v : VirtualPosition F) → P v → P (with_levels same stop_loss take_profit v))
      → (vs : List (VirtualPosition F)) → All P vs
      → All P (protect_loop same symbol stop_loss take_profit vs).book
  unfolding protect_loop
  All-protect_loop P kept [] h = tt
  All-protect_loop P kept (v ∷ vs) h =
      let rest = All-protect_loop P kept vs h.1 in
      elim (Bool-cases (is_changed v)) [
        | inl e ↦ rw e (kept v h.0, rest)
        | inr e ↦ rw e (h.0, rest)
      ]

  pub protect_loop-IsByAge :
      (vs : List (VirtualPosition F))
      → IsByAge vs
      → IsByAge (protect_loop same symbol stop_loss take_profit vs).book
  unfolding protect_loop
  protect_loop-IsByAge [] h = tt
  protect_loop-IsByAge (v ∷ vs) h =
      let newer = All-protect_loop (λ w. not_after v w ≡ true) (λ w k. k) vs h.0 in
      let rest = protect_loop-IsByAge vs h.1 in
      elim (Bool-cases (is_changed v)) [ inl e ↦ rw e (newer, rest) | inr e ↦ rw e (newer, rest) ]
