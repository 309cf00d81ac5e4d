-- ===== src/Ingress/Quiet.antt =====
-- The events of a ledger are no news of pending orders.
use forex_automated_copy_tra.Base.{
  ℕ, ◌∷◌, [], List, ◌++◌, Bool, false, ◌||◌, Option, String, ◌==◌, map, ◌≡◌, refl, ◌∙◌, arith,
  Bool-cases, Option-cases, inl, inr, ltb, leb, ◌-◌,
}
use forex_automated_copy_tra.Models.{
  Side, MasterEvent, position_opened, position_closed, position_sltp_amended, pending_cancelled,
  pending_filled,
}
use forex_automated_copy_tra.Ingress.Book.{
  VirtualPosition, ReportDeal, NetLedger, Entry, entry_in, entry_out, entry_out_by, entry_inout,
  entry_none, trade_side, apply_deal, apply_trade, consume, consume_loop, closed_event,
  opened_event, held,
}
use forex_automated_copy_tra.Ingress.Nets.{apply_deal-pass, apply_deal-trade}
use forex_automated_copy_tra.Ingress.Stored.{apply_protection, amended_event, protect_loop}

module _ {F : Type 0} where
  abbrev pub cancels : ℕ → MasterEvent F → Bool
  cancels id (pending_cancelled e) = id == e.order_id
  cancels id _ = false

  abbrev pub fills_order : ℕ → MasterEvent F → Bool
  fills_order id (pending_filled e) = id == e.order_id
  fills_order id _ = false

  abbrev pub any : (MasterEvent F → Bool) → List (MasterEvent F) → Bool
  any test [] = false
  any test (e ∷ es) = test e || any test es

  -- Whether the events say that an order was cancelled, or filled.
  abbrev pub is_cancelled : ℕ → List (MasterEvent F) → Bool
  is_cancelled id es = any (cancels id) es

  abbrev pub is_filled : ℕ → List (MasterEvent F) → Bool
  is_filled id es = any (fills_order id) es

  pub any-append :
      (test : MasterEvent F → Bool) (xs ys : List (MasterEvent F))
      → any test (xs ++ ys) ≡ (any test xs || any test ys)
  any-append test [] ys = refl
  any-append test (x ∷ xs) ys = ground (arith, any-append test xs ys)

  -- A test that no event of the ledger passes.
  abbrev pub Ignores : (MasterEvent F → Bool) → Type 0
  Ignores test =
      ((e : _) → test (position_opened e) ≡ false)
      × (((e : _) → test (position_closed e) ≡ false)
          × ((e : _) → test (position_sltp_amended e) ≡ false))

  any-closed :
      (test : MasterEvent F → Bool) (canonical : String) (cuts : List (VirtualPosition F × ℕ))
      → Ignores test
      → any test (map (closed_event canonical) cuts) ≡ false
  any-closed test canonical [] ignores = refl
  any-closed test canonical ((v, take) ∷ cuts) ignores =
      rw (ignores.1.0 _, any-closed test canonical cuts ignores) refl

  any-amended :
      (test : MasterEvent F → Bool) (vs : List (VirtualPosition F))
      → Ignores test
      → any test (map amended_event vs) ≡ false
  any-amended test [] ignores = refl
  any-amended test (v ∷ vs) ignores = rw (ignores.1.1 _, any-amended test vs ignores) refl

  any-consume :
      (test : MasterEvent F → Bool) (symbol canonical : String) (n : ℕ) (l : NetLedger F)
      → Ignores test
      → any test (consume symbol canonical n l).0 ≡ false
  unfolding consume
  any-consume test symbol canonical n l ignores =
      any-closed test canonical (consume_loop symbol n l.positions).cuts ignores

  any-apply_entry :
      (test : MasterEvent F → Bool) (d : ReportDeal F) (canonical : String) (side : Side)
      (stop_loss take_profit : Option F) (e : Entry) (l : NetLedger F)
      → Ignores test
      → any test (apply_trade (record d { entry = e }) canonical side stop_loss take_profit l).0
        ≡ false
  unfolding apply_trade
  any-apply_entry test d canonical side stop_loss take_profit entry_in l ignores =
      rw (ignores.0 _) refl
  any-apply_entry test d canonical side stop_loss take_profit entry_out l ignores =
      any-consume test d.symbol canonical d.volume l ignores
  any-apply_entry test d canonical side stop_loss take_profit entry_out_by l ignores =
      any-consume test d.symbol canonical d.volume l ignores
  any-apply_entry test d canonical side stop_loss take_profit entry_inout l ignores =
      let n = held d.symbol l.positions in
      let closed = any-consume test d.symbol canonical n l ignores in
      elim (Bool-cases (ltb 0 (d.volume - n))) [
        | inl more ↦ rw more (
            any-append test (consume d.symbol canonical n l).0
              (opened_event d canonical side (d.volume - n) stop_loss take_profit ∷ [])
            ∙ rw (closed, ignores.0 _) refl)
        | inr exact ↦ rw exact closed
      ]
  any-apply_entry test d canonical side stop_loss take_profit entry_none l ignores = refl

  pub any-apply_deal :
      (test : MasterEvent F → Bool) (d : ReportDeal F) (canonical : String)
      (stop_loss take_profit : Option F) (l : NetLedger F)
      → Ignores test
      → any test (apply_deal d canonical stop_loss take_profit l).0 ≡ false
  any-apply_deal test d canonical stop_loss take_profit l ignores =
      elim (Option-cases (trade_side d.deal_type)) [
        | inl e ↦ rw (apply_deal-pass d canonical stop_loss take_profit l (inl e)) refl
        | inr (side, e) ↦ elim (Bool-cases (leb d.volume 0)) [
          | inl nothing ↦
              rw
                (apply_deal-pass d canonical stop_loss take_profit l
                  (inr (ground (arith, nothing))))
                refl
          | inr something ↦
              rw (apply_deal-trade d canonical stop_loss take_profit l side e something)
                (any-apply_entry test d canonical side stop_loss take_profit d.entry l ignores)
        ]
      ]

  pub any-apply_protection :
      (test : MasterEvent F → Bool) (same : Option F → Option F → Bool) (symbol : String)
      (stop_loss take_profit : Option F) (l : NetLedger F)
      → Ignores test
      → any test (apply_protection same symbol stop_loss take_profit l).0 ≡ false
  unfolding apply_protection
  any-apply_protection test same symbol stop_loss take_profit l ignores =
      any-amended test (protect_loop same symbol stop_loss take_profit l.positions).changed ignores
