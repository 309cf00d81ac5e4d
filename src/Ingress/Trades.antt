-- ===== src/Ingress/Trades.antt =====
-- A deal's effect on the net volume of every symbol.
use forex_automated_copy_tra.Base.{
  ℕ, ◌+◌, ◌-◌, ◌≤◌, ◌<◌, ◌∷◌, [], List, ◌++◌, Bool, true, false, ◌&&◌, Option, String, str_eq,
  if◌then◌else◌, ◌≡◌, refl, arith, inl, inr, ◌⊎◌, lt→ltb,
}
use text.Mathlib.TextPositions.{eq_refl}
use forex_automated_copy_tra.Models.{Side, buy, sell}
use forex_automated_copy_tra.Ingress.Book.{
  VirtualPosition, NetLedger, ReportDeal, held, consume_loop, consume, open_position, opened_by,
  apply_trade, Entry, entry_in, entry_out, entry_inout, entry_out_by, entry_none,
}
use forex_automated_copy_tra.Ingress.Held.{
  total, of_symbol, total-sort_onto, total-consume_le, held-total, held-consume,
}

abbrev pub opposite : Side → Side
opposite buy = sell
opposite sell = buy

abbrev pub is_side : Side → Side → Bool
is_side buy buy = true
is_side sell sell = true
is_side _ _ = false

-- The test of one side of a symbol.
abbrev pub of_side : String → Side → String → Side → Bool
of_side symbol side s d = str_eq s symbol && is_side d side

weight-sides :
    (on : Bool) (d side : Side) (m : ℕ)
    → (if on then m else 0)
      ≡ (if on && is_side d side then m else 0) + (if on && is_side d (opposite side) then m else 0)
weight-sides true buy buy m = omega arith
weight-sides true buy sell m = omega arith
weight-sides true sell buy m = omega arith
weight-sides true sell sell m = omega arith
weight-sides false d side m = omega arith

-- The terminal keeps one net position for each symbol: a deal that enters adds to it or opens it, one
-- that leaves reduces it from the other side by no more than it holds, and one that reverses takes
-- more than it holds. `own` is the volume on the deal's side, `against` the one on the other.
abbrev pub FitsNet : Entry → ℕ → ℕ → ℕ → Type 0
FitsNet entry_in volume own against = against ≡ 0
FitsNet entry_out volume own against = (own ≡ 0) × (volume ≤ against)
FitsNet entry_out_by volume own against = (own ≡ 0) × (volume ≤ against)
FitsNet entry_inout volume own against = (own ≡ 0) × (against < volume)
FitsNet entry_none volume own against = ⊥

module _ {F : Type 0} where
  -- The volume that the ledger holds of a symbol on a side.
  abbrev pub volume_on : String → Side → List (VirtualPosition F) → ℕ
  volume_on symbol side vs = total (of_side symbol side) vs

  total-append :
      (test : String → Side → Bool) (vs ws : List (VirtualPosition F))
      → total test (vs ++ ws) ≡ total test vs + total test ws
  total-append test [] ws = omega arith
  total-append test (v ∷ vs) ws = omega (arith, total-append test vs ws)

  pub total-open_position :
      (test : String → Side → Bool) (v : VirtualPosition F) (l : NetLedger F)
      → total test (open_position v l).positions
        ≡ total test l.positions + (if test v.symbol v.side then v.volume_left else 0)
  unfolding open_position
  total-open_position test v l = omega (
    arith,
    total-sort_onto test [] (l.positions ++ v ∷ []),
    total-append test l.positions (v ∷ []),
  )

  -- A symbol's positions are those of the one side and those of the other.
  total-sides :
      (symbol : String) (side : Side) (vs : List (VirtualPosition F))
      → total (of_symbol symbol) vs ≡ volume_on symbol side vs + volume_on symbol (opposite side) vs
  total-sides symbol side [] = refl
  total-sides symbol side (v ∷ vs) = omega (
    arith,
    total-sides symbol side vs,
    weight-sides (str_eq v.symbol symbol) v.side side v.volume_left,
  )

  -- What the loop leaves on the two sides when the symbol is held on the second alone.
  consume-sides :
      (symbol : String) (side : Side) (n : ℕ) (vs : List (VirtualPosition F))
      → volume_on symbol side vs ≡ 0
      → (volume_on symbol side (consume_loop symbol n vs).left ≡ 0)
        × (volume_on symbol (opposite side) (consume_loop symbol n vs).left
            ≡ volume_on symbol (opposite side) vs - n)
  consume-sides symbol side n vs none_held =
      let own = total-consume_le (of_side symbol side) symbol n vs in
      let sum = held-consume symbol n vs in
      let before = total-sides symbol side vs in
      let after = total-sides symbol side (consume_loop symbol n vs).left in
      (omega arith, omega arith)

  -- The net volume moves by the deal's, and the symbol stays on one side.
  abbrev pub IsMoved :
      String → Side → ℕ → List (VirtualPosition F) → List (VirtualPosition F) → Type 0
  IsMoved symbol side volume vs ws =
      (volume_on symbol side ws + volume_on symbol (opposite side) vs
        ≡ volume_on symbol side vs + volume_on symbol (opposite side) ws + volume)
      × ((volume_on symbol side ws ≡ 0) ⊎ (volume_on symbol (opposite side) ws ≡ 0))

  own_weight :
      (deal : ReportDeal F) (side : Side) (m : ℕ)
      → ((if of_side deal.symbol side deal.symbol side then m else 0) ≡ m)
        × ((if of_side deal.symbol (opposite side) deal.symbol side then m else 0) ≡ 0)
  own_weight deal buy m = rw (eq_refl deal.symbol) (refl, refl)
  own_weight deal sell m = rw (eq_refl deal.symbol) (refl, refl)

  module _ (deal : ReportDeal F) (canonical : String) (side : Side)
      (stop_loss take_profit : Option F) where
    open_position-IsMoved :
        (volume : ℕ) (l : NetLedger F)
        → volume_on deal.symbol (opposite side) l.positions ≡ 0
        → IsMoved deal.symbol side volume l.positions
            (open_position (opened_by deal side volume stop_loss take_profit) l).positions
    open_position-IsMoved volume l none_against =
        let v = opened_by deal side volume stop_loss take_profit in
        let own = total-open_position (of_side deal.symbol side) v l in
        let against = total-open_position (of_side deal.symbol (opposite side)) v l in
        let w = own_weight deal side volume in (omega arith, inr (omega arith))

    -- What closing does to the sides of the deal's symbol.
    closing-IsMoved :
        (n : ℕ) (l : NetLedger F)
        → volume_on deal.symbol side l.positions ≡ 0
        → n ≤ volume_on deal.symbol (opposite side) l.positions
        → IsMoved deal.symbol side n l.positions (consume deal.symbol canonical n l).1.positions
    unfolding consume
    closing-IsMoved n l none_held enough =
        let sides = consume-sides deal.symbol side n l.positions none_held in
        (omega arith, inl sides.0)

    reversal-IsMoved :
        (l : NetLedger F)
        → FitsNet entry_inout deal.volume
            (volume_on deal.symbol side l.positions)
            (volume_on deal.symbol (opposite side) l.positions)
        → IsMoved deal.symbol side deal.volume l.positions
            (apply_trade
              (record deal { entry = entry_inout })
              canonical
              side
              stop_loss
              take_profit
              l).1.positions
    unfolding apply_trade
    reversal-IsMoved l fits =
        let total_held = held deal.symbol l.positions in
        let closed = (consume deal.symbol canonical total_held l).1 in
        let sum = held-total deal.symbol l.positions in
        let parts = total-sides deal.symbol side l.positions in
        let sides = consume-sides deal.symbol side total_held l.positions fits.0 in
        let emptied : volume_on deal.symbol (opposite side) closed.positions ≡ 0 =
          omega (arith, sides.1, sum, parts, fits.0) in
        let added = open_position-IsMoved (deal.volume - total_held) closed emptied in
        rw (lt→ltb 0 (deal.volume - total_held) (omega (arith, fits.1, sum, parts, fits.0)))
          (omega (arith, added.0, emptied, sides.0, fits.0, fits.1, sum, parts), added.1)

    pub apply_entry-IsMoved :
        (e : Entry) (l : NetLedger F)
        → FitsNet e deal.volume
            (volume_on deal.symbol side l.positions)
            (volume_on deal.symbol (opposite side) l.positions)
        → IsMoved deal.symbol side deal.volume l.positions
            (apply_trade
              (record deal { entry = e })
              canonical
              side
              stop_loss
              take_profit
              l).1.positions
    unfolding apply_trade
    apply_entry-IsMoved entry_in l fits = open_position-IsMoved deal.volume l fits
    apply_entry-IsMoved entry_out l fits = closing-IsMoved deal.volume l fits.0 fits.1
    apply_entry-IsMoved entry_out_by l fits = closing-IsMoved deal.volume l fits.0 fits.1
    apply_entry-IsMoved entry_inout l fits = reversal-IsMoved l fits
    apply_entry-IsMoved entry_none l fits = absurd fits
