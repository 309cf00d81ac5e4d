-- ===== src/Ingress/Nets.antt =====
-- The ledger as the terminal's net positions, over a deal.
use text.Mathlib.TextPositions.{eq_refl}
use forex_automated_copy_tra.Base.{
  ℕ, ◌+◌, ◌-◌, [], Bool, true, false, ◌&&◌, Option, none, some, String, str_eq, eq_iff,
  if◌then◌else◌, ltb, leb, ◌≡◌, refl, arith, Bool-cases, inl, inr, ◌⊎◌, subst, ◌∙◌, Option-cases,
}
use forex_automated_copy_tra.Models.{Side, buy, sell}
use forex_automated_copy_tra.Ingress.Book.{
  NetLedger, ReportDeal, held, consume, open_position, opened_by, apply_trade, apply_deal,
  trade_side, Entry, entry_in, entry_out, entry_inout, entry_out_by, entry_none,
}
use forex_automated_copy_tra.Ingress.Held.{total-consume_other}
use forex_automated_copy_tra.Ingress.Trades.{
  FitsNet, IsMoved, volume_on, of_side, is_side, opposite, total-open_position, apply_entry-IsMoved,
}

apart :
    (side : Side) (symbol s : String)
    → str_eq symbol s ≡ false
    → (x : String) (d : Side) → str_eq x symbol ≡ true
    → of_side s side x d ≡ false
apart side symbol s distinct x d same = rw ((eq_iff x symbol).0 same) (rw distinct refl)

no_weight :
    (symbol s : String) (on : Bool) (m : ℕ)
    → str_eq symbol s ≡ false
    → (if str_eq symbol s && on then m else 0) ≡ 0
no_weight symbol s on m distinct = rw distinct refl

module _ {F : Type 0} where
  -- What a deal bought or sold of a symbol.
  abbrev pub traded : Side → String → ReportDeal F → ℕ
  traded side symbol deal = elim (trade_side deal.deal_type) [
    | none ↦ 0
    | some d ↦ if str_eq deal.symbol symbol && is_side d side then deal.volume else 0
  ]

  -- The terminal's deal fits the net position that the ledger stands for.
  abbrev pub FitsLedger : ReportDeal F → NetLedger F → Type 0
  FitsLedger deal l = elim (trade_side deal.deal_type) [
    | none ↦ Unit
    | some side ↦
        FitsNet deal.entry deal.volume (volume_on deal.symbol side l.positions)
          (volume_on deal.symbol (opposite side) l.positions)
  ]

  abbrev pub IsOneSided : String → NetLedger F → Type 0
  IsOneSided symbol l =
      (volume_on symbol buy l.positions ≡ 0) ⊎ (volume_on symbol sell l.positions ≡ 0)

  -- The net volume of a symbol moved by what the deal traded of it.
  abbrev pub TracksNet : ReportDeal F → String → NetLedger F → NetLedger F → Type 0
  TracksNet deal symbol l after =
      (volume_on symbol buy after.positions
          + volume_on symbol sell l.positions
          + traded sell symbol deal
        ≡ volume_on symbol buy l.positions
          + volume_on symbol sell after.positions
          + traded buy symbol deal)
      × IsOneSided symbol after

  module _ (deal : ReportDeal F) (canonical : String) (side : Side)
      (stop_loss take_profit : Option F) (s : String) where
    open_position-volume_on_other :
        (d : Side) (volume : ℕ) (l : NetLedger F)
        → str_eq deal.symbol s ≡ false
        → volume_on s d
            (open_position (opened_by deal side volume stop_loss take_profit) l).positions
          ≡ volume_on s d l.positions
    open_position-volume_on_other d volume l distinct = omega (
      arith,
      total-open_position (of_side s d) (opened_by deal side volume stop_loss take_profit) l,
      no_weight deal.symbol s (is_side side d) volume distinct,
    )

    consume-volume_on_other :
        (d : Side) (n : ℕ) (l : NetLedger F)
        → str_eq deal.symbol s ≡ false
        → volume_on s d (consume deal.symbol canonical n l).1.positions ≡ volume_on s d l.positions
    unfolding consume
    consume-volume_on_other d n l distinct =
        total-consume_other (of_side s d) deal.symbol n l.positions (apart d deal.symbol s distinct)

    apply_trade-volume_on_other :
        (d : Side) (e : Entry) (l : NetLedger F)
        → str_eq deal.symbol s ≡ false
        → volume_on s d
            (apply_trade
              (record deal { entry = e })
              canonical
              side
              stop_loss
              take_profit
              l).1.positions
          ≡ volume_on s d l.positions
    unfolding apply_trade
    apply_trade-volume_on_other d entry_in l distinct =
        open_position-volume_on_other d deal.volume l distinct
    apply_trade-volume_on_other d entry_out l distinct =
        consume-volume_on_other d deal.volume l distinct
    apply_trade-volume_on_other d entry_out_by l distinct =
        consume-volume_on_other d deal.volume l distinct
    apply_trade-volume_on_other d entry_inout l distinct =
        let n = held deal.symbol l.positions in
        elim (Bool-cases (ltb 0 (deal.volume - n))) [
          | inl more ↦ rw more (
              open_position-volume_on_other d (deal.volume - n)
                (consume deal.symbol canonical n l).1 distinct
              ∙ consume-volume_on_other d n l distinct)
          | inr exact ↦ rw exact (consume-volume_on_other d n l distinct)
        ]
    apply_trade-volume_on_other d entry_none l distinct = refl

  traded_other :
      (d : Side) (symbol : String) (deal : ReportDeal F)
      → str_eq deal.symbol symbol ≡ false
      → traded d symbol deal ≡ 0
  traded_other d symbol deal distinct = elim (Option-cases (trade_side deal.deal_type)) [
    | inl e ↦ rw (traded, e) refl
    | inr (side, e) ↦ rw (traded, e, distinct) refl
  ]

  -- A trade of the deal's own symbol, as the symbol's two sides show it.
  IsMoved-TracksNet :
      (deal : ReportDeal F) (side : Side) (l after : NetLedger F)
      → trade_side deal.deal_type ≡ some side
      → IsMoved deal.symbol side deal.volume l.positions after.positions
      → TracksNet deal deal.symbol l after
  IsMoved-TracksNet deal buy l after e moved =
      rw (traded, e, eq_refl deal.symbol) (omega (arith, moved.0), moved.1)
  IsMoved-TracksNet deal sell l after e moved =
      rw (traded, e, eq_refl deal.symbol)
        (
          omega (arith, moved.0),
          elim moved.1 [ inl none_own ↦ inr none_own | inr none_against ↦ inl none_against ],
        )

  -- A symbol whose volumes stay and of which nothing was traded
  still-TracksNet :
      (deal : ReportDeal F) (symbol : String) (l after : NetLedger F)
      → traded buy symbol deal ≡ 0
      → traded sell symbol deal ≡ 0
      → ((d : Side) → volume_on symbol d after.positions ≡ volume_on symbol d l.positions)
      → IsOneSided symbol l
      → TracksNet deal symbol l after
  still-TracksNet deal symbol l after unbought unsold same one_sided = (
    omega (arith, unbought, unsold, same buy, same sell),
    elim one_sided [ inl e ↦ inl (same buy ∙ e) | inr e ↦ inr (same sell ∙ e) ],
  )

  trade-TracksNet :
      (deal : ReportDeal F) (canonical : String) (side : Side) (stop_loss take_profit : Option F)
      (l : NetLedger F) (symbol : String)
      → trade_side deal.deal_type ≡ some side
      → FitsNet deal.entry deal.volume
          (volume_on deal.symbol side l.positions)
          (volume_on deal.symbol (opposite side) l.positions)
      → IsOneSided symbol l
      → TracksNet deal symbol l (apply_trade deal canonical side stop_loss take_profit l).1
  trade-TracksNet deal canonical side stop_loss take_profit l symbol e fits one_sided =
      let after = (apply_trade deal canonical side stop_loss take_profit l).1 in
      elim (Bool-cases (str_eq deal.symbol symbol)) [
        | inl same ↦
            subst (λ s. TracksNet deal s l after) ((eq_iff deal.symbol symbol).0 same)
              (IsMoved-TracksNet deal side l after e
                (apply_entry-IsMoved deal canonical side stop_loss take_profit deal.entry l fits))
        | inr distinct ↦
            still-TracksNet deal symbol l after (traded_other buy symbol deal distinct)
              (traded_other sell symbol deal distinct)
              (λ d.
                apply_trade-volume_on_other deal canonical side stop_loss take_profit symbol d
                  deal.entry l distinct)
              one_sided
      ]

  untraded :
      (d : Side) (symbol : String) (deal : ReportDeal F)
      → deal.volume ≡ 0
      → traded d symbol deal ≡ 0
  untraded d symbol deal nothing = elim (Option-cases (trade_side deal.deal_type)) [
    | inl e ↦ rw (traded, e) refl
    | inr (side, e) ↦ rw (traded, e) (ground (arith, nothing))
  ]

  module _ (deal : ReportDeal F) (canonical : String) (stop_loss take_profit : Option F)
      (l : NetLedger F) where
    -- A deal that is no trade, or has no volume, changes nothing.
    pub apply_deal-pass :
        (trade_side deal.deal_type ≡ none) ⊎ (deal.volume ≡ 0)
        → apply_deal deal canonical stop_loss take_profit l ≡ ([], l)
    unfolding apply_deal
    apply_deal-pass (inl e) = rw (apply_deal, e) refl
    apply_deal-pass (inr nothing) = elim (Option-cases (trade_side deal.deal_type)) [
      | inl e ↦ rw (apply_deal, e) refl
      | inr (side, e) ↦ rw (apply_deal, e, nothing) refl
    ]

    pub apply_deal-trade :
        (side : Side)
        → trade_side deal.deal_type ≡ some side
        → leb deal.volume 0 ≡ false
        → apply_deal deal canonical stop_loss take_profit l
          ≡ apply_trade deal canonical side stop_loss take_profit l
    unfolding apply_deal
    apply_deal-trade side e something = rw (apply_deal, e, something) refl

    -- If the deal fits the net position of its symbol and a symbol is held on one side, then after
    -- the deal its net volume has moved by what the deal traded of it, and it is held on one side.
    pub apply_deal-TracksNet :
        (symbol : String)
        → FitsLedger deal l
        → IsOneSided symbol l
        → TracksNet deal symbol l (apply_deal deal canonical stop_loss take_profit l).1
    apply_deal-TracksNet symbol fits one_sided = elim (Option-cases (trade_side deal.deal_type)) [
      | inl e ↦
          rw (apply_deal-pass (inl e)) (
            still-TracksNet deal symbol l l (no_trade buy e) (no_trade sell e) (λ d. refl)
              one_sided)
      | inr (side, e) ↦ elim (Bool-cases (leb deal.volume 0)) [
        | inl nothing ↦
            let empty : deal.volume ≡ 0 = ground (arith, nothing) in
            rw (apply_deal-pass (inr empty)) (
              still-TracksNet deal symbol l l (untraded buy symbol deal empty)
                (untraded sell symbol deal empty) (λ d. refl) one_sided)
        | inr something ↦ rw (apply_deal-trade side e something) (
            trade-TracksNet deal canonical side stop_loss take_profit l symbol e
              (fits_trade side e fits) one_sided)
      ]
    ]
      where
        no_trade : (d : Side) → trade_side deal.deal_type ≡ none → traded d symbol deal ≡ 0
        no_trade d e = rw (traded, e) refl

        fits_trade :
            (side : Side)
            → trade_side deal.deal_type ≡ some side
            → FitsLedger deal l
            → FitsNet deal.entry deal.volume
                (volume_on deal.symbol side l.positions)
                (volume_on deal.symbol (opposite side) l.positions)
        fits_trade side e fit = rw (FitsLedger, e) at fit
