-- ===== src/Ingress/Closes.antt =====
-- What the events of a close say.
use forex_automated_copy_tra.Base.{
  ℕ, ◌+◌, ◌-◌, ◌∷◌, [], List, String, leb, min, ◌≡◌, refl, ◌∙◌, arith, Bool-cases, inl, inr, map,
}
use forex_automated_copy_tra.Models.{MasterEvent, position_closed}
use forex_automated_copy_tra.Ingress.Book.{
  VirtualPosition, NetLedger, Consumed, consume_loop, consume_one, consume, taken, held,
  closed_event,
}
use forex_automated_copy_tra.Ingress.Held.{held-total, held-consume}
use forex_automated_copy_tra.Ingress.Walk.{cuts-pass, cuts-take}

module _ {F : Type 0} where
  -- The volume that events say was closed.
  abbrev pub closed_volume : List (MasterEvent F) → ℕ
  closed_volume [] = 0
  closed_volume (position_closed e ∷ es) = e.closed_volume + closed_volume es
  closed_volume (_ ∷ es) = closed_volume es

  closed-one :
      (canonical : String) (take : ℕ) (v : VirtualPosition F) (rest : Consumed F)
      → closed_volume (map (closed_event canonical) (consume_one take v rest).cuts)
        ≡ take + closed_volume (map (closed_event canonical) rest.cuts)
  closed-one canonical take v rest = elim (Bool-cases (leb take 0)) [
    | inl e ↦ rw (cuts-pass take v rest e) (ground (arith, e))
    | inr e ↦ rw (cuts-take take v rest e) refl
  ]

  closed-loop :
      (symbol canonical : String) (n : ℕ) (vs : List (VirtualPosition F))
      → closed_volume (map (closed_event canonical) (consume_loop symbol n vs).cuts)
        ≡ min n (held symbol vs)
  unfolding consume_loop
  closed-loop symbol canonical n [] = omega arith
  closed-loop symbol canonical n (v ∷ vs) =
      let take = taken symbol n v in
      ground (
        arith,
        closed-one canonical take v (consume_loop symbol (n - take) vs),
        closed-loop symbol canonical (n - take) vs,
      )

  -- The events of a close add up to the volume that it takes off the symbol: what is asked for, or
  -- all that is held.
  pub closed-consume :
      (symbol canonical : String) (n : ℕ) (l : NetLedger F)
      → (closed_volume (consume symbol canonical n l).0 ≡ min n (held symbol l.positions))
        × (held symbol (consume symbol canonical n l).1.positions
              + closed_volume (consume symbol canonical n l).0
            ≡ held symbol l.positions)
  unfolding consume
  closed-consume symbol canonical n l =
      let sum = closed-loop symbol canonical n l.positions in
      let left =
        held-total symbol (consume_loop symbol n l.positions).left
        ∙ (held-consume symbol n l.positions) in
      (sum, omega (arith, sum, left, held-total symbol l.positions))
