-- ===== src/Ingress/Held.antt =====
-- What a deal does to the volumes that the ledger holds.
use forex_automated_copy_tra.Base.{
  ℕ, ◌+◌, ◌-◌, ◌≤◌, ◌∷◌, [], List, Bool, true, false, String, str_eq, if◌then◌else◌, leb, ◌≡◌, refl,
  arith, Bool-cases, inl, inr, ap,
}
use forex_automated_copy_tra.Models.{Side}
use forex_automated_copy_tra.Ingress.Book.{
  VirtualPosition, held, place, sort_onto, taken, consume_loop, Consumed, not_after, consume_one,
}

weight_off : (on : Bool) (m : ℕ) → on ≡ false → (if on then m else 0) ≡ 0
weight_off on m off = rw off refl

-- The test of a symbol's positions, on either side.
abbrev pub of_symbol : String → String → Side → Bool
of_symbol symbol s side = str_eq s symbol

module _ {F : Type 0} where
  -- The open volume of the positions whose symbol and side pass a test.
  abbrev pub total : (String → Side → Bool) → List (VirtualPosition F) → ℕ
  total test [] = 0
  total test (v ∷ vs) = (if test v.symbol v.side then v.volume_left else 0) + total test vs

  pub taken_le :
      (symbol : String) (n : ℕ) (v : VirtualPosition F) → taken symbol n v ≤ v.volume_left
  taken_le symbol n v = ground arith

  module _ (test : String → Side → Bool) where
    total-place :
        (v : VirtualPosition F) (ws : List (VirtualPosition F))
        → total test (place v ws) ≡ total test (v ∷ ws)
    unfolding place
    total-place v [] = refl
    total-place v (w ∷ ws) = elim (Bool-cases (not_after w v)) [
      | inl e ↦ rw e omega (arith, total-place v ws)
      | inr e ↦ rw e refl
    ]

    pub total-sort_onto :
        (sorted vs : List (VirtualPosition F))
        → total test (sort_onto sorted vs) ≡ total test sorted + total test vs
    unfolding sort_onto
    total-sort_onto sorted [] = omega arith
    total-sort_onto sorted (v ∷ vs) =
        omega (arith, total-sort_onto (place v sorted) vs, total-place v sorted)

    total-consume_one :
        (take : ℕ) (v : VirtualPosition F) (rest : Consumed F)
        → take ≤ v.volume_left
        → total test (consume_one take v rest).left
          ≡ (if test v.symbol v.side then v.volume_left - take else 0) + total test rest.left
    total-consume_one take v rest enough = elim (Bool-cases (leb take 0)) [
      | inl nothing ↦ rw nothing ground (arith, nothing)
      | inr something ↦ elim (Bool-cases (leb (v.volume_left - take) 0)) [
        | inl emptied ↦ rw (something, emptied) ground (arith, emptied)
        | inr kept ↦ rw (something, kept) refl
      ]
    ]

    -- The loop takes nothing from positions that pass a test the consumed symbol fails.
    pub total-consume_other :
        (symbol : String) (n : ℕ) (vs : List (VirtualPosition F))
        → ((s : String) (side : Side) → str_eq s symbol ≡ true → test s side ≡ false)
        → total test (consume_loop symbol n vs).left ≡ total test vs
    unfolding consume_loop
    total-consume_other symbol n [] apart = refl
    total-consume_other symbol n (v ∷ vs) apart = elim (Bool-cases (str_eq v.symbol symbol)) [
      | inl e ↦
          let rest = consume_loop symbol (n - taken symbol n v) vs in
          omega (
            arith,
            total-consume_one (taken symbol n v) v rest (taken_le symbol n v),
            total-consume_other symbol (n - taken symbol n v) vs apart,
            weight_off (test v.symbol v.side) (v.volume_left - taken symbol n v)
                (apart v.symbol v.side e),
            weight_off (test v.symbol v.side) v.volume_left (apart v.symbol v.side e),
          )
      | inr e ↦ rw e (
          ap (λ m. (if test v.symbol v.side then v.volume_left else 0) + m)
            (total-consume_other symbol (n - 0) vs apart))
    ]

    -- No volume grows.
    pub total-consume_le :
        (symbol : String) (n : ℕ) (vs : List (VirtualPosition F))
        → total test (consume_loop symbol n vs).left ≤ total test vs
    unfolding consume_loop
    total-consume_le symbol n [] = omega arith
    total-consume_le symbol n (v ∷ vs) =
        let rest = consume_loop symbol (n - taken symbol n v) vs in
        ground (
          arith,
          total-consume_one (taken symbol n v) v rest (taken_le symbol n v),
          total-consume_le symbol (n - taken symbol n v) vs,
        )

  pub held-total :
      (symbol : String) (vs : List (VirtualPosition F))
      → held symbol vs ≡ total (of_symbol symbol) vs
  held-total symbol [] = refl
  held-total symbol (v ∷ vs) =
      ap (λ m. (if str_eq v.symbol symbol then v.volume_left else 0) + m) (held-total symbol vs)

  -- The symbol's volume falls by what is asked for, or to nothing.
  pub held-consume :
      (symbol : String) (n : ℕ) (vs : List (VirtualPosition F))
      → total (of_symbol symbol) (consume_loop symbol n vs).left ≡ total (of_symbol symbol) vs - n
  unfolding consume_loop
  held-consume symbol n [] = omega arith
  held-consume symbol n (v ∷ vs) =
      let rest = consume_loop symbol (n - taken symbol n v) vs in
      ground (
        arith,
        total-consume_one (of_symbol symbol) (taken symbol n v) v rest (taken_le symbol n v),
        held-consume symbol (n - taken symbol n v) vs,
      )
