-- ===== src/Ledger/Transfers.antt =====
-- Where a transfer may take money.
use forex_automated_copy_tra.Base.{
  ◌≡◌, ◌≢◌, ◌⊎◌, inl, inr, true, some, arith, Option-cases, Bool-cases, subst,
}
use forex_automated_copy_tra.Ledger.{
  Ref, End, main, credit, account, end_of, is_pair, transfer_pair,
}

-- The money reaches the main wallet or a trading account, and is not moved in place.
abbrev pub IsAllowed : End → End → Type 0
IsAllowed from to = (from ≢ to) × ((to ≡ account) ⊎ ((to ≡ main) × (from ≢ credit)))

is_pair-IsAllowed : (from to : End) → is_pair from to ≡ true → IsAllowed from to
unfolding is_pair
is_pair-IsAllowed from to h = ground arith

-- A transfer that is accepted goes from the source's place to the target's, which are not the same,
-- and comes to a trading account, or to the main wallet if it is not from the credit wallet.
pub transfer_pair-IsAllowed :
    (source target : Ref) (pair : End × End)
    → transfer_pair source target ≡ some pair
    → (end_of source ≡ some pair.0) × (end_of target ≡ some pair.1) × IsAllowed pair.0 pair.1
unfolding transfer_pair
transfer_pair-IsAllowed source target pair h = elim (Option-cases (end_of source)) [
  | inl refused ↦ ground (arith, refused, h)
  | inr (from, at_source) ↦ elim (Option-cases (end_of target)) [
    | inl refused ↦ ground (arith, at_source, refused, h)
    | inr (to, at_target) ↦ elim (Bool-cases (is_pair from to)) [
      | inl allowed ↦
          subst
            (λ (p : End × End).
              (end_of source ≡ some p.0) × (end_of target ≡ some p.1) × IsAllowed p.0 p.1)
            (ground (arith, at_source, at_target, allowed, h))
            (at_source, at_target, is_pair-IsAllowed from to allowed)
      | inr forbidden ↦ ground (arith, at_source, at_target, forbidden, h)
    ]
  ]
]
