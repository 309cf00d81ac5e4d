-- ===== src/Tests/LedgerTests.antt =====
-- A withdrawal that is approved and paid.
use forex_automated_copy_tra.Base.{◌≡◌, refl, List, [], ◌∷◌}
use forex_automated_copy_tra.Ledger.{Status, requested, approved, paid, withdrawals, can_transition}
use forex_automated_copy_tra.Ledger.Requests.{IsLife, paid_after_approved}

abbrev moves : List Status
moves = approved ∷ paid ∷ []

moves-IsLife : IsLife withdrawals requested moves
unfolding can_transition
moves-IsLife = (refl, (refl, tt))

paid_after_approved_example : moves ≡ approved ∷ paid ∷ []
paid_after_approved_example = paid_after_approved moves moves-IsLife refl
