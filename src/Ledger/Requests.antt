-- ===== src/Ledger/Requests.antt =====
-- The life of a request: a chain of moves that can_transition allows.
use forex_automated_copy_tra.Base.{ℕ, suc, ◌≡◌, ◌≤◌, true, List, [], ◌∷◌, length, arith}
use forex_automated_copy_tra.Ledger.{
  Status, pending, requested, approved, paid, Table, deposits, withdrawals, transfers,
  payout_destinations, can_transition,
}

-- Each status of the list comes from the one before it.
abbrev pub IsLife : Table → Status → List Status → Type 0
IsLife table current [] = Unit
IsLife table current (new ∷ later) =
    (can_transition table current new ≡ true) × IsLife table new later

abbrev pub final_status : Status → List Status → Status
final_status current [] = current
final_status current (new ∷ later) = final_status new later

-- How many moves a status has left at most.
abbrev moves_left : Table → Status → ℕ
moves_left deposits pending = 1
moves_left withdrawals requested = 2
moves_left withdrawals approved = 1
moves_left transfers requested = 2
moves_left transfers approved = 1
moves_left payout_destinations pending = 2
moves_left payout_destinations approved = 1
moves_left _ _ = 0

moves_left-can_transition :
    (t : Table) (s n : Status) → can_transition t s n ≡ true → suc (moves_left t n) ≤ moves_left t s
unfolding can_transition
moves_left-can_transition deposits s n h = ground arith
moves_left-can_transition withdrawals s n h = ground arith
moves_left-can_transition transfers s n h = ground arith
moves_left-can_transition payout_destinations s n h = ground arith

length-moves_left :
    (t : Table) (s : Status) (later : List Status)
    → IsLife t s later
    → length later ≤ moves_left t s
length-moves_left t s [] h = omega arith
length-moves_left t s (n ∷ later) h =
    omega (arith, moves_left-can_transition t s n h.0, length-moves_left t n later h.1)

moves_left_at_most : (t : Table) (s : Status) → moves_left t s ≤ 2
moves_left_at_most t s = ground arith

-- Every request comes to an end: from any status, in any table, at most two moves can follow.
pub IsLife-length :
    (t : Table) (s : Status) (later : List Status) → IsLife t s later → length later ≤ 2
IsLife-length t s later h = omega (arith, length-moves_left t s later h, moves_left_at_most t s)

-- A requested withdrawal that ends up paid was approved and then paid, and nothing else happened to it.
pub paid_after_approved :
    (later : List Status)
    → IsLife withdrawals requested later
    → final_status requested later ≡ paid
    → later ≡ approved ∷ paid ∷ []
unfolding can_transition
paid_after_approved [] h e = ground arith
paid_after_approved (n ∷ []) h e = ground (arith, h.0)
paid_after_approved (n ∷ m ∷ []) h e = ground (arith, h.0, h.1.0)
paid_after_approved (n ∷ m ∷ k ∷ later) h e =
    absurd (omega (arith, IsLife-length withdrawals requested (n ∷ m ∷ k ∷ later) h))
