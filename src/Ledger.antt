-- ===== src/Ledger.antt =====
-- api/src/api/portal_ledger.py: which moves a request of the client portal may make, and between which
-- places money may be transferred. The figures of the ledger are in Wallets.
pub mod Requests
pub mod Transfers
use forex_automated_copy_tra.Base.{
  ℕ, Bool, true, false, ◌||◌, Option, none, some, List, [], ◌∷◌, if◌then◌else◌, String, str_eq,
  ◌==◌,
}
use forex_automated_copy_tra.Sizing.{◌>>=◌}

pub data Status : Type 0 where
  pending requested approved confirmed paid done rejected cancelled removed : Status

pub data Table : Type 0 where
  deposits withdrawals transfers payout_destinations : Table

abbrev pub code : Status → ℕ
code pending = 0
code requested = 1
code approved = 2
code confirmed = 3
code paid = 4
code done = 5
code rejected = 6
code cancelled = 7
code removed = 8

-- `_TRANSITIONS[table].get(current, set())`
unfoldable pub transitions : Table → Status → List Status
transitions deposits pending = confirmed ∷ rejected ∷ cancelled ∷ []
transitions withdrawals requested = approved ∷ rejected ∷ cancelled ∷ []
transitions withdrawals approved = paid ∷ rejected ∷ []
transitions transfers requested = approved ∷ done ∷ rejected ∷ cancelled ∷ []
transitions transfers approved = done ∷ rejected ∷ []
transitions payout_destinations pending = approved ∷ rejected ∷ removed ∷ []
transitions payout_destinations approved = removed ∷ []
transitions _ _ = []

abbrev is_in : Status → List Status → Bool
is_in s [] = false
is_in s (t ∷ ts) = if code s == code t then true else is_in s ts

unfoldable pub can_transition : Table → Status → Status → Bool
unfolding transitions
can_transition table current new = is_in new (transitions table current)

-- The reference to one end of a transfer: a dict with its kind, and with a name or an id if it has it.
pub data Ref : Type 0 where
  wallet_ref : Option String → Ref
  account_ref : Option ℕ → Ref
  other_ref : Ref

pub data End : Type 0 where
  main credit pamm social account : End

-- `... in WALLETS`
unfoldable pub wallet_named : String → Option End
wallet_named name =
    if str_eq name "main"
    then some main
    else if str_eq name "credit"
    then some credit
    else if str_eq name "pamm"
    then some pamm
    else if str_eq name "social"
    then some social
    else none

-- `_end`; `none` is the LedgerError.
unfoldable pub end_of : Ref → Option End
unfolding wallet_named
end_of (wallet_ref name) = do n ← name; wallet_named n
end_of (account_ref id) = do i ← id; some account
end_of other_ref = none

-- `... in TRANSFER_PAIRS`
unfoldable pub is_pair : End → End → Bool
is_pair main account = true
is_pair account main = true
is_pair pamm main = true
is_pair social main = true
is_pair credit account = true
is_pair _ _ = false

unfoldable pub transfer_pair : Ref → Ref → Option (End × End)
unfolding end_of is_pair
transfer_pair source target = do
  from ← end_of source
  to ← end_of target
  if is_pair from to then some (from, to) else none
