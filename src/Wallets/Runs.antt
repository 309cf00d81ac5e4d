-- ===== src/Wallets/Runs.antt =====
-- Whatever an investor and the admins do, every wallet covers what is on hold.
use forex_automated_copy_tra.Base.{
  ℕ, ◌+◌, ◌-◌, ◌≤◌, ◌∷◌, [], List, Bool, false, Option, none, some, ◌≡◌, refl, arith,
}
use forex_automated_copy_tra.Drift.Signed.{ℤ, pos, difference}
use forex_automated_copy_tra.Ledger.{Status, End}
use forex_automated_copy_tra.Wallets.Store.{
  Wallets, BonusSource, available, exceeds, negative_part, credits, debits, holds,
}
use forex_automated_copy_tra.Wallets.Filing.{
  file_deposit, request_withdrawal, cancel_withdrawal, cancel_transfer, cancel_deposit,
  request_transfer,
}
use forex_automated_copy_tra.Wallets.Deciding.{
  decide_withdrawal, mark_withdrawal_paid, decide_transfer, reject_deposit, confirm_deposit,
  grant_bonus, award_rule_bonus, adjust,
}
use forex_automated_copy_tra.Wallets.Guards.{Holds, exceeds-available}
use forex_automated_copy_tra.Wallets.Covered.{
  IsSound, request_withdrawal-IsSound, cancel_withdrawal-IsSound, decide_withdrawal-IsSound,
  mark_withdrawal_paid-IsSound,
}
use forex_automated_copy_tra.Wallets.Moves.{
  cancel_transfer-IsSound, decide_transfer-IsSound, request_transfer-IsSound,
}
use forex_automated_copy_tra.Wallets.Payments.{
  file_deposit-IsSound, cancel_deposit-IsSound, reject_deposit-IsSound, grant_bonus-IsSound,
  award_rule_bonus-IsSound, adjust-IsSound,
}
use forex_automated_copy_tra.Wallets.Confirming.{confirm_deposit-IsSound}

-- One request to the portal, with the arguments of its handler.
pub data Step : Type 0 where
  filing : ℕ → ℕ → Option ℕ → Step
  withdrawing : Bool → Bool → ℕ → ℕ → ℕ → Step
  transferring : Bool → Bool → End → End → ℕ → Option ℕ → ℕ → Step
  cancelling_deposit : ℕ → Status → Step
  cancelling_withdrawal : ℕ → Status → Step
  cancelling_transfer : ℕ → Status → Step
  rejecting_deposit : ℕ → Status → Step
  confirming : (ℕ → Bool) → (ℕ → ℕ) → ℕ → Status → Option ℕ → Step
  deciding_withdrawal : ℕ → Status → Status → Step
  paying : ℕ → Status → Step
  deciding_transfer : ℕ → Status → Status → Step
  granting : ℤ → Step
  awarding : BonusSource → ℕ → Step
  adjusting : End → ℤ → Step

unfoldable pub handle : Step → Wallets → Option Wallets
unfolding file_deposit request_withdrawal request_transfer cancel_deposit cancel_withdrawal
    cancel_transfer reject_deposit confirm_deposit decide_withdrawal mark_withdrawal_paid
    decide_transfer grant_bonus award_rule_bonus adjust
handle (filing amount fee_pct target_account) s =
    some (file_deposit amount fee_pct target_account s)
handle (withdrawing payable limited least fee_pct amount) s =
    request_withdrawal payable limited least fee_pct amount s
handle (transferring owned limited source target id equity amount) s =
    request_transfer owned limited source target id equity amount s
handle (cancelling_deposit id seen) s = cancel_deposit id seen s
handle (cancelling_withdrawal id seen) s = cancel_withdrawal id seen s
handle (cancelling_transfer id seen) s = cancel_transfer id seen s
handle (rejecting_deposit id seen) s = reject_deposit id seen s
handle (confirming is_owned rule_bonus id seen given) s =
    confirm_deposit is_owned rule_bonus id seen given s
handle (deciding_withdrawal id seen new) s = decide_withdrawal id seen new s
handle (paying id seen) s = mark_withdrawal_paid id seen s
handle (deciding_transfer id seen new) s = decide_transfer id seen new s
handle (granting amount) s = grant_bonus amount s
handle (awarding source amount) s = some (award_rule_bonus source amount s)
handle (adjusting wallet amount) s = some (adjust wallet amount s)

-- A refused request is rolled back.
abbrev pub kept : Wallets → Option Wallets → Wallets
kept s none = s
kept s (some after) = after

abbrev pub run : List Step → Wallets → Wallets
run [] s = s
run (step ∷ steps) s = run steps (kept s (handle step s))

-- An adjustment takes no more than is available when it is made: the handler does not check that.
abbrev pub IsBacked : Step → Wallets → Type 0
IsBacked (adjusting wallet amount) s = exceeds (negative_part amount) (available wallet s) ≡ false
IsBacked step s = Unit

abbrev pub AreBacked : List Step → Wallets → Type 0
AreBacked [] s = Unit
AreBacked (step ∷ steps) s = IsBacked step s × AreBacked steps (kept s (handle step s))

kept-IsSound : (s : Wallets) (o : Option Wallets) → IsSound s → Holds IsSound o → IsSound (kept s o)
kept-IsSound s none sound after = sound
kept-IsSound s (some t) sound after = after

handle-IsSound :
    (step : Step) (s : Wallets) → IsBacked step s → IsSound s → Holds IsSound (handle step s)
unfolding handle
handle-IsSound (filing amount fee_pct target_account) s backed sound =
    file_deposit-IsSound amount fee_pct target_account s sound
handle-IsSound (withdrawing payable limited least fee_pct amount) s backed sound =
    request_withdrawal-IsSound payable limited least fee_pct amount s sound
handle-IsSound (transferring owned limited source target id equity amount) s backed sound =
    request_transfer-IsSound owned limited source target id equity amount s sound
handle-IsSound (cancelling_deposit id seen) s backed sound = cancel_deposit-IsSound id seen s sound
handle-IsSound (cancelling_withdrawal id seen) s backed sound =
    cancel_withdrawal-IsSound id seen s sound
handle-IsSound (cancelling_transfer id seen) s backed sound =
    cancel_transfer-IsSound id seen s sound
handle-IsSound (rejecting_deposit id seen) s backed sound = reject_deposit-IsSound id seen s sound
handle-IsSound (confirming is_owned rule_bonus id seen given) s backed sound =
    confirm_deposit-IsSound is_owned rule_bonus id seen given s sound
handle-IsSound (deciding_withdrawal id seen new) s backed sound =
    decide_withdrawal-IsSound id seen new s sound
handle-IsSound (paying id seen) s backed sound = mark_withdrawal_paid-IsSound id seen s sound
handle-IsSound (deciding_transfer id seen new) s backed sound =
    decide_transfer-IsSound id seen new s sound
handle-IsSound (granting amount) s backed sound = grant_bonus-IsSound amount s sound
handle-IsSound (awarding source amount) s backed sound =
    award_rule_bonus-IsSound source amount s sound
handle-IsSound (adjusting wallet amount) s backed sound =
    adjust-IsSound wallet amount s (exceeds-available (negative_part amount) wallet s backed) sound

run-IsSound :
    (steps : List Step) (s : Wallets) → AreBacked steps s → IsSound s → IsSound (run steps s)
run-IsSound [] s backed sound = sound
run-IsSound (step ∷ steps) s backed sound =
    run-IsSound steps (kept s (handle step s)) backed.1
      (kept-IsSound s (handle step s) sound (handle-IsSound step s backed.0 sound))

-- An investor at the start.
abbrev pub opened : Wallets
opened = record {
  entries = [];
  withdrawals = [];
  transfers = [];
  deposits = [];
  bonuses = [];
  next_withdrawal = 1;
  next_transfer = 1;
  next_deposit = 1;
  next_bonus = 1;
}

opened-IsSound : IsSound opened
unfolding holds
opened-IsSound = record {
  covered = λ w. ground arith;
  clean = record {
    unpaid = λ id waits. refl;
    known = λ id waits. absurd (ground (arith, waits));
    below = λ id there. absurd (ground (arith, there));
  };
}

difference-pos : (a b : ℕ) → b ≤ a → difference a b ≡ pos (a - b)
difference-pos a b le = ground (arith, le)

-- From an investor without requests, after any requests and decisions in any order, in which an
-- adjustment by hand takes no more than is available, the available figure of every wallet is not
-- negative.
pub available-run :
    (steps : List Step) (w : End)
    → AreBacked steps opened
    → (n : ℕ) × (available w (run steps opened) ≡ pos n)
unfolding available
available-run steps w backed =
    let s = run steps opened in
    let sound = run-IsSound steps opened backed opened-IsSound in
    (
      credits w s.entries - (debits w s.entries + holds w s),
      difference-pos (credits w s.entries) (debits w s.entries + holds w s) (sound.covered w),
    )
