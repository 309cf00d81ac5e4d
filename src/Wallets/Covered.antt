-- ===== src/Wallets/Covered.antt =====
-- Every wallet covers what is on hold, through the requests and the decisions.
use mathlib.Core.Bool.{false≢true}
use forex_automated_copy_tra.Base.{
  ℕ, ◌+◌, ◌≤◌, ◌∷◌, [], List, ◌++◌, Bool, not, ◌&&◌, ◌||◌, some, if◌then◌else◌, ltb, leb, ◌≡◌, refl,
  arith,
}
use forex_automated_copy_tra.Ledger.{
  Status, approved, paid, rejected, cancelled, withdrawals, can_transition, End, main, credit,
  account, pamm, social,
}
use forex_automated_copy_tra.Wallets.Store.{
  Wallets, Entry, Withdrawal, Transfer, credits, debits, holds, held_by_withdrawals,
  held_by_transfers, is_from, is_open, settle, minus, available, exceeds, fee_for, ref_withdrawals,
}
use forex_automated_copy_tra.Wallets.Filing.{
  set_withdrawal, find_withdrawal, request_withdrawal, cancel_withdrawal,
}
use forex_automated_copy_tra.Wallets.Deciding.{decide_withdrawal, mark_withdrawal_paid, is_status}
use forex_automated_copy_tra.Wallets.Sums.{held-set_withdrawal, freed-set_withdrawal}
use forex_automated_copy_tra.Wallets.Guards.{
  Holds, guard, from_row, not-false, exceeds-available, settle-minus, open-withdrawal,
}
use forex_automated_copy_tra.Wallets.Clean.{IsClean, settle-IsClean}

-- What was put into a wallet covers what was taken out of it and what is on hold.
abbrev pub IsCovered : Wallets → Type 0
IsCovered s = (w : End) → debits w s.entries + holds w s ≤ credits w s.entries

pub record IsSound (s : Wallets) : Type 0 where
  pub covered : IsCovered s
  pub clean : IsClean s.entries s.deposits s.next_deposit

held_by_withdrawals-append :
    (rs : List Withdrawal) (r : Withdrawal)
    → held_by_withdrawals (rs ++ r ∷ [])
      ≡ held_by_withdrawals rs + (if is_open r.status then r.amount else 0)
held_by_withdrawals-append [] r = omega arith
held_by_withdrawals-append (q ∷ rs) r = omega (arith, held_by_withdrawals-append rs r)

pub held_by_transfers-append :
    (w : End) (ts : List Transfer) (t : Transfer)
    → held_by_transfers w (ts ++ t ∷ [])
      ≡ held_by_transfers w ts + (if is_from t.source w && is_open t.status then t.amount else 0)
held_by_transfers-append w [] t = omega arith
held_by_transfers-append w (u ∷ ts) t = omega (arith, held_by_transfers-append w ts t)

-- Fewer holds by withdrawals keep every wallet covered.
withdrawals_lower :
    (w : End) (s : Wallets) (rs : List Withdrawal)
    → held_by_withdrawals rs ≤ held_by_withdrawals s.withdrawals
    → IsCovered s
    → debits w s.entries + holds w (record s { withdrawals = rs }) ≤ credits w s.entries
unfolding holds
withdrawals_lower main s rs lower covered = omega (arith, lower, covered main)
withdrawals_lower credit s rs lower covered = covered credit
withdrawals_lower pamm s rs lower covered = covered pamm
withdrawals_lower social s rs lower covered = covered social
withdrawals_lower account s rs lower covered = covered account

-- A withdrawal that the main wallet covers may be held.
withdrawals_more :
    (w : End) (s : Wallets) (rs : List Withdrawal) (amount : ℕ)
    → held_by_withdrawals rs ≡ held_by_withdrawals s.withdrawals + amount
    → amount + (debits main s.entries + holds main s) ≤ credits main s.entries
    → IsCovered s
    → debits w s.entries + holds w (record s { withdrawals = rs }) ≤ credits w s.entries
unfolding holds
withdrawals_more main s rs amount more enough covered = omega (arith, more, enough)
withdrawals_more credit s rs amount more enough covered = covered credit
withdrawals_more pamm s rs amount more enough covered = covered pamm
withdrawals_more social s rs amount more enough covered = covered social
withdrawals_more account s rs amount more enough covered = covered account

-- What leaves a wallet was on hold before.
pub transfers_covered :
    (w : End) (s : Wallets) (es : List Entry) (ts : List Transfer) (k : ℕ)
    → debits w es ≤ debits w s.entries + k
    → credits w s.entries ≤ credits w es
    → held_by_transfers w ts + k ≤ held_by_transfers w s.transfers
    → IsCovered s
    → debits w es + holds w (record s { entries = es; transfers = ts }) ≤ credits w es
unfolding holds
transfers_covered w s es ts k out into freed covered = omega (arith, out, into, freed, covered w)

pub request_withdrawal-IsSound :
    (is_payable is_limited : Bool) (least fee_pct amount : ℕ) (s : Wallets)
    → IsSound s
    → Holds IsSound (request_withdrawal is_payable is_limited least fee_pct amount s)
unfolding request_withdrawal holds
request_withdrawal-IsSound is_payable is_limited least fee_pct amount s sound =
    guard IsSound (not is_payable) _ λ e1. guard IsSound (ltb amount least) _ λ e2.
      guard IsSound (exceeds amount (available main s)) _ λ enough.
        guard IsSound (leb amount (fee_for amount fee_pct)) _ λ e3. guard IsSound is_limited _ λ e4.
          record {
            covered = λ w.
                withdrawals_more w s _ amount (held_by_withdrawals-append s.withdrawals _)
                  (exceeds-available amount main s enough) sound.covered;
            clean = sound.clean;
          }

pub cancel_withdrawal-IsSound :
    (id : ℕ) (seen : Status) (s : Wallets) → IsSound s → Holds IsSound (cancel_withdrawal id seen s)
unfolding cancel_withdrawal holds
cancel_withdrawal-IsSound id seen s sound =
    guard IsSound (not (can_transition withdrawals seen cancelled)) _ λ legal.
      from_row IsSound (find_withdrawal id seen s.withdrawals) _ λ r found. record {
        covered = λ w.
            withdrawals_lower w s (set_withdrawal id seen cancelled s.withdrawals)
              (held-set_withdrawal id seen cancelled s.withdrawals (λ o. absurd (false≢true o)))
              sound.covered;
        clean = sound.clean;
      }

pub decide_withdrawal-IsSound :
    (id : ℕ) (seen new : Status) (s : Wallets)
    → IsSound s
    → Holds IsSound (decide_withdrawal id seen new s)
unfolding decide_withdrawal holds
decide_withdrawal-IsSound id seen new s sound =
    guard IsSound (not (is_status new approved || is_status new rejected)) _ λ named.
      guard IsSound (not (can_transition withdrawals seen new)) _ λ legal.
        from_row IsSound (find_withdrawal id seen s.withdrawals) _ λ r found. record {
          covered = λ w.
              withdrawals_lower w s (set_withdrawal id seen new s.withdrawals)
                (held-set_withdrawal id seen new s.withdrawals
                  (λ o. open-withdrawal seen new (not-false _ legal)))
                sound.covered;
          clean = sound.clean;
        }

paid_covered :
    (w : End) (id : ℕ) (s : Wallets) (r : Withdrawal)
    → find_withdrawal id approved s.withdrawals ≡ some r
    → IsCovered s
    → debits w (settle main (minus r.amount) ref_withdrawals id s.entries)
        + holds w (record s {
          withdrawals = set_withdrawal id approved paid s.withdrawals;
          entries = settle main (minus r.amount) ref_withdrawals id s.entries;
        })
      ≤ credits w (settle main (minus r.amount) ref_withdrawals id s.entries)
unfolding holds
paid_covered main id s r found covered =
    let out = settle-minus main main r.amount ref_withdrawals id s.entries in
    omega (
      arith,
      out.0,
      out.1,
      freed-set_withdrawal id approved paid r s.withdrawals refl refl found,
      covered main,
    )
paid_covered credit id s r found covered =
    let out = settle-minus credit main r.amount ref_withdrawals id s.entries in
    omega (arith, out.0, out.1, covered credit)
paid_covered pamm id s r found covered =
    let out = settle-minus pamm main r.amount ref_withdrawals id s.entries in
    omega (arith, out.0, out.1, covered pamm)
paid_covered social id s r found covered =
    let out = settle-minus social main r.amount ref_withdrawals id s.entries in
    omega (arith, out.0, out.1, covered social)
paid_covered account id s r found covered =
    let out = settle-minus account main r.amount ref_withdrawals id s.entries in
    omega (arith, out.0, out.1, covered account)

pub mark_withdrawal_paid-IsSound :
    (id : ℕ) (seen : Status) (s : Wallets)
    → IsSound s
    → Holds IsSound (mark_withdrawal_paid id seen s)
unfolding mark_withdrawal_paid
mark_withdrawal_paid-IsSound id seen s sound =
    guard IsSound (not (can_transition withdrawals seen paid)) _ λ legal.
      from_row IsSound (find_withdrawal id approved s.withdrawals) _ λ r found. record {
        covered = λ w. paid_covered w id s r found sound.covered;
        clean =
            settle-IsClean main (minus r.amount) ref_withdrawals id s.entries s.deposits
              s.next_deposit refl sound.clean;
      }
