-- ===== src/Wallets/Store.antt =====
-- The tables of one investor and the figures that are read from them. Money is in whole cents, as the
-- columns hold it, so that flooring a figure to cents leaves it as it is. A table has its sequence for
-- the next id.
use forex_automated_copy_tra.Base.{
  ℕ, ◌+◌, ◌-◌, ◌*◌, ◌/◌, ◌∷◌, [], List, ◌++◌, Bool, true, false, not, ◌&&◌, ◌||◌, Option, none,
  some, if◌then◌else◌, ltb, ◌==◌, min,
}
use forex_automated_copy_tra.Drift.Signed.{ℤ, pos, negsuc, difference}
use forex_automated_copy_tra.Ledger.{
  Status, requested, approved, End, main, credit, pamm, social, account,
}

pub data RefTable : Type 0 where
  ref_deposits ref_withdrawals ref_transfers ref_bonuses : RefTable

-- A row of wallet_entries.
pub record Entry : Type 0 where
  pub wallet : End
  pub amount : ℤ
  pub ref : Option (RefTable × ℕ)

pub record Withdrawal : Type 0 where
  pub id : ℕ
  pub amount : ℕ
  pub fee : ℕ
  pub net_amount : ℕ
  pub status : Status

-- Its ends are wallets, or accounts with an id that the removal of an account empties.
pub record Transfer : Type 0 where
  pub id : ℕ
  pub source : End
  pub source_account : Option ℕ
  pub target : End
  pub target_account : Option ℕ
  pub amount : ℕ
  pub status : Status
  pub equity_at_request : Option ℕ

pub record Deposit : Type 0 where
  pub id : ℕ
  pub amount : ℕ
  pub fee : ℕ
  pub status : Status
  pub target_account : Option ℕ

pub data BonusSource : Type 0 where
  signup kyc deposit manual : BonusSource

pub record Bonus : Type 0 where
  pub id : ℕ
  pub source : BonusSource
  pub source_id : Option ℕ

pub record Wallets : Type 0 where
  pub entries : List Entry
  pub withdrawals : List Withdrawal
  pub transfers : List Transfer
  pub deposits : List Deposit
  pub bonuses : List Bonus
  pub next_withdrawal : ℕ
  pub next_transfer : ℕ
  pub next_deposit : ℕ
  pub next_bonus : ℕ

abbrev pub is_end : End → End → Bool
is_end main main = true
is_end credit credit = true
is_end pamm pamm = true
is_end social social = true
is_end account account = true
is_end _ _ = false

-- Whether a source is the wallet, and no account.
abbrev pub is_from : End → End → Bool
is_from source w = is_end source w && not (is_end w account)

-- `status = ANY(OPEN_WITHDRAWAL_STATUSES)`, and the same for transfers
abbrev pub is_open : Status → Bool
is_open requested = true
is_open approved = true
is_open _ = false

abbrev pub positive_part : ℤ → ℕ
positive_part (pos n) = n
positive_part (negsuc n) = 0

abbrev pub negative_part : ℤ → ℕ
negative_part (pos n) = 0
negative_part (negsuc n) = n + 1

-- What was put into a wallet, and what was taken out of it.
abbrev pub credits : End → List Entry → ℕ
credits w [] = 0
credits w (e ∷ es) = (if is_end e.wallet w then positive_part e.amount else 0) + credits w es

abbrev pub debits : End → List Entry → ℕ
debits w [] = 0
debits w (e ∷ es) = (if is_end e.wallet w then negative_part e.amount else 0) + debits w es

-- `SUM(amount)` of a wallet's entries
unfoldable pub balance : End → List Entry → ℤ
balance w es = difference (credits w es) (debits w es)

abbrev pub held_by_withdrawals : List Withdrawal → ℕ
held_by_withdrawals [] = 0
held_by_withdrawals (r ∷ rs) = (if is_open r.status then r.amount else 0) + held_by_withdrawals rs

abbrev pub held_by_transfers : End → List Transfer → ℕ
held_by_transfers w [] = 0
held_by_transfers w (t ∷ ts) =
    (if is_from t.source w && is_open t.status then t.amount else 0) + held_by_transfers w ts

-- Withdrawals hold on the main wallet, transfers on their source.
unfoldable pub holds : End → Wallets → ℕ
holds w s =
    (if is_end w main then held_by_withdrawals s.withdrawals else 0)
    + held_by_transfers w s.transfers

unfoldable pub available : End → Wallets → ℤ
unfolding holds balance
available w s = difference (credits w s.entries) (debits w s.entries + holds w s)

-- `amount > available`
abbrev pub exceeds : ℕ → ℤ → Bool
exceeds amount (pos n) = ltb n amount
exceeds amount (negsuc n) = true

-- `fee_for`, half up to the cent; the percentage has three decimals.
unfoldable pub fee_for : ℕ → ℕ → ℕ
fee_for amount fee_pct = (amount * fee_pct + 50000) / 100000

-- `deposit_bonus`
unfoldable pub deposit_bonus : ℕ → ℕ → Option ℕ → ℕ
unfolding fee_for
deposit_bonus amount pct none = fee_for amount pct
deposit_bonus amount pct (some cap) = min (fee_for amount pct) cap

abbrev pub is_table : RefTable → RefTable → Bool
is_table ref_deposits ref_deposits = true
is_table ref_withdrawals ref_withdrawals = true
is_table ref_transfers ref_transfers = true
is_table ref_bonuses ref_bonuses = true
is_table _ _ = false

-- Whether a wallet has an entry for a reference already: the index wallet_entries_one_per_ref.
abbrev pub is_settled : RefTable → ℕ → End → List Entry → Bool
is_settled table id w [] = false
is_settled table id w (e ∷ es) =
    let rest = is_settled table id w es in
    elim e.ref [
      | none ↦ rest
      | some r ↦ (is_table r.0 table && r.1 == id && is_end e.wallet w) || rest
    ]

unfoldable pub settle : End → ℤ → RefTable → ℕ → List Entry → List Entry
settle w amount table id es =
    if is_settled table id w es
    then es
    else es ++ record { wallet = w; amount = amount; ref = some (table, id) } ∷ []

-- `-amount`
abbrev pub minus : ℕ → ℤ
minus n = difference 0 n

unfoldable pub open_account_transfers_out : ℕ → List Transfer → ℕ
open_account_transfers_out id [] = 0
open_account_transfers_out id (t ∷ ts) =
    (if is_end t.source account
        && is_open t.status
        && elim t.source_account [ none ↦ false | some a ↦ a == id ]
      then t.amount
      else 0)
    + open_account_transfers_out id ts

abbrev pub is_done : Status → Bool
is_done Status.done = true
is_done _ = false

-- Transfers from the Credit wallet into the account.
abbrev pub moves_credit_to : ℕ → Transfer → Bool
moves_credit_to id t =
    is_end t.source credit
    && is_end t.target account
    && elim t.target_account [ none ↦ false | some a ↦ a == id ]

unfoldable pub credit_transfer_open : ℕ → List Transfer → Bool
credit_transfer_open id [] = false
credit_transfer_open id (t ∷ ts) =
    (is_open t.status && moves_credit_to id t) || credit_transfer_open id ts

unfoldable pub credit_funded : ℕ → List Transfer → ℕ
credit_funded id [] = 0
credit_funded id (t ∷ ts) =
    (if is_done t.status && moves_credit_to id t then t.amount else 0) + credit_funded id ts

-- The equity is in whole cents, 0 for one below; what is left is never below 0.
unfoldable pub account_movable : ℕ → ℕ → List Transfer → ℕ
unfolding open_account_transfers_out credit_funded
account_movable id equity ts = equity - (open_account_transfers_out id ts + credit_funded id ts)
