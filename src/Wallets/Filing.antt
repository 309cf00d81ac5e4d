-- ===== src/Wallets/Filing.antt =====
-- The investor's requests of api/src/api/routes/portal_investor.py. `none` is an HTTP error, which
-- rolls the transaction back. What other tables and services answer is an argument: whether the payout
-- account is the investor's and approved, which accounts are linked, the rate limit, the settings and
-- the equity. A cancellation reads the request's status before its update, so the status it saw is an
-- argument too.
use forex_automated_copy_tra.Base.{
  ℕ, ◌+◌, ◌-◌, ◌∷◌, [], List, ◌++◌, Bool, false, not, ◌&&◌, ◌||◌, Option, none, some, if◌then◌else◌,
  ltb, leb, ◌==◌,
}
use forex_automated_copy_tra.Drift.Signed.{pos}
use forex_automated_copy_tra.Ledger.{
  Status, pending, requested, done, cancelled, deposits, withdrawals, transfers, can_transition,
  End, main, credit, account, is_pair, code,
}
use forex_automated_copy_tra.Wallets.Store.{
  Wallets, Withdrawal, Transfer, Deposit, available, exceeds, fee_for, settle, minus, ref_transfers,
  is_end, credit_transfer_open, credit_funded, open_account_transfers_out, account_movable,
}

-- `UPDATE withdrawals SET status = ... WHERE id = ... AND status = ...`
unfoldable pub set_withdrawal : ℕ → Status → Status → List Withdrawal → List Withdrawal
set_withdrawal id seen new [] = []
set_withdrawal id seen new (r ∷ rs) =
    let rest = set_withdrawal id seen new rs in
    if r.id == id && code r.status == code seen then record r { status = new } ∷ rest else r ∷ rest

-- The row that such an update returns.
unfoldable pub find_withdrawal : ℕ → Status → List Withdrawal → Option Withdrawal
find_withdrawal id seen [] = none
find_withdrawal id seen (r ∷ rs) =
    let rest = find_withdrawal id seen rs in
    if r.id == id && code r.status == code seen then some r else rest

unfoldable pub set_transfer : ℕ → Status → Status → List Transfer → List Transfer
set_transfer id seen new [] = []
set_transfer id seen new (t ∷ ts) =
    let rest = set_transfer id seen new ts in
    if t.id == id && code t.status == code seen then record t { status = new } ∷ rest else t ∷ rest

unfoldable pub find_transfer : ℕ → Status → List Transfer → Option Transfer
find_transfer id seen [] = none
find_transfer id seen (t ∷ ts) =
    let rest = find_transfer id seen ts in
    if t.id == id && code t.status == code seen then some t else rest

unfoldable pub set_deposit : ℕ → Status → Status → List Deposit → List Deposit
set_deposit id seen new [] = []
set_deposit id seen new (d ∷ ds) =
    let rest = set_deposit id seen new ds in
    if d.id == id && code d.status == code seen then record d { status = new } ∷ rest else d ∷ rest

unfoldable pub find_deposit : ℕ → Status → List Deposit → Option Deposit
find_deposit id seen [] = none
find_deposit id seen (d ∷ ds) =
    let rest = find_deposit id seen ds in
    if d.id == id && code d.status == code seen then some d else rest

-- The insert of a deposit notice, with its fee.
unfoldable pub file_deposit : ℕ → ℕ → Option ℕ → Wallets → Wallets
unfolding fee_for
file_deposit amount fee_pct target_account s = record s {
  deposits =
      s.deposits
      ++ record {
        id = s.next_deposit;
        amount = amount;
        fee = fee_for amount fee_pct;
        status = pending;
        target_account = target_account;
      }
        ∷ [];
  next_deposit = s.next_deposit + 1;
}

unfoldable pub request_withdrawal :
    (is_payable is_limited : Bool) → ℕ → ℕ → ℕ → Wallets → Option Wallets
unfolding fee_for available
request_withdrawal is_payable is_limited least fee_pct amount s =
    let fee = fee_for amount fee_pct in
    if not is_payable
    then none
    else if ltb amount least
    then none
    else if exceeds amount (available main s)
    then none
    else if leb amount fee
    then none
    else if is_limited
    then none
    else some (record s {
      withdrawals =
          s.withdrawals
          ++ record {
            id = s.next_withdrawal;
            amount = amount;
            fee = fee;
            net_amount = amount - fee;
            status = requested;
          }
            ∷ [];
      next_withdrawal = s.next_withdrawal + 1;
    })

unfoldable pub cancel_withdrawal : ℕ → Status → Wallets → Option Wallets
unfolding can_transition set_withdrawal find_withdrawal
cancel_withdrawal id seen s =
    if not (can_transition withdrawals seen cancelled)
    then none
    else elim (find_withdrawal id seen s.withdrawals) [
      | none ↦ none
      | some r ↦ some (record s { withdrawals = set_withdrawal id seen cancelled s.withdrawals })
    ]

unfoldable pub cancel_transfer : ℕ → Status → Wallets → Option Wallets
unfolding can_transition set_transfer find_transfer
cancel_transfer id seen s =
    if not (can_transition transfers seen cancelled)
    then none
    else elim (find_transfer id seen s.transfers) [
      | none ↦ none
      | some t ↦ some (record s { transfers = set_transfer id seen cancelled s.transfers })
    ]

unfoldable pub cancel_deposit : ℕ → Status → Wallets → Option Wallets
unfolding can_transition set_deposit find_deposit
cancel_deposit id seen s =
    if not (can_transition deposits seen cancelled)
    then none
    else elim (find_deposit id seen s.deposits) [
      | none ↦ none
      | some d ↦ some (record s { deposits = set_deposit id seen cancelled s.deposits })
    ]

-- The caps of a transfer out of an account: true when it is refused.
unfoldable pub refuses_outflow : ℕ → ℕ → Option ℕ → List Transfer → Bool
unfolding credit_transfer_open credit_funded account_movable
refuses_outflow id amount equity ts = credit_transfer_open id ts || elim equity [
  | some e ↦ ltb (account_movable id e ts) amount
  | none ↦ ltb 0 (credit_funded id ts)
]

-- The caps of a transfer out of a wallet.
unfoldable pub refuses_spending : End → End → Option ℕ → ℕ → Wallets → Bool
unfolding available open_account_transfers_out
refuses_spending source target id amount s =
    (is_end source credit
      && is_end target account
      && elim id [ none ↦ false | some a ↦ ltb 0 (open_account_transfers_out a s.transfers) ])
    || exceeds amount (available source s)

-- The insert of a transfer, and the settlement of one between two wallets.
unfoldable pub insert_transfer : End → End → Option ℕ → ℕ → Option ℕ → Wallets → Wallets
unfolding settle
insert_transfer source target id amount equity s =
    let instant = not (is_end source account) && not (is_end target account) in
    record s {
      transfers =
          s.transfers
          ++ record {
            id = s.next_transfer;
            source = source;
            source_account = if is_end source account then id else none;
            target = target;
            target_account = if is_end target account then id else none;
            amount = amount;
            status = if instant then done else requested;
            equity_at_request = equity;
          }
            ∷ [];
      next_transfer = s.next_transfer + 1;
      entries =
          if instant
          then settle target (pos amount) ref_transfers s.next_transfer
              (settle source (minus amount) ref_transfers s.next_transfer s.entries)
          else s.entries;
    }

-- `is_owned` tells whether the account that the request names is the investor's.
unfoldable pub request_transfer :
    (is_owned is_limited : Bool) → End → End → ℕ → Option ℕ → ℕ → Wallets → Option Wallets
unfolding is_pair refuses_outflow refuses_spending insert_transfer
request_transfer is_owned is_limited source target id equity amount s =
    let takes_account = is_end source account || is_end target account in
    let account_id = if takes_account then some id else none in
    if not (is_pair source target)
    then none
    else if takes_account && not is_owned
    then none
    else if is_end source account && refuses_outflow id amount equity s.transfers
    then none
    else if not (is_end source account) && refuses_spending source target account_id amount s
    then none
    else if is_limited
    then none
    else some (
        insert_transfer source target account_id amount
          (if is_end source account then equity else none) s)
