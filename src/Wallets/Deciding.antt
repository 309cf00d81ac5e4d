-- ===== src/Wallets/Deciding.antt =====
-- The admin's decisions of api/src/api/routes/portal_admin.py and portal_bonus.py. The status that the
-- handler read before its transaction is an argument, and the update asks for it again.
use forex_automated_copy_tra.Base.{
  ℕ, zero, ◌+◌, ◌-◌, ◌∷◌, [], List, ◌++◌, Bool, true, false, not, ◌&&◌, ◌||◌, Option, none, some,
  if◌then◌else◌, ltb, leb, ◌==◌,
}
use forex_automated_copy_tra.Drift.Signed.{ℤ, pos}
use forex_automated_copy_tra.Ledger.{
  Status, pending, approved, confirmed, paid, done, rejected, deposits, withdrawals, transfers,
  can_transition, End, main, credit, account, code,
}
use forex_automated_copy_tra.Wallets.Store.{
  Wallets, Entry, Transfer, Deposit, Bonus, BonusSource, signup, kyc, deposit, manual, available,
  exceeds, settle, minus, ref_deposits, ref_withdrawals, ref_transfers, ref_bonuses, is_end,
  credit_funded, negative_part,
}
use forex_automated_copy_tra.Wallets.Filing.{
  set_withdrawal, find_withdrawal, set_transfer, find_transfer, set_deposit, find_deposit,
}

abbrev pub is_status : Status → Status → Bool
is_status a b = code a == code b

unfoldable pub decide_withdrawal : ℕ → Status → Status → Wallets → Option Wallets
unfolding can_transition set_withdrawal find_withdrawal
decide_withdrawal id seen new s =
    if not (is_status new approved || is_status new rejected)
    then none
    else if not (can_transition withdrawals seen new)
    then none
    else elim (find_withdrawal id seen s.withdrawals) [
      | none ↦ none
      | some r ↦ some (record s { withdrawals = set_withdrawal id seen new s.withdrawals })
    ]

-- The update asks for `approved`, which is what `seen` must be.
unfoldable pub mark_withdrawal_paid : ℕ → Status → Wallets → Option Wallets
unfolding can_transition set_withdrawal find_withdrawal settle
mark_withdrawal_paid id seen s =
    if not (can_transition withdrawals seen paid)
    then none
    else elim (find_withdrawal id approved s.withdrawals) [
      | none ↦ none
      | some r ↦ some (record s {
        withdrawals = set_withdrawal id approved paid s.withdrawals;
        entries = settle main (minus r.amount) ref_withdrawals id s.entries;
      })
    ]

-- Whether bonus credit in the account forbids the outflow, by the equity at the request.
unfoldable pub keeps_bonus : Transfer → List Transfer → Bool
unfolding credit_funded
keeps_bonus t ts = is_end t.source account && elim t.source_account [
  | none ↦ false
  | some a ↦ elim t.equity_at_request [
    | none ↦ false
    | some e ↦ ltb (e - credit_funded a ts) t.amount
  ]
]

-- An end that was an account and lost it.
abbrev pub is_removed : End → Option ℕ → Bool
is_removed end id = is_end end account && elim id [ none ↦ true | some a ↦ false ]

abbrev pub settle_transfer : Transfer → ℕ → List Entry → List Entry
settle_transfer t id es =
    let debited =
      if is_end t.source account
      then es
      else settle t.source (minus t.amount) ref_transfers id es in
    if is_end t.target account
    then debited
    else settle t.target (pos t.amount) ref_transfers id debited

unfoldable pub decide_transfer : ℕ → Status → Status → Wallets → Option Wallets
unfolding can_transition set_transfer find_transfer keeps_bonus settle
decide_transfer id seen new s =
    if not (is_status new approved || is_status new done || is_status new rejected)
    then none
    else if not (can_transition transfers seen new)
    then none
    else elim (find_transfer id seen s.transfers) [
      | none ↦ none
      | some t ↦
          if not (is_status new rejected) && keeps_bonus t s.transfers
          then none
          else if not (is_status new done)
          then some (record s { transfers = set_transfer id seen new s.transfers })
          else if is_removed t.source t.source_account || is_removed t.target t.target_account
          then none
          else some (record s {
            transfers = set_transfer id seen done s.transfers;
            entries = settle_transfer t id s.entries;
          })
    ]

abbrev pub is_source : BonusSource → BonusSource → Bool
is_source signup signup = true
is_source kyc kyc = true
is_source deposit deposit = true
is_source manual manual = true
is_source _ _ = false

abbrev pub same_id : Option ℕ → Option ℕ → Bool
same_id (some a) (some b) = a == b
same_id _ _ = false

-- The indexes bonuses_once_per_user and bonuses_once_per_deposit.
abbrev pub is_paid : BonusSource → Option ℕ → List Bonus → Bool
is_paid source source_id [] = false
is_paid source source_id (b ∷ bs) =
    let rest = is_paid source source_id bs in
    (is_source b.source source
      && elim source [ deposit ↦ same_id b.source_id source_id | manual ↦ false | _ ↦ true ])
    || rest

unfoldable pub pay_bonus : BonusSource → ℤ → Option ℕ → Wallets → Wallets
unfolding settle
pay_bonus source (pos zero) source_id s = s
pay_bonus source amount source_id s = if is_paid source source_id s.bonuses then s else record s {
  bonuses = s.bonuses ++ record { id = s.next_bonus; source = source; source_id = source_id } ∷ [];
  next_bonus = s.next_bonus + 1;
  entries = settle credit amount ref_bonuses s.next_bonus s.entries;
}

-- `award_rule_bonus` for a signup or a verification: `amount` is what the rule pays, 0 while it is off.
-- Another source raises in `rule_bonus`, which is caught.
unfoldable pub award_rule_bonus : BonusSource → ℕ → Wallets → Wallets
unfolding pay_bonus
award_rule_bonus signup amount s = pay_bonus signup (pos amount) none s
award_rule_bonus kyc amount s = pay_bonus kyc (pos amount) none s
award_rule_bonus deposit amount s = s
award_rule_bonus manual amount s = s

-- `credited_amount` of a confirmation, with its bounds.
unfoldable pub credited_amount : Option ℕ → Deposit → Option ℕ
credited_amount given d =
    let credited : ℕ = elim given [ none ↦ d.amount - d.fee | some a ↦ a ] in
    if leb credited 0 then none else if ltb d.amount credited then none else some credited

abbrev pub insert_funding : Option ℕ → ℕ → Wallets → Wallets
insert_funding none credited s = s
insert_funding (some linked) credited s = record s {
  transfers =
      s.transfers
      ++ record {
        id = s.next_transfer;
        source = main;
        source_account = none;
        target = account;
        target_account = some linked;
        amount = credited;
        status = approved;
        equity_at_request = none;
      }
        ∷ [];
  next_transfer = s.next_transfer + 1;
}

-- A rejection. The update asks for `pending`.
unfoldable pub reject_deposit : ℕ → Status → Wallets → Option Wallets
unfolding can_transition set_deposit find_deposit
reject_deposit id seen s =
    if not (can_transition deposits seen rejected)
    then none
    else elim (find_deposit id pending s.deposits) [
      | none ↦ none
      | some d ↦ some (record s { deposits = set_deposit id pending rejected s.deposits })
    ]

-- A confirmation: `is_owned` tells whether the notice's account is still the investor's, and
-- `rule_bonus` what the deposit rule pays for an amount.
unfoldable pub confirm_deposit :
    (is_owned : ℕ → Bool) → (rule_bonus : ℕ → ℕ) → ℕ → Status → Option ℕ → Wallets → Option Wallets
unfolding can_transition set_deposit find_deposit credited_amount settle pay_bonus
confirm_deposit is_owned rule_bonus id seen given s =
    if not (can_transition deposits seen confirmed)
    then none
    else elim (find_deposit id pending s.deposits) [
      | none ↦ none
      | some d ↦ elim (credited_amount given d) [
        | none ↦ none
        | some credited ↦
            let linked : Option ℕ = elim d.target_account [
              | none ↦ none
              | some a ↦ if is_owned a then some a else none
            ] in
            some (
              pay_bonus deposit (pos (rule_bonus credited)) (some id) (
                insert_funding linked credited (record s {
                  deposits = set_deposit id pending confirmed s.deposits;
                  entries = settle main (pos credited) ref_deposits id s.entries;
                })))
      ]
    ]

-- A bonus or a claw-back by hand.
unfoldable pub grant_bonus : ℤ → Wallets → Option Wallets
unfolding available pay_bonus
grant_bonus amount s =
    if exceeds (negative_part amount) (available credit s) && ltb 0 (negative_part amount)
    then none
    else some (pay_bonus manual amount none s)

unfoldable pub adjust : End → ℤ → Wallets → Wallets
adjust wallet amount s = record s {
  entries = s.entries ++ record { wallet = wallet; amount = amount; ref = none } ∷ [];
}
