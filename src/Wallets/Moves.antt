-- ===== src/Wallets/Moves.antt =====
-- Transfers keep every wallet covered.
use mathlib.Core.Bool.{false≢true}
use forex_automated_copy_tra.Base.{
  ℕ, ◌+◌, ◌≤◌, ◌∷◌, [], List, ◌++◌, Bool, true, false, not, ◌&&◌, ◌||◌, Option, none, some,
  if◌then◌else◌, ◌≡◌, refl, sym, ◌∙◌, ap, arith, Bool-cases, inl, inr, subst,
}
use forex_automated_copy_tra.Drift.Signed.{pos}
use forex_automated_copy_tra.Ledger.{
  Status, approved, done, rejected, cancelled, transfers, can_transition, End, main, credit,
  account, pamm, social, is_pair,
}
use forex_automated_copy_tra.Wallets.Store.{
  Wallets, Entry, Transfer, Deposit, credits, debits, holds, held_by_transfers, is_end, is_from,
  is_open, settle, minus, ref_transfers,
}
use forex_automated_copy_tra.Wallets.Filing.{
  set_transfer, find_transfer, cancel_transfer, request_transfer, insert_transfer, refuses_outflow,
  refuses_spending,
}
use forex_automated_copy_tra.Wallets.Deciding.{
  decide_transfer, is_status, keeps_bonus, is_removed, settle_transfer,
}
use forex_automated_copy_tra.Wallets.Sums.{and_right, held-set_transfer, freed-set_transfer}
use forex_automated_copy_tra.Wallets.Guards.{
  Holds, guard, choose, from_row, is_end-same, not-false, exceeds-available, settle-pos,
  settle-minus, open-transfer,
}
use forex_automated_copy_tra.Wallets.Clean.{IsClean, settle-IsClean}
use forex_automated_copy_tra.Wallets.Covered.{
  IsCovered, IsSound, transfers_covered, held_by_transfers-append,
}

or_off_right : (a b : Bool) → (a || b) ≡ false → b ≡ false
or_off_right true b e = absurd (false≢true (sym e))
or_off_right false b e = e

and_left : (a b : Bool) → (a && b) ≡ true → a ≡ true
and_left true b e = refl
and_left false b e = e

not-true : (b : Bool) → not b ≡ true → b ≡ false
not-true true e = absurd (false≢true e)
not-true false e = refl

and_true : (b : Bool) → (b && true) ≡ b
and_true true = refl
and_true false = refl

and_false : (b : Bool) → (b && false) ≡ false
and_false true = refl
and_false false = refl

-- A source that is no account is its wallet.
wallet-source :
    (source w : End) → is_end source account ≡ false → is_end source w ≡ is_from source w
wallet-source source main e = sym (and_true (is_end source main))
wallet-source source credit e = sym (and_true (is_end source credit))
wallet-source source pamm e = sym (and_true (is_end source pamm))
wallet-source source social e = sym (and_true (is_end source social))
wallet-source source account e = e ∙ sym (and_false (is_end source account))

-- No wallet is debited for an account.
account-source : (source w : End) → is_end source account ≡ true → is_from source w ≡ false
account-source account main e = refl
account-source account credit e = refl
account-source account pamm e = refl
account-source account social e = refl
account-source account account e = refl
account-source main w e = absurd (false≢true e)
account-source credit w e = absurd (false≢true e)
account-source pamm w e = absurd (false≢true e)
account-source social w e = absurd (false≢true e)

-- What a transfer takes from a wallet, and what it leaves in it.
debits-settle_transfer :
    (w : End) (t : Transfer) (id : ℕ) (es : List Entry)
    → (debits w (settle_transfer t id es)
        ≤ debits w es + (if is_from t.source w then t.amount else 0))
      × (credits w es ≤ credits w (settle_transfer t id es))
debits-settle_transfer w t id es =
    let out = settle-minus w t.source t.amount ref_transfers id es in
    let debited = settle t.source (minus t.amount) ref_transfers id es in
    let into = settle-pos w t.target t.amount ref_transfers id debited in
    let direct = settle-pos w t.target t.amount ref_transfers id es in
    elim (Bool-cases (is_end t.source account)) [
      | inl e ↦ elim (Bool-cases (is_end t.target account)) [
        | inl f ↦ rw (e, f) (omega arith, omega arith)
        | inr f ↦ rw (e, f) (omega (arith, direct.0), omega (arith, direct.1))
      ]
      | inr e ↦
          let from = ap (λ b. if b then t.amount else 0) (wallet-source t.source w e) in
          elim (Bool-cases (is_end t.target account)) [
            | inl f ↦ rw (e, f) (omega (arith, out.0, from), omega (arith, out.1))
            | inr f ↦ rw (e, f) (omega (arith, out.0, into.0, from), omega (arith, out.1, into.1))
          ]
    ]

settle_transfer-IsClean :
    (t : Transfer) (id : ℕ) (es : List Entry) (ds : List Deposit) (next : ℕ)
    → IsClean es ds next
    → IsClean (settle_transfer t id es) ds next
settle_transfer-IsClean t id es ds next clean =
    let out = settle-IsClean t.source (minus t.amount) ref_transfers id es ds next refl clean in
    let debited = settle t.source (minus t.amount) ref_transfers id es in
    elim (Bool-cases (is_end t.source account)) [
      | inl e ↦ elim (Bool-cases (is_end t.target account)) [
        | inl f ↦ rw (e, f) clean
        | inr f ↦
            rw (e, f)
              (settle-IsClean t.target (pos t.amount) ref_transfers id es ds next refl clean)
      ]
      | inr e ↦ elim (Bool-cases (is_end t.target account)) [
        | inl f ↦ rw (e, f) out
        | inr f ↦
            rw (e, f)
              (settle-IsClean t.target (pos t.amount) ref_transfers id debited ds next refl out)
      ]
    ]

transfers_lower :
    (w : End) (s : Wallets) (ts : List Transfer)
    → held_by_transfers w ts ≤ held_by_transfers w s.transfers
    → IsCovered s
    → debits w s.entries + holds w (record s { transfers = ts }) ≤ credits w s.entries
transfers_lower w s ts lower covered =
    transfers_covered w s s.entries ts 0 (omega arith) (omega arith) (omega (arith, lower)) covered

pub cancel_transfer-IsSound :
    (id : ℕ) (seen : Status) (s : Wallets) → IsSound s → Holds IsSound (cancel_transfer id seen s)
unfolding cancel_transfer
cancel_transfer-IsSound id seen s sound =
    guard IsSound (not (can_transition transfers seen cancelled)) _ λ legal.
      from_row IsSound (find_transfer id seen s.transfers) _ λ t found. record {
        covered = λ w.
            transfers_lower w s (set_transfer id seen cancelled s.transfers)
              (held-set_transfer w id seen cancelled s.transfers (λ o. absurd (false≢true o)))
              sound.covered;
        clean = sound.clean;
      }

pub decide_transfer-IsSound :
    (id : ℕ) (seen new : Status) (s : Wallets)
    → IsSound s
    → Holds IsSound (decide_transfer id seen new s)
unfolding decide_transfer
decide_transfer-IsSound id seen new s sound =
    guard IsSound (not (is_status new approved || is_status new done || is_status new rejected)) _
      λ named. guard IsSound (not (can_transition transfers seen new)) _ λ legal.
        from_row IsSound (find_transfer id seen s.transfers) _ λ t found.
          guard IsSound (not (is_status new rejected) && keeps_bonus t s.transfers) _ λ capped.
            choose IsSound (not (is_status new done)) _ _
              (λ undone. record {
                covered = λ w.
                    transfers_lower w s (set_transfer id seen new s.transfers)
                      (held-set_transfer w id seen new s.transfers
                        (λ o. open-transfer seen new (not-false _ legal)))
                      sound.covered;
                clean = sound.clean;
              })
              (λ finished.
                guard IsSound
                  (is_removed t.source t.source_account || is_removed t.target t.target_account) _
                  λ present. record {
                    covered = λ w.
                        let sums = debits-settle_transfer w t id s.entries in
                        transfers_covered w s (settle_transfer t id s.entries)
                          (set_transfer id seen done s.transfers)
                          (if is_from t.source w then t.amount else 0) sums.0 sums.1
                          (freed-set_transfer w id seen done t s.transfers
                            (open-transfer seen new (not-false _ legal)) refl found)
                          sound.covered;
                    clean =
                        settle_transfer-IsClean t id s.entries s.deposits s.next_deposit
                          sound.clean;
                  })

is_from-same :
    (source w : End) → is_from source w ≡ true → (source ≡ w) × (is_end source account ≡ false)
is_from-same source w e =
    let same = is_end-same source w (and_left (is_end source w) (not (is_end w account)) e) in
    let wallet = and_right (is_end source w) (not (is_end w account)) e in
    (same, ap (λ v. is_end v account) same ∙ not-true (is_end w account) wallet)

-- The amount fits: what it takes from its source is covered, and no other wallet loses.
fits :
    (w source : End) (amount : ℕ) (s : Wallets)
    → (is_end source account ≡ false
        → amount + (debits source s.entries + holds source s) ≤ credits source s.entries)
    → IsCovered s
    → (if is_from source w then amount else 0) + (debits w s.entries + holds w s)
      ≤ credits w s.entries
fits w source amount s enough covered = elim (Bool-cases (is_from source w)) [
  | inl from ↦
      let same = is_from-same source w from in
      rw from (
        subst (λ v. amount + (debits v s.entries + holds v s) ≤ credits v s.entries) same.0
          (enough same.1))
  | inr away ↦ rw away (omega (arith, covered w))
]

-- A new row and its entries, when what it holds is covered too.
pub row_covered :
    (w : End) (s : Wallets) (es : List Entry) (row : Transfer)
    → (if is_from row.source w && is_open row.status then row.amount else 0)
        + (debits w es + holds w s)
      ≤ credits w es
    → debits w es + holds w (record s { entries = es; transfers = s.transfers ++ row ∷ [] })
      ≤ credits w es
unfolding holds
row_covered w s es row room = omega (arith, room, held_by_transfers-append w s.transfers row)

insert_covered :
    (w source target : End) (id : Option ℕ) (amount : ℕ) (equity : Option ℕ) (s : Wallets)
    → (is_end source account ≡ false
        → amount + (debits source s.entries + holds source s) ≤ credits source s.entries)
    → IsCovered s
    → debits w (insert_transfer source target id amount equity s).entries
        + holds w (insert_transfer source target id amount equity s)
      ≤ credits w (insert_transfer source target id amount equity s).entries
unfolding insert_transfer holds
insert_covered w source target id amount equity s enough covered =
    let room = fits w source amount s enough covered in
    let on = and_true (is_from source w) in
    let off = and_false (is_from source w) in
    elim (Bool-cases (is_end source account)) [
      | inl e ↦ rw e (
          row_covered w s s.entries _
            (rw (on, account-source source w e) (omega (arith, covered w))))
      | inr e ↦ elim (Bool-cases (is_end target account)) [
        | inl f ↦ rw (e, f) (row_covered w s s.entries _ (rw on room))
        | inr f ↦
            let out = settle-minus w source amount ref_transfers s.next_transfer s.entries in
            let debited = settle source (minus amount) ref_transfers s.next_transfer s.entries in
            let into = settle-pos w target amount ref_transfers s.next_transfer debited in
            let from = ap (λ b. if b then amount else 0) (wallet-source source w e) in
            rw (e, f)
              (row_covered w s (settle target (pos amount) ref_transfers s.next_transfer debited) _
                (rw off (omega (arith, out.0, out.1, into.0, into.1, from, room))))
      ]
    ]

insert-IsClean :
    (source target : End) (id : Option ℕ) (amount : ℕ) (equity : Option ℕ) (s : Wallets)
    → IsClean s.entries s.deposits s.next_deposit
    → IsClean (insert_transfer source target id amount equity s).entries s.deposits s.next_deposit
unfolding insert_transfer
insert-IsClean source target id amount equity s clean =
    elim (Bool-cases (not (is_end source account) && not (is_end target account))) [
      | inl instant ↦ rw instant (
          settle-IsClean target (pos amount) ref_transfers s.next_transfer
            (settle source (minus amount) ref_transfers s.next_transfer s.entries) s.deposits
            s.next_deposit refl
            (settle-IsClean source (minus amount) ref_transfers s.next_transfer s.entries s.deposits
              s.next_deposit refl clean))
      | inr waits ↦ rw waits clean
    ]

-- The cap on what a wallet spends.
spending_fits :
    (source target : End) (id : Option ℕ) (amount : ℕ) (s : Wallets)
    → (not (is_end source account) && refuses_spending source target id amount s) ≡ false
    → is_end source account ≡ false
    → amount + (debits source s.entries + holds source s) ≤ credits source s.entries
unfolding refuses_spending
spending_fits source target id amount s spends e =
    exceeds-available amount source s (or_off_right _ _ (rw e at spends))

pub request_transfer-IsSound :
    (is_owned is_limited : Bool) (source target : End) (id : ℕ) (equity : Option ℕ) (amount : ℕ)
    (s : Wallets)
    → IsSound s
    → Holds IsSound (request_transfer is_owned is_limited source target id equity amount s)
unfolding request_transfer
request_transfer-IsSound is_owned is_limited source target id equity amount s sound =
    guard IsSound (not (is_pair source target)) _ λ legal.
      guard IsSound ((is_end source account || is_end target account) && not is_owned) _ λ owned.
        guard IsSound (is_end source account && refuses_outflow id amount equity s.transfers) _
          λ outflow.
            guard IsSound (not (is_end source account) && refuses_spending source target _ amount s)
              _
              λ spends. guard IsSound is_limited _ λ unlimited. record {
                covered = λ w.
                    insert_covered w source target
                      (if is_end source account || is_end target account then some id else none)
                      amount (if is_end source account then equity else none) s
                      (spending_fits source target _ amount s spends) sound.covered;
                clean =
                    insert-IsClean source target
                      (if is_end source account || is_end target account then some id else none)
                      amount (if is_end source account then equity else none) s sound.clean;
              }
