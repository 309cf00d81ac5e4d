-- ===== src/Wallets/Confirming.antt =====
-- The confirmation of a deposit keeps every wallet covered.
use forex_automated_copy_tra.Base.{
  ℕ, ◌+◌, ◌≤◌, ◌∷◌, [], List, ◌++◌, Bool, true, false, not, ◌&&◌, Option, none, some, if◌then◌else◌,
  ◌≡◌, refl, sym, arith, Bool-cases, inl, inr, subst,
}
use forex_automated_copy_tra.Drift.Signed.{ℤ, pos}
use forex_automated_copy_tra.Ledger.{
  Status, pending, confirmed, deposits, can_transition, End, main, credit,
}
use forex_automated_copy_tra.Wallets.Store.{
  is_from, BonusSource, Wallets, Entry, credits, holds, is_end, settle, ref_deposits,
}
use forex_automated_copy_tra.Wallets.Filing.{set_deposit, find_deposit}
use forex_automated_copy_tra.Wallets.Deciding.{confirm_deposit, credited_amount, insert_funding}
use forex_automated_copy_tra.Wallets.Sums.{credits-settle}
use forex_automated_copy_tra.Wallets.Guards.{Holds, guard, from_row, settle-pos}
use forex_automated_copy_tra.Wallets.Clean.{
  IsClean, is_pending, confirm-IsClean, is_pending-find_deposit, deposit_entry, is_paid_in,
}
use forex_automated_copy_tra.Wallets.Payments.{pay_bonus-IsSound}
use forex_automated_copy_tra.Wallets.Moves.{row_covered}
use forex_automated_copy_tra.Wallets.Covered.{IsSound}

-- A payment for a new reference is written.
settle-new :
    (amount : ℤ) (id : ℕ) (es : List Entry)
    → is_paid_in id es ≡ false
    → settle main amount ref_deposits id es ≡ es ++ deposit_entry id amount ∷ []
unfolding settle
settle-new amount id es fresh = rw fresh refl

credits-new :
    (w : End) (n id : ℕ) (es : List Entry)
    → is_paid_in id es ≡ false
    → (if is_from main w && true then n else 0) + credits w es
      ≤ credits w (settle main (pos n) ref_deposits id es)
credits-new w n id es fresh =
    let sum = credits-settle w main (pos n) ref_deposits id es in
    elim (Bool-cases (is_end main w)) [
      | inl e ↦ ground (arith, e, fresh, sum)
      | inr e ↦ ground (arith, e, fresh, sum)
    ]

-- The store of a confirmation before its bonus.
abbrev confirmed_store : Option ℕ → ℕ → ℕ → Wallets → Wallets
confirmed_store linked credited id s = insert_funding linked credited (record s {
  deposits = set_deposit id pending confirmed s.deposits;
  entries = settle main (pos credited) ref_deposits id s.entries;
})

confirmed-IsClean :
    (credited id : ℕ) (s : Wallets)
    → is_pending id s.deposits ≡ true
    → IsClean s.entries s.deposits s.next_deposit
    → IsClean
        (settle main (pos credited) ref_deposits id s.entries)
        (set_deposit id pending confirmed s.deposits)
        s.next_deposit
confirmed-IsClean credited id s waits clean =
    subst (λ es. IsClean es (set_deposit id pending confirmed s.deposits) s.next_deposit)
      (sym (settle-new (pos credited) id s.entries (clean.unpaid id waits)))
      (confirm-IsClean id (pos credited) confirmed s.entries s.deposits s.next_deposit refl waits
        clean)

confirmed_store-IsSound :
    (linked : Option ℕ) (credited id : ℕ) (s : Wallets)
    → is_pending id s.deposits ≡ true
    → IsSound s
    → IsSound (confirmed_store linked credited id s)
unfolding holds
confirmed_store-IsSound none credited id s waits sound = record {
  covered = λ w.
      let paid_in = settle-pos w main credited ref_deposits id s.entries in
      omega (arith, paid_in.0, paid_in.1, sound.covered w);
  clean = confirmed-IsClean credited id s waits sound.clean;
}
confirmed_store-IsSound (some linked) credited id s waits sound = record {
  covered = λ w.
      let paid_in = settle-pos w main credited ref_deposits id s.entries in
      let new = credits-new w credited id s.entries (sound.clean.unpaid id waits) in
      row_covered w s (settle main (pos credited) ref_deposits id s.entries) _
        (omega (arith, paid_in.0, new, sound.covered w));
  clean = confirmed-IsClean credited id s waits sound.clean;
}

pub confirm_deposit-IsSound :
    (is_owned : ℕ → Bool) (rule_bonus : ℕ → ℕ) (id : ℕ) (seen : Status) (given : Option ℕ)
    (s : Wallets)
    → IsSound s
    → Holds IsSound (confirm_deposit is_owned rule_bonus id seen given s)
unfolding confirm_deposit
confirm_deposit-IsSound is_owned rule_bonus id seen given s sound =
    guard IsSound (not (can_transition deposits seen confirmed)) _ λ legal.
      from_row IsSound (find_deposit id pending s.deposits) _ λ d found.
        from_row IsSound (credited_amount given d) _ λ credited accepted.
          let linked : Option ℕ = elim d.target_account [
            | none ↦ none
            | some a ↦ if is_owned a then some a else none
          ] in
          let stored =
            confirmed_store-IsSound linked credited id s
              (is_pending-find_deposit id d s.deposits found) sound in
          pay_bonus-IsSound BonusSource.deposit (pos (rule_bonus credited)) (some id)
            (confirmed_store linked credited id s) (omega (arith, stored.covered credit)) stored
