-- ===== src/Wallets/Sums.antt =====
-- How entries and changes of status move the sums of a wallet.
use mathlib.Core.Option.{some-injective}
use forex_automated_copy_tra.Base.{
  ℕ, ◌+◌, ◌≤◌, ◌∷◌, [], List, ◌++◌, Bool, true, false, not, ◌&&◌, ◌||◌, none, some, if◌then◌else◌,
  leb, ◌==◌, ◌≡◌, refl, sym, ◌∙◌, ap, arith, Bool-cases, inl, inr, ==_iff,
}
use forex_automated_copy_tra.Drift.Signed.{ℤ}
use forex_automated_copy_tra.Ledger.{
  Status, pending, requested, approved, confirmed, paid, done, rejected, cancelled, removed, code,
  End,
}
use forex_automated_copy_tra.Wallets.Store.{
  Entry, Withdrawal, Transfer, RefTable, settle, is_settled, credits, debits, positive_part,
  negative_part, is_end, is_from, is_open, held_by_withdrawals, held_by_transfers, minus,
}
use forex_automated_copy_tra.Wallets.Filing.{
  set_withdrawal, find_withdrawal, set_transfer, find_transfer,
}

-- Two statuses with one code are both open or both not.
is_open-code : (s : Status) → is_open s ≡ (code s == 1 || code s == 2)
is_open-code pending = refl
is_open-code requested = refl
is_open-code approved = refl
is_open-code confirmed = refl
is_open-code paid = refl
is_open-code done = refl
is_open-code rejected = refl
is_open-code cancelled = refl
is_open-code removed = refl

same_open : (s t : Status) → (code s == code t) ≡ true → is_open s ≡ is_open t
same_open s t e =
    is_open-code s
    ∙ (ap (λ c. c == 1 || c == 2) ((==_iff (code s) (code t)).0 e) ∙ sym (is_open-code t))

pub and_right : (a b : Bool) → (a && b) ≡ true → b ≡ true
and_right true b e = e
and_right false b e = absurd (ground (arith, e))

and_le : (a b c : Bool) → (b ≡ true → c ≡ true) → (a && b) ≡ true → (a && c) ≡ true
and_le true b c le e = le e
and_le false b c le e = e

weight_le :
    (a b : Bool) (m : ℕ) → (a ≡ true → b ≡ true) → (if a then m else 0) ≤ (if b then m else 0)
weight_le true b m le = rw (le refl) (omega arith)
weight_le false b m le = omega arith

weight_off : (a b : Bool) (m : ℕ) → b ≡ false → (if a && b then m else 0) ≡ 0
weight_off true b m e = rw e refl
weight_off false b m e = refl

weight_on : (a b : Bool) (m : ℕ) → b ≡ true → (if a && b then m else 0) ≡ (if a then m else 0)
weight_on true b m e = rw e refl
weight_on false b m e = refl

pub some≢none : {A : Type 0} {a : A} → some a ≡ none → ⊥
some≢none e = cc e

pub credits-append :
    (w : End) (es fs : List Entry) → credits w (es ++ fs) ≡ credits w es + credits w fs
credits-append w [] fs = omega arith
credits-append w (e ∷ es) fs = omega (arith, credits-append w es fs)

pub debits-append : (w : End) (es fs : List Entry) → debits w (es ++ fs) ≡ debits w es + debits w fs
debits-append w [] fs = omega arith
debits-append w (e ∷ es) fs = omega (arith, debits-append w es fs)

-- What a settlement adds: all of its amount, or nothing if its reference is settled.
pub credits-settle :
    (w v : End) (amount : ℤ) (table : RefTable) (id : ℕ) (es : List Entry)
    → credits w (settle v amount table id es)
      ≡ credits w es
        + (if is_end v w && not (is_settled table id v es) then positive_part amount else 0)
unfolding settle
credits-settle w v amount table id es = elim (Bool-cases (is_settled table id v es)) [
  | inl e ↦ rw e (ground arith)
  | inr e ↦ rw e (
      ground (
        arith,
        credits-append w es (record { wallet = v; amount = amount; ref = some (table, id) } ∷ []),
      ))
]

pub debits-settle :
    (w v : End) (amount : ℤ) (table : RefTable) (id : ℕ) (es : List Entry)
    → debits w (settle v amount table id es)
      ≡ debits w es
        + (if is_end v w && not (is_settled table id v es) then negative_part amount else 0)
unfolding settle
debits-settle w v amount table id es = elim (Bool-cases (is_settled table id v es)) [
  | inl e ↦ rw e (ground arith)
  | inr e ↦ rw e (
      ground (
        arith,
        debits-append w es (record { wallet = v; amount = amount; ref = some (table, id) } ∷ []),
      ))
]

pub parts-minus : (n : ℕ) → (positive_part (minus n) ≡ 0) × (negative_part (minus n) ≡ n)
parts-minus n = elim (Bool-cases (leb n 0)) [
  | inl e ↦ rw e (ground (arith, e))
  | inr e ↦ rw e (refl, ground (arith, e))
]

-- An update that opens nothing lets no hold grow.
pub held-set_withdrawal :
    (id : ℕ) (seen new : Status) (rs : List Withdrawal)
    → (is_open new ≡ true → is_open seen ≡ true)
    → held_by_withdrawals (set_withdrawal id seen new rs) ≤ held_by_withdrawals rs
unfolding set_withdrawal
held-set_withdrawal id seen new [] closes = omega arith
held-set_withdrawal id seen new (r ∷ rs) closes =
    let rest = held-set_withdrawal id seen new rs closes in
    elim (Bool-cases (r.id == id && code r.status == code seen)) [
      | inl e ↦ rw e (
          omega (
            arith,
            rest,
            weight_le (is_open new) (is_open r.status) r.amount
                (λ o. same_open r.status seen (and_right _ _ e) ∙ closes o),
          ))
      | inr e ↦ rw e (omega (arith, rest))
    ]

-- An update that closes an open request frees its amount.
pub freed-set_withdrawal :
    (id : ℕ) (seen new : Status) (r : Withdrawal) (rs : List Withdrawal)
    → is_open seen ≡ true
    → is_open new ≡ false
    → find_withdrawal id seen rs ≡ some r
    → held_by_withdrawals (set_withdrawal id seen new rs) + r.amount ≤ held_by_withdrawals rs
unfolding set_withdrawal find_withdrawal
freed-set_withdrawal id seen new r [] opened closed found = absurd (some≢none (sym found))
freed-set_withdrawal id seen new r (q ∷ rs) opened closed found =
    elim (Bool-cases (q.id == id && code q.status == code seen)) [
      | inl e ↦
          let here : some q ≡ some r = rw e at found in
          let same = ap (λ (x : Withdrawal). x.amount) (some-injective _ _ here) in
          rw (e, closed, same_open q.status seen (and_right _ _ e) ∙ opened)
            (omega (arith, same, held-set_withdrawal id seen new rs (λ o. opened)))
      | inr e ↦
          rw e (omega (arith, freed-set_withdrawal id seen new r rs opened closed (rw e at found)))
    ]

pub held-set_transfer :
    (w : End) (id : ℕ) (seen new : Status) (ts : List Transfer)
    → (is_open new ≡ true → is_open seen ≡ true)
    → held_by_transfers w (set_transfer id seen new ts) ≤ held_by_transfers w ts
unfolding set_transfer
held-set_transfer w id seen new [] closes = omega arith
held-set_transfer w id seen new (t ∷ ts) closes =
    let rest = held-set_transfer w id seen new ts closes in
    elim (Bool-cases (t.id == id && code t.status == code seen)) [
      | inl e ↦ rw e (
          omega (
            arith,
            rest,
            weight_le (is_from t.source w && is_open new) (is_from t.source w && is_open t.status)
                t.amount
                (and_le (is_from t.source w) (is_open new) (is_open t.status)
                  (λ o. same_open t.status seen (and_right _ _ e) ∙ closes o)),
          ))
      | inr e ↦ rw e (omega (arith, rest))
    ]

pub freed-set_transfer :
    (w : End) (id : ℕ) (seen new : Status) (t : Transfer) (ts : List Transfer)
    → is_open seen ≡ true
    → is_open new ≡ false
    → find_transfer id seen ts ≡ some t
    → held_by_transfers w (set_transfer id seen new ts)
        + (if is_from t.source w then t.amount else 0)
      ≤ held_by_transfers w ts
unfolding set_transfer find_transfer
freed-set_transfer w id seen new t [] opened closed found = absurd (some≢none (sym found))
freed-set_transfer w id seen new t (u ∷ ts) opened closed found =
    elim (Bool-cases (u.id == id && code u.status == code seen)) [
      | inl e ↦
          let here : some u ≡ some t = rw e at found in
          let same =
            ap (λ (x : Transfer). if is_from x.source w then x.amount else 0)
              (some-injective _ _ here) in
          rw e (
            omega (
              arith,
              same,
              held-set_transfer w id seen new ts (λ o. opened),
              weight_off (is_from u.source w) (is_open new) u.amount closed,
              weight_on (is_from u.source w) (is_open u.status) u.amount
                  (same_open u.status seen (and_right _ _ e) ∙ opened),
            ))
      | inr e ↦
          rw e (omega (arith, freed-set_transfer w id seen new t ts opened closed (rw e at found)))
    ]
