-- ===== src/Wallets/Clean.antt =====
-- A deposit that is pending has no entry yet.
use mathlib.Core.Bool.{false≢true}
use forex_automated_copy_tra.Base.{
  ℕ, ◌+◌, ◌<◌, ◌∷◌, [], List, ◌++◌, Bool, true, false, ◌&&◌, ◌||◌, some, ◌==◌, ==_iff, ◌≡◌, refl,
  sym, ◌∙◌, ap, arith, Bool-cases, inl, inr,
}
use forex_automated_copy_tra.Drift.Signed.{ℤ}
use forex_automated_copy_tra.Ledger.{Status, pending, End, main, code}
use forex_automated_copy_tra.Wallets.Store.{
  Entry, Deposit, RefTable, ref_deposits, settle, is_settled, is_table,
}
use forex_automated_copy_tra.Wallets.Sums.{some≢none}
use forex_automated_copy_tra.Wallets.Filing.{set_deposit, find_deposit}

-- Whether a deposit was paid into the main wallet.
abbrev pub is_paid_in : ℕ → List Entry → Bool
is_paid_in id es = is_settled ref_deposits id main es

or_false : (b : Bool) → (b || false) ≡ b
or_false true = refl
or_false false = refl

and_false : (b : Bool) → (b && false) ≡ false
and_false true = refl
and_false false = refl

or_right : (a b : Bool) → b ≡ true → (a || b) ≡ true
or_right true b e = refl
or_right false b e = e

or_off : {a b : Bool} → a ≡ false → (a || b) ≡ true → b ≡ true
or_off {a} {b} off e = rw off at e

or_imp : (a : Bool) {b c : Bool} → (b ≡ true → c ≡ true) → (a || b) ≡ true → (a || c) ≡ true
or_imp true le e = refl
or_imp false le e = le e

abbrev is_waiting : ℕ → Deposit → Bool
is_waiting id d = d.id == id && code d.status == code pending

abbrev pub is_pending : ℕ → List Deposit → Bool
is_pending id [] = false
is_pending id (d ∷ ds) = is_waiting id d || is_pending id ds

pub record IsClean (es : List Entry) (ds : List Deposit) (next : ℕ) : Type 0 where
  pub unpaid : (id : ℕ) → is_pending id ds ≡ true → is_paid_in id es ≡ false
  pub known : (id : ℕ) → is_pending id ds ≡ true → id < next
  pub below : (id : ℕ) → is_paid_in id es ≡ true → id < next

is_settled-append :
    (id : ℕ) (e : Entry) (es : List Entry)
    → is_paid_in id (es ++ e ∷ []) ≡ (is_paid_in id es || is_paid_in id (e ∷ []))
is_settled-append id e [] = refl
is_settled-append id e (f ∷ es) = grind (arith, is_settled-append id e es)

-- Entries of other references leave the deposits as they are.
pub entry-IsClean :
    (e : Entry) (es : List Entry) (ds : List Deposit) (next : ℕ)
    → ((id : ℕ) → is_paid_in id (e ∷ []) ≡ false)
    → IsClean es ds next
    → IsClean (es ++ e ∷ []) ds next
entry-IsClean e es ds next foreign clean =
    let same : (id : ℕ) → is_paid_in id (es ++ e ∷ []) ≡ is_paid_in id es =
      λ id. is_settled-append id e es ∙ rw (foreign id) (or_false (is_paid_in id es)) in
    record {
      unpaid = λ id waits. same id ∙ clean.unpaid id waits;
      known = clean.known;
      below = λ id there. clean.below id (sym (same id) ∙ there);
    }

pub settle-IsClean :
    (v : End) (amount : ℤ) (table : RefTable) (id : ℕ) (es : List Entry) (ds : List Deposit)
    (next : ℕ)
    → is_table table ref_deposits ≡ false
    → IsClean es ds next
    → IsClean (settle v amount table id es) ds next
unfolding settle
settle-IsClean v amount table id es ds next foreign clean =
    elim (Bool-cases (is_settled table id v es)) [
      | inl e ↦ rw e clean
      | inr e ↦ rw e (entry-IsClean _ es ds next (λ j. rw foreign refl) clean)
    ]

moved_on :
    (id k : ℕ) (new : Status)
    → (code new == code pending) ≡ false
    → (k == id && code new == code pending) ≡ false
moved_on id k new moved = rw moved (and_false (k == id))

pub is_pending-find_deposit :
    (id : ℕ) (d : Deposit) (ds : List Deposit)
    → find_deposit id pending ds ≡ some d
    → is_pending id ds ≡ true
unfolding find_deposit
is_pending-find_deposit id d [] found = absurd (some≢none (sym found))
is_pending-find_deposit id d (e ∷ ds) found = elim (Bool-cases (is_waiting id e)) [
  | inl e' ↦ rw e' refl
  | inr e' ↦ rw e' (is_pending-find_deposit id d ds (rw e' at found))
]

is_pending-set_deposit :
    (id k : ℕ) (seen new : Status) (ds : List Deposit)
    → (code new == code pending) ≡ false
    → is_pending id (set_deposit k seen new ds) ≡ true
    → is_pending id ds ≡ true
unfolding set_deposit
is_pending-set_deposit id k seen new [] moved waits = waits
is_pending-set_deposit id k seen new (e ∷ ds) moved waits =
    elim (Bool-cases (e.id == k && code e.status == code seen)) [
      | inl here ↦ or_right (is_waiting id e) (is_pending id ds) (
          is_pending-set_deposit id k seen new ds moved
            (or_off (moved_on id e.id new moved) (rw here at waits)))
      | inr there ↦
          or_imp (is_waiting id e) (is_pending-set_deposit id k seen new ds moved)
            (rw there at waits)
    ]

decided-set_deposit :
    (id : ℕ) (new : Status) (ds : List Deposit)
    → (code new == code pending) ≡ false
    → is_pending id (set_deposit id pending new ds) ≡ false
unfolding set_deposit
decided-set_deposit id new [] moved = refl
decided-set_deposit id new (e ∷ ds) moved =
    let rest = decided-set_deposit id new ds moved in
    elim (Bool-cases (is_waiting id e)) [
      | inl here ↦ rw here (rw (moved_on id e.id new moved, rest) refl)
      | inr there ↦ rw there (rw (there, rest) refl)
    ]

pub set_deposit-IsClean :
    (k : ℕ) (seen new : Status) (es : List Entry) (ds : List Deposit) (next : ℕ)
    → (code new == code pending) ≡ false
    → IsClean es ds next
    → IsClean es (set_deposit k seen new ds) next
set_deposit-IsClean k seen new es ds next moved clean = record {
  unpaid = λ id waits. clean.unpaid id (is_pending-set_deposit id k seen new ds moved waits);
  known = λ id waits. clean.known id (is_pending-set_deposit id k seen new ds moved waits);
  below = clean.below;
}

is_pending-append :
    (id : ℕ) (e : Deposit) (ds : List Deposit)
    → is_pending id (ds ++ e ∷ []) ≡ (is_pending id ds || is_waiting id e)
is_pending-append id e [] = or_false (is_waiting id e)
is_pending-append id e (f ∷ ds) = ground (arith, is_pending-append id e ds)

at_id : (id : ℕ) (d : Deposit) → is_waiting id d ≡ true → id ≡ d.id
at_id id d e = elim (Bool-cases (d.id == id)) [
  | inl same ↦ sym ((==_iff d.id id).0 same)
  | inr apart ↦ absurd (ground (arith, e, apart))
]

-- A new notice takes the next id.
pub append-IsClean :
    (e : Deposit) (es : List Entry) (ds : List Deposit)
    → IsClean es ds e.id
    → IsClean es (ds ++ e ∷ []) (e.id + 1)
append-IsClean e es ds clean = record {
  unpaid = λ id waits. elim (Bool-cases (is_pending id ds)) [
    | inl old ↦ clean.unpaid id old
    | inr fresh ↦
        let new = at_id id e (or_off fresh (sym (is_pending-append id e ds) ∙ waits)) in
        elim (Bool-cases (is_paid_in id es)) [
          | inl paid ↦ absurd (omega (arith, clean.below id paid, new))
          | inr unpaid ↦ unpaid
        ]
  ];
  known = λ id waits. elim (Bool-cases (is_pending id ds)) [
    | inl old ↦ omega (arith, clean.known id old)
    | inr fresh ↦ omega (arith, at_id id e (or_off fresh (sym (is_pending-append id e ds) ∙ waits)))
  ];
  below = λ id there. omega (arith, clean.below id there);
}

-- The entry of a deposit's payment.
abbrev pub deposit_entry : ℕ → ℤ → Entry
deposit_entry id amount = record { wallet = main; amount = amount; ref = some (ref_deposits, id) }

-- A confirmation pays the deposit in, and it waits no more.
pub confirm-IsClean :
    (id : ℕ) (amount : ℤ) (new : Status) (es : List Entry) (ds : List Deposit) (next : ℕ)
    → (code new == code pending) ≡ false
    → is_pending id ds ≡ true
    → IsClean es ds next
    → IsClean (es ++ deposit_entry id amount ∷ []) (set_deposit id pending new ds) next
confirm-IsClean id amount new es ds next moved waits clean =
    let later = set_deposit-IsClean id pending new es ds next moved clean in
    record {
      unpaid = λ j waits_j. elim (Bool-cases (id == j)) [
        | inl same ↦
            let decided = decided-set_deposit id new ds moved in
            absurd (
              false≢true (
                sym decided
                ∙ (ap (λ k. is_pending k (set_deposit id pending new ds)) ((==_iff id j).0 same)
                    ∙ waits_j)))
        | inr apart ↦
            is_settled-append j (deposit_entry id amount) es
            ∙ rw (later.unpaid j waits_j, apart) refl
      ];
      known = later.known;
      below = λ j there. elim (Bool-cases (id == j)) [
        | inl same ↦ let at = (==_iff id j).0 same in omega (arith, clean.known id waits, at)
        | inr apart ↦
            let old = sym (is_settled-append j (deposit_entry id amount) es) ∙ there in
            clean.below j (sym (or_false _) ∙ (rw apart at old))
      ];
    }
