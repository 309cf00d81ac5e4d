-- ===== src/Wallets/Guards.antt =====
-- Outcomes of a handler under its guards, and the sums after a settlement.
use mathlib.Core.Bool.{false≢true}
use forex_automated_copy_tra.Base.{
  ℕ, ◌+◌, ◌≤◌, List, Bool, true, false, not, Option, none, some, if◌then◌else◌, leb, ◌≡◌, refl,
  arith, Bool-cases, inl, inr, subst,
}
use forex_automated_copy_tra.Drift.Signed.{pos, difference}
use forex_automated_copy_tra.Ledger.{
  Status, pending, requested, approved, confirmed, paid, done, rejected, cancelled, removed,
  withdrawals, transfers, can_transition, End, main, credit, pamm, social, account,
}
use forex_automated_copy_tra.Wallets.Store.{
  Wallets, Entry, RefTable, settle, credits, debits, is_end, is_open, minus, exceeds, available,
  holds,
}
use forex_automated_copy_tra.Wallets.Sums.{credits-settle, debits-settle, parts-minus}

-- A predicate on what a handler leaves, if it succeeds.
abbrev pub Holds : (Wallets → Type 0) → Option Wallets → Type 0
Holds P none = Unit
Holds P (some s) = P s

pub guard :
    (P : Wallets → Type 0) (refused : Bool) (o : Option Wallets)
    → (refused ≡ false → Holds P o)
    → Holds P (if refused then none else o)
guard P true o ok = tt
guard P false o ok = ok refl

pub choose :
    (P : Wallets → Type 0) (b : Bool) (o p : Option Wallets)
    → (b ≡ true → Holds P o)
    → (b ≡ false → Holds P p)
    → Holds P (if b then o else p)
choose P true o p kept left = kept refl
choose P false o p kept left = left refl

pub from_row :
    {A : Type 0} (P : Wallets → Type 0) (row : Option A) (f : A → Option Wallets)
    → ((a : A) → row ≡ some a → Holds P (f a))
    → Holds P (elim row [ none ↦ none | some a ↦ f a ])
from_row P none f ok = tt
from_row P (some a) f ok = ok a refl

pub not-false : (b : Bool) → not b ≡ false → b ≡ true
not-false true e = refl
not-false false e = absurd (ground (arith, e))

-- An amount within the available figure is covered beside what is taken and held.
not_exceeds : (amount c d : ℕ) → exceeds amount (difference c d) ≡ false → amount + d ≤ c
not_exceeds amount c d e = elim (Bool-cases (leb d c)) [
  | inl enough ↦ ground (arith, enough, e)
  | inr short ↦ absurd (ground (arith, short, e))
]

pub exceeds-available :
    (amount : ℕ) (w : End) (s : Wallets)
    → exceeds amount (available w s) ≡ false
    → amount + (debits w s.entries + holds w s) ≤ credits w s.entries
unfolding available
exceeds-available amount w s e =
    not_exceeds amount (credits w s.entries) (debits w s.entries + holds w s) e

pub is_end-same : (v w : End) → is_end v w ≡ true → v ≡ w
is_end-same main main e = refl
is_end-same main credit e = absurd (false≢true e)
is_end-same main pamm e = absurd (false≢true e)
is_end-same main social e = absurd (false≢true e)
is_end-same main account e = absurd (false≢true e)
is_end-same credit main e = absurd (false≢true e)
is_end-same credit credit e = refl
is_end-same credit pamm e = absurd (false≢true e)
is_end-same credit social e = absurd (false≢true e)
is_end-same credit account e = absurd (false≢true e)
is_end-same pamm main e = absurd (false≢true e)
is_end-same pamm credit e = absurd (false≢true e)
is_end-same pamm pamm e = refl
is_end-same pamm social e = absurd (false≢true e)
is_end-same pamm account e = absurd (false≢true e)
is_end-same social main e = absurd (false≢true e)
is_end-same social credit e = absurd (false≢true e)
is_end-same social pamm e = absurd (false≢true e)
is_end-same social social e = refl
is_end-same social account e = absurd (false≢true e)
is_end-same account main e = absurd (false≢true e)
is_end-same account credit e = absurd (false≢true e)
is_end-same account pamm e = absurd (false≢true e)
is_end-same account social e = absurd (false≢true e)
is_end-same account account e = refl

-- What one wallet can spare leaves every wallet covered.
pub spare :
    (v w : End) (n : ℕ) (s : Wallets)
    → n + (debits v s.entries + holds v s) ≤ credits v s.entries
    → debits w s.entries + holds w s ≤ credits w s.entries
    → (if is_end v w then n else 0) + (debits w s.entries + holds w s) ≤ credits w s.entries
spare v w n s enough covered = elim (Bool-cases (is_end v w)) [
  | inl same ↦ rw same (
      subst (λ u. n + (debits u s.entries + holds u s) ≤ credits u s.entries) (is_end-same v w same)
        enough)
  | inr apart ↦ rw apart (omega (arith, covered))
]

-- A payment into a wallet.
pub settle-pos :
    (w v : End) (n : ℕ) (table : RefTable) (id : ℕ) (es : List Entry)
    → (debits w (settle v (pos n) table id es) ≡ debits w es)
      × (credits w es ≤ credits w (settle v (pos n) table id es))
settle-pos w v n table id es = (
  ground (arith, debits-settle w v (pos n) table id es),
  omega (arith, credits-settle w v (pos n) table id es),
)

-- A payment out of a wallet.
pub settle-minus :
    (w v : End) (n : ℕ) (table : RefTable) (id : ℕ) (es : List Entry)
    → (debits w (settle v (minus n) table id es) ≤ debits w es + (if is_end v w then n else 0))
      × (credits w (settle v (minus n) table id es) ≡ credits w es)
settle-minus w v n table id es =
    let parts = parts-minus n in
    (
      ground (arith, parts, debits-settle w v (minus n) table id es),
      ground (arith, parts, credits-settle w v (minus n) table id es),
    )

-- Only open requests move on.
pub open-withdrawal :
    (seen new : Status) → can_transition withdrawals seen new ≡ true → is_open seen ≡ true
unfolding can_transition
open-withdrawal requested new e = refl
open-withdrawal approved new e = refl
open-withdrawal pending new e = absurd (ground (arith, e))
open-withdrawal confirmed new e = absurd (ground (arith, e))
open-withdrawal paid new e = absurd (ground (arith, e))
open-withdrawal done new e = absurd (ground (arith, e))
open-withdrawal rejected new e = absurd (ground (arith, e))
open-withdrawal cancelled new e = absurd (ground (arith, e))
open-withdrawal removed new e = absurd (ground (arith, e))

pub open-transfer :
    (seen new : Status) → can_transition transfers seen new ≡ true → is_open seen ≡ true
unfolding can_transition
open-transfer requested new e = refl
open-transfer approved new e = refl
open-transfer pending new e = absurd (ground (arith, e))
open-transfer confirmed new e = absurd (ground (arith, e))
open-transfer paid new e = absurd (ground (arith, e))
open-transfer done new e = absurd (ground (arith, e))
open-transfer rejected new e = absurd (ground (arith, e))
open-transfer cancelled new e = absurd (ground (arith, e))
open-transfer removed new e = absurd (ground (arith, e))
