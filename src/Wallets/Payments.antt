-- ===== src/Wallets/Payments.antt =====
-- Deposits, bonuses and adjustments keep every wallet covered.
use forex_automated_copy_tra.Base.{
  ℕ, zero, suc, ◌+◌, ◌≤◌, ◌∷◌, [], List, ◌++◌, false, not, ◌&&◌, Option, none, if◌then◌else◌, ltb,
  ◌≡◌, refl, arith, Bool-cases, inl, inr,
}
use forex_automated_copy_tra.Drift.Signed.{ℤ, pos, negsuc}
use forex_automated_copy_tra.Ledger.{
  Status, pending, rejected, cancelled, deposits, can_transition, End, credit,
}
use forex_automated_copy_tra.Wallets.Store.{
  BonusSource, signup, kyc, deposit, manual, RefTable, negative_part, Wallets, Entry, credits,
  debits, holds, is_end, settle, available, exceeds, ref_bonuses,
}
use forex_automated_copy_tra.Wallets.Filing.{find_deposit, file_deposit, cancel_deposit}
use forex_automated_copy_tra.Wallets.Deciding.{
  reject_deposit, pay_bonus, grant_bonus, award_rule_bonus, adjust, is_paid,
}
use forex_automated_copy_tra.Wallets.Sums.{
  credits-settle, debits-settle, credits-append, debits-append,
}
use forex_automated_copy_tra.Wallets.Guards.{Holds, guard, from_row, spare, exceeds-available}
use forex_automated_copy_tra.Wallets.Clean.{
  settle-IsClean, append-IsClean, set_deposit-IsClean, entry-IsClean,
}
use forex_automated_copy_tra.Wallets.Covered.{IsCovered, IsSound}

-- Entries that take no more than the wallet can spare, with the holds as they are.
entries_covered :
    (w : End) (s : Wallets) (es : List Entry)
    → debits w es + credits w s.entries ≤ debits w s.entries + credits w es
    → IsCovered s
    → debits w es + holds w (record s { entries = es }) ≤ credits w es
unfolding holds
entries_covered w s es gains covered = omega (arith, gains, covered w)

pub file_deposit-IsSound :
    (amount fee_pct : ℕ) (target_account : Option ℕ) (s : Wallets)
    → IsSound s
    → IsSound (file_deposit amount fee_pct target_account s)
unfolding file_deposit holds
file_deposit-IsSound amount fee_pct target_account s sound = record {
  covered = sound.covered;
  clean = append-IsClean _ s.entries s.deposits sound.clean;
}

pub cancel_deposit-IsSound :
    (id : ℕ) (seen : Status) (s : Wallets) → IsSound s → Holds IsSound (cancel_deposit id seen s)
unfolding cancel_deposit holds
cancel_deposit-IsSound id seen s sound =
    guard IsSound (not (can_transition deposits seen cancelled)) _ λ legal.
      from_row IsSound (find_deposit id seen s.deposits) _ λ d found. record {
        covered = sound.covered;
        clean =
            set_deposit-IsClean id seen cancelled s.entries s.deposits s.next_deposit refl
              sound.clean;
      }

pub reject_deposit-IsSound :
    (id : ℕ) (seen : Status) (s : Wallets) → IsSound s → Holds IsSound (reject_deposit id seen s)
unfolding reject_deposit holds
reject_deposit-IsSound id seen s sound =
    guard IsSound (not (can_transition deposits seen rejected)) _ λ legal.
      from_row IsSound (find_deposit id pending s.deposits) _ λ d found. record {
        covered = sound.covered;
        clean =
            set_deposit-IsClean id pending rejected s.entries s.deposits s.next_deposit refl
              sound.clean;
      }

-- A signed payment into a wallet moves its sums by no more than its parts.
settle-parts :
    (w v : End) (amount : ℤ) (table : RefTable) (id : ℕ) (es : List Entry)
    → (debits w (settle v amount table id es)
        ≤ debits w es + (if is_end v w then negative_part amount else 0))
      × (credits w es ≤ credits w (settle v amount table id es))
settle-parts w v amount table id es = (
  ground (arith, debits-settle w v amount table id es),
  omega (arith, credits-settle w v amount table id es),
)

ltb-false : (n : ℕ) → ltb 0 n ≡ false → n ≡ 0
ltb-false n e = ground (arith, e)

-- A bonus that is not zero.
bonus-IsSound :
    (source : BonusSource) (amount : ℤ) (source_id : Option ℕ) (s : Wallets)
    → negative_part amount + (debits credit s.entries + holds credit s) ≤ credits credit s.entries
    → IsSound s
    → IsSound (
        if is_paid source source_id s.bonuses then s else record s {
          bonuses =
              s.bonuses
              ++ record { id = s.next_bonus; source = source; source_id = source_id } ∷ [];
          next_bonus = s.next_bonus + 1;
          entries = settle credit amount ref_bonuses s.next_bonus s.entries;
        })
unfolding holds
bonus-IsSound source amount source_id s enough sound =
    elim (Bool-cases (is_paid source source_id s.bonuses)) [
      | inl e ↦ rw e sound
      | inr e ↦ rw e (record {
        covered = λ w.
            let parts = settle-parts w credit amount ref_bonuses s.next_bonus s.entries in
            omega (
              arith,
              parts.0,
              parts.1,
              spare credit w (negative_part amount) s enough (sound.covered w),
            );
        clean =
            settle-IsClean credit amount ref_bonuses s.next_bonus s.entries s.deposits
              s.next_deposit refl sound.clean;
      })
    ]

-- What a bonus takes is covered, if it takes anything.
pub pay_bonus-IsSound :
    (source : BonusSource) (amount : ℤ) (source_id : Option ℕ) (s : Wallets)
    → negative_part amount + (debits credit s.entries + holds credit s) ≤ credits credit s.entries
    → IsSound s
    → IsSound (pay_bonus source amount source_id s)
unfolding pay_bonus holds
pay_bonus-IsSound source (pos zero) source_id s enough sound = sound
pay_bonus-IsSound source (pos (suc n)) source_id s enough sound =
    bonus-IsSound source (pos (suc n)) source_id s enough sound
pay_bonus-IsSound source (negsuc n) source_id s enough sound =
    bonus-IsSound source (negsuc n) source_id s enough sound

pub award_rule_bonus-IsSound :
    (source : BonusSource) (amount : ℕ) (s : Wallets)
    → IsSound s
    → IsSound (award_rule_bonus source amount s)
unfolding award_rule_bonus
award_rule_bonus-IsSound signup amount s sound =
    pay_bonus-IsSound signup (pos amount) none s (omega (arith, sound.covered credit)) sound
award_rule_bonus-IsSound kyc amount s sound =
    pay_bonus-IsSound kyc (pos amount) none s (omega (arith, sound.covered credit)) sound
award_rule_bonus-IsSound deposit amount s sound = sound
award_rule_bonus-IsSound manual amount s sound = sound

pub grant_bonus-IsSound :
    (amount : ℤ) (s : Wallets) → IsSound s → Holds IsSound (grant_bonus amount s)
unfolding grant_bonus
grant_bonus-IsSound amount s sound =
    guard IsSound
      (exceeds (negative_part amount) (available credit s) && ltb 0 (negative_part amount)) _
      λ within.
        pay_bonus-IsSound manual amount none s
          (elim (Bool-cases (exceeds (negative_part amount) (available credit s))) [
            | inl over ↦ nothing_taken (negative_part amount) (rw over at within)
            | inr enough ↦ exceeds-available (negative_part amount) credit s enough
          ])
          sound
  where
    nothing_taken :
        (n : ℕ)
        → ltb 0 n ≡ false
        → n + (debits credit s.entries + holds credit s) ≤ credits credit s.entries
    nothing_taken n none_taken = omega (arith, sound.covered credit, ltb-false n none_taken)

-- An adjustment that the wallet can spare.
pub adjust-IsSound :
    (wallet : End) (amount : ℤ) (s : Wallets)
    → negative_part amount + (debits wallet s.entries + holds wallet s) ≤ credits wallet s.entries
    → IsSound s
    → IsSound (adjust wallet amount s)
unfolding adjust holds
adjust-IsSound wallet amount s enough sound = record {
  covered = λ w. omega (
    arith,
    debits-append w s.entries _,
    credits-append w s.entries _,
    spare wallet w (negative_part amount) s enough (sound.covered w),
  );
  clean = entry-IsClean _ s.entries s.deposits s.next_deposit (λ id. refl) sound.clean;
}
