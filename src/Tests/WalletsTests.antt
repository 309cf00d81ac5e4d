-- ===== src/Tests/WalletsTests.antt =====
-- An investor with a deposit of 100.00 for the main wallet, of which some is withdrawn and some moved.
use forex_automated_copy_tra.Base.{ℕ, ◌≡◌, refl, true, false, none, List, [], ◌∷◌}
use forex_automated_copy_tra.Drift.Signed.{pos, negsuc}
use forex_automated_copy_tra.Ledger.{pending, requested, approved, done, main, credit, account}
use forex_automated_copy_tra.Wallets.Store.{available, fee_for}
use forex_automated_copy_tra.Wallets.Runs.{
  Step, filing, confirming, withdrawing, transferring, deciding_withdrawal, paying,
  deciding_transfer, granting, adjusting, handle, run, opened, available-run,
}

-- The fee of 2.5% on 10.02 is 25.05 cents.
fee_for-run : fee_for 1002 2500 ≡ 25
unfolding fee_for
fee_for-run = refl

-- A second withdrawal of 50.00 is refused, for 60.00 of the 100.00 is on hold.
abbrev day : List Step
day =
    filing 10000 0 none
    ∷ confirming (λ a. true) (λ c. 500) 1 pending none
    ∷ withdrawing true false 1000 0 6000
    ∷ withdrawing true false 1000 0 5000
    ∷ transferring true false main account 7 none 3000
    ∷ deciding_withdrawal 1 requested approved
    ∷ paying 1 approved
    ∷ paying 1 approved
    ∷ transferring true false credit account 7 none 500
    ∷ deciding_transfer 2 requested done
    ∷ granting (negsuc 0)
    ∷ adjusting main (negsuc 999)
    ∷ []

available-day : available main (run day opened) ≡ pos 0
unfolding available handle
available-day = refl

available-credit : available credit (run day opened) ≡ pos 0
unfolding available handle
available-credit = refl

available-run_example : (n : ℕ) × (available main (run day opened) ≡ pos n)
unfolding available handle
available-run_example =
    available-run day main
      (tt, (tt, (tt, (tt, (tt, (tt, (tt, (tt, (tt, (tt, (tt, (refl, tt))))))))))))
