-- ===== src/Tests/MpinTests.antt =====
-- An account with the MPIN 4711, and six guesses within a minute.
use forex_automated_copy_tra.Base.{
  ℕ, ◌+◌, ◌-◌, ◌*◌, ◌≤◌, ◌≡◌, refl, Bool, true, false, none, some, List, [], ◌∷◌, ◌==◌, arith,
}
use forex_automated_copy_tra.Mpin.{Row, reserved}
use forex_automated_copy_tra.Mpin.Windows.{Step, begins, ends, run, run-granted}
use forex_automated_copy_tra.Mpin.Pace.{run_checks, run_checks-rate, end_time}

abbrev verify : ℕ → ℕ → Bool
verify hash guess = hash == guess

abbrev row : Row ℕ
row = record { mpin_hash = some 4711; failed_attempts = 0; locked_until = none }

abbrev guesses : List (ℕ × ℕ)
guesses = (10, 1) ∷ (20, 2) ∷ (30, 3) ∷ (40, 4) ∷ (50, 5) ∷ (60, 4711) ∷ (60, 6) ∷ []

abbrev wrong_guesses : List (ℕ × ℕ)
wrong_guesses = (10, 1) ∷ (20, 2) ∷ (30, 3) ∷ (40, 4) ∷ (50, 5) ∷ (60, 6) ∷ []

-- The sixth comes too late, although it is right.
five_verified : (run_checks verify guesses row).1 ≡ 5
unfolding run_checks
five_verified = refl

run_checks-rate_example :
    180 * (run_checks verify wrong_guesses row).1 ≤ 900 + (end_time 10 wrong_guesses - 10)
run_checks-rate_example =
    run_checks-rate verify 4711 10 wrong_guesses row
      (refl, (refl, (refl, (refl, (refl, (refl, tt)))))) refl refl refl
      (omega arith, (omega arith, (omega arith, (omega arith, (omega arith, (omega arith, tt))))))

-- Two requests that overlap, the second of which is right.
abbrev steps : List (Step verify)
steps =
    begins 10 1 ∷ begins 11 4711 ∷ ends (reserved 1 false 10) 12 ∷ ends (reserved 2 true 11) 13 ∷ []

run-granted_example :
    ((run verify steps row).0.failed_attempts ≤ 5)
    × ((run verify steps row).1 + row.failed_attempts ≤ 5 * (run verify steps row).2 + 5)
run-granted_example = run-granted verify steps row (omega arith)
