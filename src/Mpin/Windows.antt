-- ===== src/Mpin/Windows.antt =====
-- Requests that interleave: each is a begin and, some time later, an end.
use forex_automated_copy_tra.Base.{
  ℕ, ◌+◌, ◌*◌, ◌≤◌, ◌≡◌, refl, Bool, true, false, List, [], ◌∷◌, arith, if◌then◌else◌, ltb, ◌⊎◌,
  inl, inr,
}
use forex_automated_copy_tra.Mpin.{
  Row, Try, refused, reserved, reserve, lock, clear, begin_check, end_check, max_attempts,
}

module _ {H G : Type 0} (verify : H → G → Bool) where
  pub data Step : Type 0 where
    begins : ℕ → G → Step
    ends : Try → ℕ → Step

  -- Whether a try is granted, and so verified.
  abbrev is_granted : Try → ℕ
  is_granted refused = 0
  is_granted (reserved attempts verdict start) = 1

  -- The row after the steps, the tries granted, and how often the count of tries was reset.
  unfoldable pub run : List Step → Row H → Row H × ℕ × ℕ
  unfolding begin_check end_check
  run [] row = (row, 0, 0)
  run (begins now guess ∷ steps) row =
      let (row', try) = begin_check verify now guess row in
      let (last, granted, resets) = run steps row' in (last, is_granted try + granted, resets)
  run (ends try now ∷ steps) row =
      let row' = (end_check try now row).0 in
      let (last, granted, resets) = run steps row' in
      (last, granted, (if ltb row'.failed_attempts row.failed_attempts then 1 else 0) + resets)

  begin_check-count :
      (now : ℕ) (guess : G) (row : Row H)
      → row.failed_attempts ≤ max_attempts
      → ((begin_check verify now guess row).0.failed_attempts ≤ max_attempts)
        × ((begin_check verify now guess row).0.failed_attempts
            ≡ is_granted (begin_check verify now guess row).1 + row.failed_attempts)
  unfolding begin_check reserve
  begin_check-count now guess row h = ground arith

  end_check-count :
      (try : Try) (now : ℕ) (row : Row H)
      → ((end_check try now row).0.failed_attempts ≡ row.failed_attempts)
        ⊎ ((end_check try now row).0.failed_attempts ≡ 0)
  unfolding end_check lock clear
  end_check-count refused now row = ground arith
  end_check-count (reserved attempts true start) now row = inr refl
  end_check-count (reserved attempts false start) now row = ground arith

  -- However requests interleave, at most five tries are granted for each reset of the count and five
  -- more, and the count stays at most five.
  pub run-granted :
      (steps : List Step) (row : Row H)
      → row.failed_attempts ≤ 5
      → ((run steps row).0.failed_attempts ≤ 5)
        × ((run steps row).1 + row.failed_attempts ≤ 5 * (run steps row).2 + 5)
  unfolding run
  run-granted [] row h = (h, omega arith)
  run-granted (begins now guess ∷ steps) row h =
      let row' = (begin_check verify now guess row).0 in
      let count = begin_check-count now guess row h in
      let rest = run-granted steps row' count.0 in (rest.0, omega (arith, rest.1, count.1))
  run-granted (ends try now ∷ steps) row h =
      let row' = (end_check try now row).0 in
      elim (end_check-count try now row) [
        | inl same ↦
            let rest = run-granted steps row' (omega (arith, same)) in
            (rest.0, ground (arith, rest.1, same))
        | inr none_left ↦
            let rest = run-granted steps row' (omega (arith, none_left)) in
            (rest.0, ground (arith, rest.1, none_left))
      ]
