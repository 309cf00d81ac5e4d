-- ===== src/Mpin/Pace.antt =====
-- Wrong guesses, one request after the other.
use forex_automated_copy_tra.Base.{
  ℕ, ◌+◌, ◌-◌, ◌*◌, ◌≤◌, ◌<◌, ◌⊎◌, ◌≡◌, Bool, false, none, some, List, [], ◌∷◌, arith, Option-cases,
  inl, inr, All,
}
use forex_automated_copy_tra.Mpin.{Row, reserve, check_mpin}

module _ {H G : Type 0} (verify : H → G → Bool) where
  -- The row after the requests, and the guesses that were verified.
  unfoldable pub run_checks : List (ℕ × G) → Row H → Row H × ℕ
  unfolding check_mpin reserve
  run_checks [] row = (row, 0)
  run_checks ((now, guess) ∷ requests) row =
      let (last, verified) = run_checks requests (check_mpin verify now guess row).0 in
      (last, (elim (reserve now row) [ none ↦ 0 | some granted ↦ 1 ]) + verified)

-- The requests come one after the other, from a time on.
abbrev pub IsOrdered : {G : Type 0} → ℕ → List (ℕ × G) → Type 0
IsOrdered now [] = Unit
IsOrdered now ((later, guess) ∷ requests) = (now ≤ later) × IsOrdered later requests

-- The time of the last request.
abbrev pub end_time : {G : Type 0} → ℕ → List (ℕ × G) → ℕ
end_time now [] = now
end_time now ((later, guess) ∷ requests) = end_time later requests

-- The end of the lock, or the start.
abbrev horizon : {H : Type 0} → ℕ → Row H → ℕ
horizon start row = elim row.locked_until [ none ↦ start | some until ↦ until ]

-- `verified` guesses since `start`: each takes 180 seconds, but for those of the window that is open.
record IsPaced {H : Type 0} (start now verified : ℕ) (row : Row H) : Type 0 where
  few : row.failed_attempts < 5
  after_start : start ≤ horizon start row
  paced : 180 * verified ≤ 180 * row.failed_attempts + (horizon start row - start)
  soon : horizon start row ≤ now + 900
  window : (row.failed_attempts ≡ 0) ⊎ (horizon start row ≤ now)

module _ {H G : Type 0} (verify : H → G → Bool) (hash : H) (start : ℕ) where
  check_mpin-IsPaced :
      (now later verified : ℕ) (guess : G) (row : Row H)
      → verify hash guess ≡ false
      → row.mpin_hash ≡ some hash
      → start ≤ now
      → now ≤ later
      → IsPaced start now verified row
      → IsPaced start later
          ((elim (reserve later row) [ none ↦ 0 | some granted ↦ 1 ]) + verified)
          (check_mpin verify later guess row).0
        × ((check_mpin verify later guess row).0.mpin_hash ≡ some hash)
  unfolding check_mpin reserve
  check_mpin-IsPaced now later verified guess row wrong has_hash started ordered h =
      elim (Option-cases row.locked_until) [
        | inl no_lock ↦ (
          record {
            few = ground (arith, h.few, no_lock, has_hash, wrong);
            after_start = ground (arith, h.few, no_lock, has_hash, wrong);
            paced = ground (arith, h.few, h.paced, no_lock, has_hash, wrong);
            soon = ground (arith, h.few, no_lock, has_hash, wrong);
            window = ground (arith, h.few, no_lock, has_hash, wrong);
          },
          ground (arith, h.few, no_lock, has_hash, wrong),
        )
        | inr (until, lock_there) ↦ (
          record {
            few = ground (arith, h.few, lock_there, has_hash, wrong);
            after_start = ground (arith, h.few, h.after_start, lock_there, has_hash, wrong);
            paced = ground (arith, h.few, h.paced, h.after_start, lock_there, has_hash, wrong);
            soon = ground (arith, h.few, h.soon, lock_there, has_hash, wrong);
            window = ground (arith, h.few, h.window, lock_there, has_hash, wrong);
          },
          ground (arith, h.few, lock_there, has_hash, wrong),
        )
      ]

  run_checks-IsPaced :
      (requests : List (ℕ × G)) (now verified : ℕ) (row : Row H)
      → All (λ r. verify hash r.1 ≡ false) requests
      → row.mpin_hash ≡ some hash
      → start ≤ now
      → IsOrdered now requests
      → IsPaced start now verified row
      → 180 * ((run_checks verify requests row).1 + verified)
        ≤ 900 + (end_time now requests - start)
  unfolding run_checks
  run_checks-IsPaced [] now verified row wrong has_hash started ordered h =
      ground (arith, h.few, h.after_start, h.paced, h.soon, h.window, started)
  run_checks-IsPaced ((later, guess) ∷ requests) now verified row wrong has_hash started ordered h =
      let next =
        check_mpin-IsPaced now later verified guess row wrong.0 has_hash started ordered.0 h in
      let rest =
        run_checks-IsPaced requests later
          ((elim (reserve later row) [ none ↦ 0 | some granted ↦ 1 ]) + verified)
          (check_mpin verify later guess row).0 wrong.1 next.1 (omega (arith, started, ordered.0))
          ordered.1 next.0 in
      omega (arith, rest)

  -- Of wrong guesses that come one after the other at an account with a clear count and no lock, at
  -- most five are verified and one more for each 180 seconds from the start to the last.
  pub run_checks-rate :
      (requests : List (ℕ × G)) (row : Row H)
      → All (λ r. verify hash r.1 ≡ false) requests
      → row.mpin_hash ≡ some hash
      → row.failed_attempts ≡ 0
      → row.locked_until ≡ none
      → IsOrdered start requests
      → 180 * (run_checks verify requests row).1 ≤ 900 + (end_time start requests - start)
  run_checks-rate requests row wrong has_hash clear_count no_lock ordered =
      let paced =
        run_checks-IsPaced requests start 0 row wrong has_hash (omega arith) ordered (record {
          few = omega (arith, clear_count);
          after_start = ground (arith, no_lock);
          paced = omega arith;
          soon = ground (arith, no_lock);
          window = inl clear_count;
        }) in
      omega (arith, paced)
