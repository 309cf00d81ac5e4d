-- ===== src/Tests/ThrottleTests.antt =====
-- A bucket of two tokens, one more every ten ticks.
use forex_automated_copy_tra.Base.{
  ℕ, ◌+◌, ◌-◌, ◌*◌, ◌≤◌, ◌≡◌, refl, arith, none, List, [], ◌∷◌, ◌++◌, length,
}
use forex_automated_copy_tra.Throttle.{Bucket, Event, acquired, drained, new, step, run}
use forex_automated_copy_tra.Throttle.Rate.{run-rate, end_time}
use forex_automated_copy_tra.Throttle.Order.{run-fifo, arrivals}

abbrev burst : List (ℕ × Event)
burst = (5, acquired 1) ∷ (5, acquired 2) ∷ (6, acquired 3) ∷ (7, acquired 4) ∷ (16, drained) ∷ []

abbrev start : Bucket
start = record {
  interval = 10;
  capacity = 20;
  tokens = 20;
  last = 0;
  waiters = [];
  pending_call = none;
}

lets_three_through : (run burst (new 10 2 0)).1 ≡ 1 ∷ 2 ∷ 3 ∷ []
unfolding run step new
lets_three_through = refl

run-rate_example : length (run burst (new 10 2 0)).1 * 10 ≤ 2 * 10 + (end_time 0 burst - 0)
run-rate_example = run-rate 10 2 0 burst (omega arith)

run-fifo_example : (run burst start).1 ++ (run burst start).0.waiters ≡ [] ++ arrivals burst
run-fifo_example = run-fifo burst start tt
