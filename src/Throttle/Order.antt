-- ===== src/Throttle/Order.antt =====
-- Requests go through in the order in which they came, and none is left with no drain to come.
use mathlib.Core.List.{append_assoc, append-nil}
use forex_automated_copy_tra.Base.{
  ℕ, ◌+◌, ◌-◌, ◌≡◌, ◌≢◌, refl, false, none, List, [], ◌∷◌, ◌++◌, arith,
}
use forex_automated_copy_tra.Throttle.{
  Bucket, is_empty, Event, acquired, cancelled, drained, release, step, run,
}

release-append :
    (interval budget last : ℕ) (ws : List ℕ)
    → let r = release interval budget last ws in r.0 ++ r.1 ≡ ws
unfolding release
release-append interval budget last [] = refl
release-append interval budget last (w ∷ ws) =
    ground (arith, release-append interval (budget - interval) (last + interval) ws)

-- Who asks for a token in a schedule, in order.
abbrev pub arrivals : List (ℕ × Event) → List ℕ
arrivals [] = []
arrivals ((now, acquired d) ∷ events) = d ∷ arrivals events
arrivals ((now, _) ∷ events) = arrivals events

-- No waiter gives up.
abbrev pub IsPatient : List (ℕ × Event) → Type 0
IsPatient [] = Unit
IsPatient ((now, cancelled d) ∷ events) = ⊥
IsPatient ((now, _) ∷ events) = IsPatient events

acquire-append :
    (now d : ℕ) (b : Bucket)
    → (step now (acquired d) b).1 ++ (step now (acquired d) b).0.waiters ≡ b.waiters ++ d ∷ []
unfolding step
acquire-append now d b = ground arith

drain-append :
    (now : ℕ) (b : Bucket) → (step now drained b).1 ++ (step now drained b).0.waiters ≡ b.waiters
unfolding step
drain-append now b = ground (arith, release-append b.interval (now - b.last) b.last b.waiters)

-- First come, first served: those let through, then those still waiting, are those who waited and
-- those who came, in that order.
pub run-fifo :
    (events : List (ℕ × Event)) (b : Bucket)
    → IsPatient events
    → (run events b).1 ++ (run events b).0.waiters ≡ b.waiters ++ arrivals events
unfolding run
run-fifo [] b h = rw (append-nil b.waiters)
run-fifo ((now, acquired d) ∷ events) b h =
    let (b', out) = step now (acquired d) b in
    rw (
      append_assoc out (run events b').1 (run events b').0.waiters,
      run-fifo events b' h,
      ← append_assoc out b'.waiters (arrivals events),
      acquire-append now d b,
      append_assoc b.waiters (d ∷ []) (arrivals events),
    )
run-fifo ((now, cancelled d) ∷ events) b h = absurd h
run-fifo ((now, drained) ∷ events) b h =
    let (b', out) = step now drained b in
    rw (
      append_assoc out (run events b').1 (run events b').0.waiters,
      run-fifo events b' h,
      ← append_assoc out b'.waiters (arrivals events),
      drain-append now b,
    )

-- Some drain is to come wherever somebody waits.
abbrev pub IsScheduled : Bucket → Type 0
IsScheduled b = is_empty b.waiters ≡ false → b.pending_call ≢ none
