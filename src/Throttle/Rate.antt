-- ===== src/Throttle/Rate.antt =====
-- The bucket never lets through more than its burst and its rate allow.
use forex_automated_copy_tra.Base.{
  ℕ, ◌+◌, ◌-◌, ◌*◌, ◌≤◌, ◌≡◌, refl, ap, ◌∙◌, List, [], ◌∷◌, length, length-append, arith,
  Bool-cases, leb, leb→le, inl, inr,
}
use forex_automated_copy_tra.Throttle.{
  Bucket, Event, acquired, cancelled, drained, new, release, step, run,
}

-- What has been let through, in ticks, and what is still to spend, against burst and elapsed time.
pub record IsPaced (start now served : ℕ) (b : Bucket) : Type 0 where
  pub in_time : b.last ≤ now
  pub started : start ≤ now
  pub spent : served * b.interval + b.tokens + (now - b.last) ≤ b.capacity + (now - start)

release-paced :
    (interval budget last now : ℕ) (ws : List ℕ)
    → last + budget ≤ now
    → let r = release interval budget last ws in (r.2 ≡ last + length r.0 * interval) × (r.2 ≤ now)
unfolding release
release-paced interval budget last now [] h = ground arith
release-paced interval budget last now (w ∷ ws) h = elim (Bool-cases (leb interval budget)) [
  | inl granted ↦
      let ih =
        release-paced interval (budget - interval) (last + interval) now ws
          (omega (arith, leb→le interval budget granted, h)) in
      rw granted (omega (arith, ih.0), omega (arith, ih.1))
  | inr spent ↦ rw spent (omega arith, omega arith)
]

step-IsPaced :
    (start before now served : ℕ) (e : Event) (b : Bucket)
    → IsPaced start before served b
    → before ≤ now
    → IsPaced start now (served + length (step now e b).1) (step now e b).0
unfolding step
step-IsPaced start before now served (acquired d) b p h = ground arith
step-IsPaced start before now served (cancelled d) b p h = ground arith
step-IsPaced start before now served drained b p h =
    let r =
      release-paced b.interval (now - b.last) b.last now b.waiters (omega (arith, p.in_time)) in
    ground (arith, r)

-- The times of a schedule do not fall.
abbrev pub IsOrdered : ℕ → List (ℕ × Event) → Type 0
IsOrdered before [] = Unit
IsOrdered before ((now, e) ∷ events) = (before ≤ now) × IsOrdered now events

-- The time of the last event.
abbrev pub end_time : ℕ → List (ℕ × Event) → ℕ
end_time before [] = before
end_time before ((now, e) ∷ events) = end_time now events

step-keeps :
    (now : ℕ) (e : Event) (b : Bucket)
    → ((step now e b).0.interval ≡ b.interval) × ((step now e b).0.capacity ≡ b.capacity)
unfolding step
step-keeps now (acquired d) b = (ground arith, ground arith)
step-keeps now (cancelled d) b = (ground arith, ground arith)
step-keeps now drained b = (ground arith, ground arith)

run-IsPaced :
    (start before served : ℕ) (events : List (ℕ × Event)) (b : Bucket)
    → IsPaced start before served b
    → IsOrdered before events
    → let r = run events b in
      IsPaced start (end_time before events) (served + length r.1) r.0
      × (r.0.interval ≡ b.interval)
      × (r.0.capacity ≡ b.capacity)
unfolding run
run-IsPaced start before served [] b p h = (ground arith, refl, refl)
run-IsPaced start before served ((now, e) ∷ events) b p h =
    let s = step-IsPaced start before now served e b p h.0 in
    let (b', out) = step now e b in
    let ih = run-IsPaced start now (served + length out) events b' s h.1 in
    ground (arith, ih, step-keeps now e b, length-append out (run events b').1)

new-pace : (interval capacity start : ℕ) → (new interval capacity start).interval ≡ interval
unfolding new
new-pace interval capacity start = refl

new-burst :
    (interval capacity start : ℕ) → (new interval capacity start).capacity ≡ capacity * interval
unfolding new
new-burst interval capacity start = refl

paced_bound :
    (served burst interval start now : ℕ) (b : Bucket)
    → IsPaced start now (0 + served) b
    → b.interval ≡ interval
    → b.capacity ≡ burst
    → served * interval ≤ burst + (now - start)
paced_bound served burst interval start now b p e f =
    omega (arith, p.spent, ap (λ (t : ℕ). (0 + served) * t) e, f)

-- From a full bucket, whatever the requests, cancellations and drains, and however late the drains
-- come: those let through by any time are at most the burst and one for each token time elapsed.
pub run-rate :
    (interval capacity start : ℕ) (events : List (ℕ × Event))
    → IsOrdered start events
    → length (run events (new interval capacity start)).1 * interval
      ≤ capacity * interval + (end_time start events - start)
run-rate interval capacity start events h =
    let b = new interval capacity start in
    let r = run-IsPaced start start 0 events b (unfold new in omega arith) h in
    paced_bound (length (run events b).1) (capacity * interval) interval start
      (end_time start events) (run events b).0 r.0 (r.1 ∙ new-pace interval capacity start)
      (r.2 ∙ new-burst interval capacity start)
