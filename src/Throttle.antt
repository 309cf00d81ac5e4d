-- ===== src/Throttle.antt =====
-- copier/src/copier/engine/throttle.py: the FIFO token bucket in front of every send. Time is in
-- ticks and a token is `interval` ticks (1 / rate), so that tokens, budget and watermark are whole
-- numbers of ticks where the source has floats, so a drain at its time finds a whole token here, where
-- the rounding of the source may leave it just short and put it off to the next drain. The clock never runs backwards, so a difference of
-- times is not negative. A waiter's callback does not call back into the bucket.
pub mod Rate
pub mod Order
use forex_automated_copy_tra.Base.{
  ℕ, ◌+◌, ◌-◌, ◌*◌, min, Bool, true, false, ◌&&◌, Option, none, some, List, [], ◌∷◌, ◌++◌, leb,
  ◌==◌, if◌then◌else◌,
}

pub record Bucket : Type 0 where
  pub interval : ℕ
  pub capacity : ℕ
  pub tokens : ℕ
  pub last : ℕ
  pub waiters : List ℕ
  pub pending_call : Option ℕ

-- `__init__`, at the clock's time: the pool starts full.
unfoldable pub new : ℕ → ℕ → ℕ → Bucket
new interval capacity now = record {
  interval = interval;
  capacity = capacity * interval;
  tokens = capacity * interval;
  last = now;
  waiters = [];
  pending_call = none;
}

-- `_schedule`: a drain at the time of the next token, unless one is scheduled.
unfoldable pub schedule : ℕ → Bucket → Bucket
schedule now b = elim b.pending_call [
  | none ↦ record b { pending_call = some (now + (b.last + b.interval - now)) }
  | some at ↦ b
]

abbrev pub refill : ℕ → Bucket → Bucket
refill now b = elim b.waiters [
  | [] ↦ record b { tokens = min b.capacity (b.tokens + (now - b.last)); last = now }
  | w ∷ ws ↦ b
]

abbrev pub is_empty : List ℕ → Bool
is_empty [] = true
is_empty (w ∷ ws) = false

-- The part of `acquire` after the refill; the second result tells whether the call is granted at
-- once.
unfoldable pub grant_or_queue : ℕ → ℕ → Bucket → Bucket × Bool
unfolding schedule
grant_or_queue now d b =
    if leb b.interval b.tokens && is_empty b.waiters
    then (record b { tokens = b.tokens - b.interval }, true)
    else (schedule now (record b { waiters = b.waiters ++ d ∷ [] }), false)

unfoldable pub acquire : ℕ → ℕ → Bucket → Bucket × Bool
unfolding grant_or_queue
acquire now d b = grant_or_queue now d (refill now b)

-- `canceller`
unfoldable pub remove : ℕ → List ℕ → List ℕ
remove d [] = []
remove d (w ∷ ws) = if w == d then ws else w ∷ remove d ws

unfoldable pub cancel : ℕ → Bucket → Bucket
unfolding remove
cancel d b = record b { waiters = remove d b.waiters }

-- The loop of `_drain`: who is released, who waits on, and the watermark.
unfoldable pub release : ℕ → ℕ → ℕ → List ℕ → List ℕ × List ℕ × ℕ
release interval budget last [] = ([], [], last)
release interval budget last (w ∷ ws) =
    let (out, rest, last') = release interval (budget - interval) (last + interval) ws in
    if leb interval budget then (w ∷ out, rest, last') else ([], w ∷ ws, last)

-- `_drain`
unfoldable pub drain : ℕ → Bucket → Bucket × List ℕ
unfolding schedule release
drain now b =
    let (out, rest, last') = release b.interval (now - b.last) b.last b.waiters in
    let b' = record b { waiters = rest; last = last'; pending_call = none } in
    (if is_empty rest then b' else schedule now b', out)

-- What can happen to a bucket at a time.
pub data Event : Type 0 where
  acquired : ℕ → Event
  cancelled : ℕ → Event
  drained : Event

-- One event: the new bucket and who goes through.
unfoldable pub step : ℕ → Event → Bucket → Bucket × List ℕ
unfolding acquire cancel drain
step now (acquired d) b =
    let (b', granted) = acquire now d b in (b', if granted then d ∷ [] else [])
step now (cancelled d) b = (cancel d b, [])
step now drained b = drain now b

-- A schedule, and all who go through in it, in order.
unfoldable pub run : List (ℕ × Event) → Bucket → Bucket × List ℕ
run [] b = (b, [])
run ((now, e) ∷ events) b =
    let (b', out) = step now e b in let (b'', more) = run events b' in (b'', out ++ more)
