-- ===== src/Routing/Cache.antt =====
-- RoutingCache of copier/src/copier/engine/routing.py, over any snapshot. Times are in whole ticks;
-- the clock may go back.
use forex_automated_copy_tra.Base.{
  ℕ, ◌+◌, Bool, true, false, ◌||◌, Option, none, some, List, [], ◌∷◌, leb, ltb, if◌then◌else◌,
}

-- A time to live is `ttl`; `_expires` is its end.
pub record RoutingCache (A : Type 0) : Type 0 where
  pub snapshot : Option A
  pub expires : ℕ

-- A use of the cache: a call at `now`, where a build would give `built` and end at `ended`; or an
-- invalidation.
pub data Use (A : Type 0) : Type 0 where
  calls : (now : ℕ) (built : A) (ended : ℕ) → Use A
  invalidates : Use A

module _ {A : Type 0} (ttl : ℕ) where
  -- `now < self._expires - self._ttl` is written as `now + ttl < expires`.
  abbrev pub is_stale : ℕ → RoutingCache A → Bool
  is_stale now cache =
      elim cache.snapshot [ none ↦ true | some s ↦ false ]
      || leb cache.expires now
      || ltb (now + ttl) cache.expires

  -- `__call__`: the snapshot served, and the cache.
  unfoldable pub call : ℕ → A → ℕ → RoutingCache A → A × RoutingCache A
  call now built ended cache = elim cache.snapshot [
    | none ↦ (built, record { snapshot = some built; expires = ended + ttl })
    | some old ↦
        if is_stale now cache
        then (built, record { snapshot = some built; expires = ended + ttl })
        else (old, cache)
  ]

  unfoldable pub invalidate : RoutingCache A → RoutingCache A
  invalidate cache = record cache { snapshot = none }

  -- What the calls return, in order.
  unfoldable pub serve : List (Use A) → RoutingCache A → List A
  unfolding call invalidate
  serve [] cache = []
  serve (calls now built ended ∷ uses) cache =
      let (served, after) = call now built ended cache in served ∷ serve uses after
  serve (invalidates ∷ uses) cache = serve uses (invalidate cache)

-- `__init__`
abbrev pub fresh_cache : {A : Type 0} → RoutingCache A
fresh_cache = record { snapshot = none; expires = 0 }
