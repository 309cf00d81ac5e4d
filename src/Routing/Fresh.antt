-- ===== src/Routing/Fresh.antt =====
-- How old a snapshot of the routing is when it is served.
use forex_automated_copy_tra.Base.{
  ℕ, suc, ◌+◌, ◌≤◌, ◌<◌, ◌≡◌, ◌⊎◌, inl, inr, refl, sym, ap, Option, none, some, List, [], ◌∷◌,
  arith, Bool-cases,
}
use forex_automated_copy_tra.Routing.Cache.{
  Use, calls, invalidates, is_stale, call, invalidate, serve, fresh_cache,
}

-- `stamp` is the time at which a snapshot's build ended, and `generation` the number of invalidations
-- before it.
module _ {A : Type 0} (ttl : ℕ) (stamp generation : A → ℕ) where
  -- The builds bear their stamps, from the generation `g` on.
  abbrev pub IsStamped : ℕ → List (Use A) → Type 0
  IsStamped g [] = Unit
  IsStamped g (calls now built ended ∷ uses) =
      (stamp built ≡ ended) × (generation built ≡ g) × IsStamped g uses
  IsStamped g (invalidates ∷ uses) = IsStamped (suc g) uses

  -- Each snapshot served is of the last invalidation's generation, and was built by the call itself or
  -- less than the time to live before it, by the clock.
  abbrev pub IsFresh : ℕ → List (Use A) → List A → Type 0
  IsFresh g [] [] = Unit
  IsFresh g [] (a ∷ served) = ⊥
  IsFresh g (calls now built ended ∷ uses) [] = ⊥
  IsFresh g (calls now built ended ∷ uses) (a ∷ served) =
      (generation a ≡ g)
      × ((a ≡ built) ⊎ ((stamp a ≤ now) × (now < stamp a + ttl)))
      × IsFresh g uses served
  IsFresh g (invalidates ∷ uses) served = IsFresh (suc g) uses served

  abbrev IsKept : ℕ → Option A → ℕ → Type 0
  IsKept g none expires = Unit
  IsKept g (some a) expires = (generation a ≡ g) × (expires ≡ stamp a + ttl)

  serve-IsFresh_from :
      (g : ℕ) (uses : List (Use A)) (snapshot : Option A) (expires : ℕ)
      → IsStamped g uses
      → IsKept g snapshot expires
      → IsFresh g uses (serve ttl uses (record { snapshot = snapshot; expires = expires }))
  unfolding serve call invalidate
  serve-IsFresh_from g [] snapshot expires h k = tt
  serve-IsFresh_from g (calls now built ended ∷ uses) none expires h k = (
    h.1,
    inl refl,
    serve-IsFresh_from g uses (some built) (ended + ttl) h.2 (h.1, ap (λ t. t + ttl) (sym h.0)),
  )
  serve-IsFresh_from g (calls now built ended ∷ uses) (some old) expires h k =
      elim (Bool-cases (is_stale ttl now (record { snapshot = some old; expires = expires }))) [
        | inl stale ↦
            rw (call, stale)
              (
                h.1,
                inl refl,
                serve-IsFresh_from g uses (some built) (ended + ttl) h.2
                    (h.1, ap (λ t. t + ttl) (sym h.0)),
              )
        | inr good ↦
            rw (call, good)
              (
                k.0,
                inr (ground (arith, good, k.1), ground (arith, good, k.1)),
                serve-IsFresh_from g uses (some old) expires h.2 k,
              )
      ]
  serve-IsFresh_from g (invalidates ∷ uses) snapshot expires h k =
      serve-IsFresh_from (suc g) uses none expires h tt

  -- However calls and invalidations follow one another and the clock moves, each call's snapshot was
  -- built after the last invalidation, and by the call itself or less than the time to live before it.
  pub serve-IsFresh :
      (uses : List (Use A)) → IsStamped 0 uses → IsFresh 0 uses (serve ttl uses fresh_cache)
  serve-IsFresh uses h = serve-IsFresh_from 0 uses none 0 h tt
