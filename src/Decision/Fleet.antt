-- ===== src/Decision/Fleet.antt =====
-- The enabled slaves by account id.
use forex_automated_copy_tra.Base.{
  ℕ, ◌≡◌, refl, true, ◌||◌, some, List, [], ◌∷◌, map, contains, Dict, lookup, insert, keys,
  lookup-insert, ◌==◌, arith, if◌then◌else◌,
}
use forex_automated_copy_tra.Models.{SlaveConfig}
use forex_automated_copy_tra.Decision.Loops.{enabled, by_id_onto, by_id}

abbrev pub kept_ids : List SlaveConfig → List ℕ
kept_ids slaves = map (λ s. s.account_id) (enabled slaves)

-- The account ids of the slaves whose flag is on, in the fleet's order.
abbrev pub enabled_ids : List SlaveConfig → List ℕ
enabled_ids [] = []
enabled_ids (s ∷ slaves) =
    let rest = enabled_ids slaves in if s.enabled then s.account_id ∷ rest else rest

pub kept_ids-enabled : (slaves : List SlaveConfig) → kept_ids slaves ≡ enabled_ids slaves
unfolding enabled
kept_ids-enabled [] = refl
kept_ids-enabled (s ∷ slaves) = ground (arith, kept_ids-enabled slaves)

module _ {V : Type 0} where
  contains-keys-insert :
      (a k : ℕ) (v : V) (d : Dict V)
      → contains a (keys (insert k v d)) ≡ (a == k || contains a (keys d))
  contains-keys-insert a k v [] = refl
  contains-keys-insert a k v ((j, w) ∷ d) = ground (arith, contains-keys-insert a k v d)

  pub contains-keys-of_lookup :
      (k : ℕ) (d : Dict V) (v : V) → lookup k d ≡ some v → contains k (keys d) ≡ true
  contains-keys-of_lookup k [] v h = cc
  contains-keys-of_lookup k ((j, w) ∷ d) v h = ground (arith, contains-keys-of_lookup k d v)

contains-by_id_onto :
    (a : ℕ) (d : Dict SlaveConfig) (xs : List SlaveConfig)
    → contains a (keys (by_id_onto d xs))
      ≡ (contains a (keys d) || contains a (map (λ (s : SlaveConfig). s.account_id) xs))
unfolding by_id_onto
contains-by_id_onto a d [] = ground arith
contains-by_id_onto a d (s ∷ xs) = ground (
  arith,
  contains-by_id_onto a (insert s.account_id s d) xs,
  contains-keys-insert a s.account_id s d,
)

-- The dict's keys are the enabled slaves' ids.
pub contains-by_id :
    (a : ℕ) (slaves : List SlaveConfig)
    → contains a (keys (by_id slaves)) ≡ contains a (kept_ids slaves)
unfolding by_id
contains-by_id a slaves = contains-by_id_onto a [] (enabled slaves)

-- Every value stands under its own id.
by_id_onto-IsKeyed :
    (d : Dict SlaveConfig) (xs : List SlaveConfig)
    → ((k : ℕ) (s : SlaveConfig) → lookup k d ≡ some s → s.account_id ≡ k)
    → (k : ℕ) (s : SlaveConfig) → lookup k (by_id_onto d xs) ≡ some s
    → s.account_id ≡ k
unfolding by_id_onto
by_id_onto-IsKeyed d [] h k s e = h k s e
by_id_onto-IsKeyed d (x ∷ xs) h k s e =
    by_id_onto-IsKeyed (insert x.account_id x d) xs
      (λ j t f. ground (arith, lookup-insert x.account_id j x d, h j t)) k s e

pub lookup-by_id :
    (slaves : List SlaveConfig) (k : ℕ) (s : SlaveConfig)
    → lookup k (by_id slaves) ≡ some s
    → s.account_id ≡ k
unfolding by_id
lookup-by_id slaves k s e = by_id_onto-IsKeyed [] (enabled slaves) (λ j t f. cc) k s e
