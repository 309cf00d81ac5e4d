-- ===== src/Decision/Coverage.antt =====
-- Which accounts the intents of a decision are for.
use forex_automated_copy_tra.Base.{
  ℕ, ◌≡◌, refl, Bool, true, false, not, ◌||◌, Option, none, some, List, [], ◌∷◌, ◌++◌, map,
  contains, keep, Dict, lookup, keys, ◌==◌, arith, Option-cases, Bool-cases, ==_iff, ◌&&◌, inl, inr,
}
use forex_automated_copy_tra.Models.{SlaveConfig, SlaveIntent, account_of, AlertMessage}
use forex_automated_copy_tra.Decision.Loops.{
  by_id, for_slaves, for_entries, uncovered, with_alerts, for_mapped, alert_to,
}
use forex_automated_copy_tra.Decision.Fleet.{
  kept_ids, contains-by_id, contains-keys-of_lookup, lookup-by_id,
}

module _ {F : Type 0} where
  -- Some intent is for this account.
  abbrev pub addressed : ℕ → List (SlaveIntent F) → Bool
  addressed a [] = false
  addressed a (i ∷ intents) =
      elim (account_of i) [ none ↦ false | some b ↦ a == b ] || addressed a intents

  addressed-append :
      (a : ℕ) (xs ys : List (SlaveIntent F))
      → addressed a (xs ++ ys) ≡ (addressed a xs || addressed a ys)
  addressed-append a [] ys = refl
  addressed-append a (x ∷ xs) ys = ground (arith, addressed-append a xs ys)

  pub addressed-for_slaves :
      (a : ℕ) (body : SlaveConfig → Option (SlaveIntent F))
      → ((s : SlaveConfig) (i : SlaveIntent F) → body s ≡ some i → account_of i ≡ some s.account_id)
      → (xs : List SlaveConfig) (out : List (SlaveIntent F)) → for_slaves body xs ≡ some out
      → addressed a out ≡ contains a (map (λ (s : SlaveConfig). s.account_id) xs)
  unfolding for_slaves
  addressed-for_slaves a body own [] out e = cc
  addressed-for_slaves a body own (s ∷ xs) out e = elim (Option-cases (body s)) [
    | inl failed ↦ ground arith
    | inr (i, done) ↦ elim (Option-cases (for_slaves body xs)) [
      | inl failed ↦ ground arith
      | inr (rest, more) ↦
          ground (arith, own s i done, addressed-for_slaves a body own xs rest more)
    ]
  ]

  module _ {A : Type 0} (account : A → ℕ) (body : SlaveConfig → A → Option (SlaveIntent F)) where
    -- The intents of the loop are for the covered accounts, which are keys.
    addressed-for_entries :
        (a : ℕ) (d : Dict SlaveConfig)
        → ((k : ℕ) (s : SlaveConfig) → lookup k d ≡ some s → s.account_id ≡ k)
        → ((s : SlaveConfig) (entry : A) (i : SlaveIntent F)
            → s.account_id ≡ account entry
            → body s entry ≡ some i
            → account_of i ≡ some (account entry))
        → (entries : List A) (out : List (SlaveIntent F)) (covered : List ℕ)
        → for_entries account body d entries ≡ some (out, covered)
        → (addressed a out ≡ contains a covered)
          × (contains a covered ≡ true → contains a (keys d) ≡ true)
    unfolding for_entries
    addressed-for_entries a d keyed own [] out covered e = ground arith
    addressed-for_entries a d keyed own (entry ∷ entries) out covered e =
        elim (Option-cases (for_entries account body d entries)) [
          | inl failed ↦ ground arith
          | inr (r, more) ↦
              let ih = addressed-for_entries a d keyed own entries r.0 r.1 more in
              elim (Option-cases (lookup (account entry) d)) [
                | inl skipped ↦ ground (arith, ih)
                | inr (s, found) ↦ elim (Option-cases (body s entry)) [
                  | inl failed ↦ ground arith
                  | inr (i, done) ↦ ground (
                    arith,
                    ih,
                    own s entry i (keyed (account entry) s found) done,
                    contains-keys-of_lookup (account entry) d s found,
                  )
                ]
              ]
        ]

addressed-alerts :
    (F : Type 0) (a : ℕ) (m : AlertMessage) (xs : List ℕ)
    → addressed a (map (λ x. alert_to {F = F} x m) xs) ≡ contains a xs
addressed-alerts F a m [] = refl
addressed-alerts F a m (x ∷ xs) = ground (arith, addressed-alerts F a m xs)

contains-keep-not :
    (a : ℕ) (covered xs : List ℕ)
    → contains a (keep (λ x. not (contains x covered)) xs)
      ≡ (contains a xs && not (contains a covered))
contains-keep-not a covered [] = refl
contains-keep-not a covered (x ∷ xs) = elim (Bool-cases (a == x)) [
  | inl same ↦ rw ((==_iff a x).0 same) (ground (arith, contains-keep-not x covered xs))
  | inr other ↦ ground (arith, contains-keep-not a covered xs)
]

-- Python's iteration of a set visits its elements and nothing else.
abbrev pub VisitsAll : (List ℕ → List ℕ) → Type 0
VisitsAll set_order = (a : ℕ) (xs : List ℕ) → contains a (set_order xs) ≡ contains a xs

addressed-with_alerts :
    (F : Type 0) (set_order : List ℕ → List ℕ) (a : ℕ) (m : AlertMessage) (d : Dict SlaveConfig)
    (out : List (SlaveIntent F)) (covered : List ℕ)
    → VisitsAll set_order
    → addressed a out ≡ contains a covered
    → (contains a covered ≡ true → contains a (keys d) ≡ true)
    → addressed a (with_alerts set_order m d (out, covered)) ≡ contains a (keys d)
unfolding with_alerts
addressed-with_alerts F set_order a m d out covered visits here inside =
    rw
      (
        addressed-append a out (map (λ x. alert_to {F = F} x m) (set_order (uncovered d covered))),
        addressed-alerts F a m (set_order (uncovered d covered)),
        visits a (uncovered d covered),
        contains-keep-not a covered (keys d),
        here,
      )
      (ground (arith, inside))

module _ {F : Type 0} {A : Type 0} (set_order : List ℕ → List ℕ)
    (visits : VisitsAll set_order) where
  pub addressed-for_mapped :
      (a : ℕ) (account : A → ℕ) (body : SlaveConfig → A → Option (SlaveIntent F)) (m : AlertMessage)
      → ((s : SlaveConfig) (entry : A) (i : SlaveIntent F)
          → s.account_id ≡ account entry
          → body s entry ≡ some i
          → account_of i ≡ some (account entry))
      → (entries : List A) (slaves : List SlaveConfig) (out : List (SlaveIntent F))
      → for_mapped set_order account body m entries slaves ≡ some out
      → addressed a out ≡ contains a (kept_ids slaves)
  unfolding for_mapped
  addressed-for_mapped a account body m own entries slaves out e =
      elim (Option-cases (for_entries account body (by_id slaves) entries)) [
        | inl failed ↦ ground arith
        | inr (r, done) ↦
            let inner =
              addressed-for_entries account body a (by_id slaves) (lookup-by_id slaves) own entries
                r.0 r.1 done in
            ground (
              arith,
              addressed-with_alerts F set_order a m (by_id slaves) r.0 r.1 visits inner.0 inner.1,
              contains-by_id a slaves,
            )
      ]
