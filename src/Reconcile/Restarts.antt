-- ===== src/Reconcile/Restarts.antt =====
-- The stored dismissals, which a process that starts again reads.
use forex_automated_copy_tra.Base.{
  ◌≡◌, ◌≤◌, inl, inr, refl, sym, ap, ◌∙◌, Bool, true, Option, none, some, List, [], ◌∷◌, keep,
  arith, Bool-cases, Option-cases, All, All-imp, ==_iff, ◌==◌, length,
}
use forex_automated_copy_tra.Text.{Text}
use forex_automated_copy_tra.Text.Print.{text_eq_refl}
use forex_automated_copy_tra.Drift.Items.{DriftItem}
use forex_automated_copy_tra.Reconcile.{
  Reconciler, in_set, has_id, add, find_item, apply_dismissals, show_items, dismiss, restart,
}
use forex_automated_copy_tra.Reconcile.Dismissals.{in_set-keep}

module _ {ℓ} {A : Type ℓ} where
  keep-agrees :
      (p q : A → Bool) (xs : List A) → All (λ (x : A). q x ≡ p x) xs → keep q xs ≡ keep p xs
  keep-agrees p q [] h = refl
  keep-agrees p q (x ∷ xs) h = ground (arith, h.0, keep-agrees p q xs h.1)

  length-keep : (p : A → Bool) (xs : List A) → length (keep p xs) ≤ length xs
  length-keep p [] = omega arith
  length-keep p (x ∷ xs) = ground (arith, length-keep p xs)

  keep-all : (p : A → Bool) (xs : List A) → length (keep p xs) ≡ length xs → keep p xs ≡ xs
  keep-all p [] h = refl
  keep-all p (x ∷ xs) h = elim (Bool-cases (p x)) [
    | inl kept ↦ ground (arith, kept, h, keep-all p xs)
    | inr dropped ↦ absurd (ground (arith, dropped, h, length-keep p xs))
  ]

members : (set : List Text) → All (λ (t : Text). in_set t set ≡ true) set
members [] = tt
members (s ∷ set) = (
  ground (arith, text_eq_refl s),
  All-imp (λ (t : Text). in_set t set ≡ true) (λ (t : Text). in_set t (s ∷ set) ≡ true)
      (λ t h. ground (arith, h)) set (members set),
)

-- Pruning to what is left leaves what is left.
prune-kept :
    (test : Text → Bool) (set : List Text)
    → keep (λ d. in_set d (keep test set)) set ≡ keep test set
prune-kept test set =
    keep-agrees test (λ d. in_set d (keep test set)) set
      (All-imp (λ (t : Text). in_set t set ≡ true) (λ (t : Text). in_set t (keep test set) ≡ test t)
        (λ t h. in_set-keep t test set ∙ ground (arith, h)) set (members set))

-- A run or a dismissal; one that raises changes nothing.
pub data Action : Type 0 where
  computes : List DriftItem → Action
  dismisses : Text → Action

module _ {F : Type 0} where
  abbrev pub or_same : Reconciler F → Option (Reconciler F) → Reconciler F
  or_same r none = r
  or_same r (some after) = after

  abbrev pub act : Action → Reconciler F → Reconciler F
  act (computes items) r = show_items items r
  act (dismisses t) r = or_same r (dismiss t r)

  abbrev pub act_all : List Action → Reconciler F → Reconciler F
  act_all [] r = r
  act_all (a ∷ actions) r = act_all actions (act a r)

  stored-act :
      (a : Action) (r : Reconciler F)
      → r.stored ≡ r.dismissals
      → (act a r).stored ≡ (act a r).dismissals
  unfolding show_items apply_dismissals dismiss
  stored-act (computes items) r h =
      elim (Bool-cases (length (keep (λ d. has_id d items) r.dismissals) == length r.dismissals)) [
        | inl same ↦
            rw (show_items, apply_dismissals, same)
              (h
                ∙ sym (
                    keep-all (λ d. has_id d items) r.dismissals
                      ((==_iff (length (keep (λ d. has_id d items) r.dismissals))
                          (length r.dismissals)).0
                        same)))
        | inr fewer ↦
            rw (show_items, apply_dismissals, fewer)
              (ap (keep (λ d. in_set d (keep (λ d. has_id d items) r.dismissals))) h
                ∙ prune-kept (λ d. has_id d items) r.dismissals)
      ]
  stored-act (dismisses t) r h = elim (Option-cases (find_item t r.current)) [
    | inl absent ↦ rw (act, dismiss, absent) h
    | inr (item, there) ↦ rw (act, dismiss, there) (ap (add t) h)
  ]

  stored-act_all :
      (actions : List Action) (r : Reconciler F)
      → r.stored ≡ r.dismissals
      → (act_all actions r).stored ≡ (act_all actions r).dismissals
  stored-act_all [] r h = h
  stored-act_all (a ∷ actions) r h = stored-act_all actions (act a r) (stored-act a r h)

  -- A process that starts again after any runs and dismissals has the dismissals that it had, if the
  -- stored ones were the same at first.
  pub restart-act_all :
      (actions : List Action) (r : Reconciler F)
      → r.stored ≡ r.dismissals
      → (restart (act_all actions r)).dismissals ≡ (act_all actions r).dismissals
  unfolding restart
  restart-act_all actions r h = stored-act_all actions r h
