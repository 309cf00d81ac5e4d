-- ===== src/Reconcile/Dismissals.antt =====
-- A dismissed item over the runs that follow.
use forex_automated_copy_tra.Base.{
  ◌≡◌, inl, inr, refl, sym, ap, subst, ◌∙◌, Bool, true, false, not, ◌&&◌, Option, none, some, List,
  [], ◌∷◌, ◌++◌, keep, arith, Bool-cases, Option-cases, All, ==_iff, ◌==◌,
}
use forex_automated_copy_tra.Text.{Text, text_eq}
use forex_automated_copy_tra.Text.Print.{text_eq_refl}
use forex_automated_copy_tra.Drift.Items.{DriftItem}
use forex_automated_copy_tra.Reconcile.{
  Reconciler, in_set, has_id, add, find_item, apply_dismissals, show_items, dismiss,
}

text_eq→eq : (s t : Text) → text_eq s t ≡ true → s ≡ t
unfolding text_eq
text_eq→eq [] [] h = refl
text_eq→eq [] (d ∷ t) h = ground (arith, h)
text_eq→eq (c ∷ s) [] h = ground (arith, h)
text_eq→eq (c ∷ s) (d ∷ t) h = elim (Bool-cases (c == d)) [
  | inl same ↦ λ i. ((==_iff c d).0 same) i ∷ text_eq→eq s t (ground (arith, same, h)) i
  | inr other ↦ absurd (ground (arith, other, h))
]

-- A test takes equal texts alike.
same_test : (t s : Text) (test : Text → Bool) → text_eq t s ≡ true → test s ≡ test t
same_test t s test h = ap test (sym (text_eq→eq t s h))

pub in_set-keep :
    (t : Text) (test : Text → Bool) (set : List Text)
    → in_set t (keep test set) ≡ (in_set t set && test t)
in_set-keep t test [] = refl
in_set-keep t test (s ∷ set) = elim (Bool-cases (text_eq t s)) [
  | inl hit ↦ ground (arith, hit, same_test t s test hit, in_set-keep t test set)
  | inr miss ↦ ground (arith, miss, in_set-keep t test set)
]

in_set-append : (t : Text) (set : List Text) → in_set t (set ++ t ∷ []) ≡ true
in_set-append t [] = ground (arith, text_eq_refl t)
in_set-append t (s ∷ set) = ground (arith, in_set-append t set)

in_set-add : (t : Text) (set : List Text) → in_set t (add t set) ≡ true
in_set-add t set = elim (Bool-cases (in_set t set)) [
  | inl there ↦ rw there there
  | inr absent ↦ rw absent (in_set-append t set)
]

has_id-keep :
    (t : Text) (test : Text → Bool) (items : List DriftItem)
    → has_id t (keep (λ (i : DriftItem). test i.id) items) ≡ (has_id t items && test t)
has_id-keep t test [] = refl
has_id-keep t test (i ∷ items) = elim (Bool-cases (text_eq t i.id)) [
  | inl hit ↦ ground (arith, hit, same_test t i.id test hit, has_id-keep t test items)
  | inr miss ↦ ground (arith, miss, has_id-keep t test items)
]

abbrev Each {ℓ} : {A : Type ℓ} → (A → Type 0) → Option A → Type 0
Each P none = Unit
Each P (some a) = P a

module _ {F : Type 0} where
  abbrev pub show_all : List (List DriftItem) → Reconciler F → Reconciler F
  show_all [] r = r
  show_all (items ∷ runs) r = show_all runs (show_items items r)

  current-show_items :
      (t : Text) (items : List DriftItem) (r : Reconciler F)
      → has_id t (show_items items r).current ≡ (has_id t items && not (in_set t r.dismissals))
  unfolding show_items apply_dismissals
  current-show_items t items r =
      has_id-keep t (λ id. not (in_set id (keep (λ d. has_id d items) r.dismissals))) items
      ∙ ground (arith, in_set-keep t (λ d. has_id d items) r.dismissals)

  dismissals-show_items :
      (t : Text) (items : List DriftItem) (r : Reconciler F)
      → in_set t (show_items items r).dismissals ≡ (in_set t r.dismissals && has_id t items)
  unfolding show_items apply_dismissals
  dismissals-show_items t items r = in_set-keep t (λ d. has_id d items) r.dismissals

  -- The item is dismissed, and not shown.
  abbrev IsHidden : Text → Reconciler F → Type 0
  IsHidden t r = (in_set t r.dismissals ≡ true) × (has_id t r.current ≡ false)

  hides_dismissed : (t : Text) (r : Reconciler F) → Each (IsHidden t) (dismiss t r)
  unfolding dismiss
  hides_dismissed t r = elim (Option-cases (find_item t r.current)) [
    | inl absent ↦ rw (dismiss, absent) tt
    | inr (item, there) ↦
        rw (dismiss, there)
          (
            in_set-add t r.dismissals,
            has_id-keep t (λ id. not (text_eq t id)) r.current ∙ ground (arith, text_eq_refl t),
          )
  ]

  dismiss-IsHidden :
      (t : Text) (r after : Reconciler F) → dismiss t r ≡ some after → IsHidden t after
  unfolding dismiss
  dismiss-IsHidden t r after h = subst (Each (IsHidden t)) h (hides_dismissed t r)

  show_all-IsHidden :
      (t : Text) (runs : List (List DriftItem)) (r : Reconciler F)
      → All (λ (items : List DriftItem). has_id t items ≡ true) runs
      → IsHidden t r
      → IsHidden t (show_all runs r)
  show_all-IsHidden t [] r h hidden = hidden
  show_all-IsHidden t (items ∷ runs) r h hidden =
      show_all-IsHidden t runs (show_items items r) h.1 (
        dismissals-show_items t items r ∙ ground (arith, h.0, hidden.0),
        current-show_items t items r ∙ ground (arith, hidden.0),
      )

  -- An item that was dismissed is not shown as long as each run computes it; in the first run that
  -- computes it after one that did not, it is shown again.
  pub dismiss-hides :
      (t : Text) (r after : Reconciler F) (runs : List (List DriftItem))
      (without again : List DriftItem)
      → dismiss t r ≡ some after
      → All (λ (items : List DriftItem). has_id t items ≡ true) runs
      → has_id t without ≡ false
      → has_id t again ≡ true
      → (has_id t (show_all runs after).current ≡ false)
        × (has_id t (show_items again (show_items without (show_all runs after))).current ≡ true)
  dismiss-hides t r after runs without again h computed cleared back =
      let hidden = show_all-IsHidden t runs after computed (dismiss-IsHidden t r after h) in
      let s = show_all runs after in
      (
        hidden.1,
        current-show_items t again (show_items without s)
            ∙ ground (arith, back, cleared, dismissals-show_items t without s),
      )
