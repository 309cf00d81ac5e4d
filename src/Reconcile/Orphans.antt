-- ===== src/Reconcile/Orphans.antt =====
-- Closing an orphan that is the excess of a net position.
use forex_automated_copy_tra.Base.{
  ℕ, zero, suc, ◌-◌, ◌≤◌, ◌≡◌, inl, inr, refl, sym, ap, ◌∙◌, false, Option, none, some, List, ◌==◌,
  arith, Bool-cases,
}
use forex_automated_copy_tra.Text.{Text}
use forex_automated_copy_tra.Drift.Signed.{ℤ, equals}
use forex_automated_copy_tra.Drift.Items.{
  PositionSnapshot, MappingRow, DriftItem, orphan_slave_position, present,
}
use forex_automated_copy_tra.Drift.Netting.{compare_net, actual_volume}
use forex_automated_copy_tra.Drift.Repairs.{with_volume, compare_net-repairs}
use forex_automated_copy_tra.Reconcile.{Reconciler, find_item, close_orphan}

present-nonzero : (n : ℕ) → (n == 0) ≡ false → present (some n) ≡ some n
present-nonzero zero h = ground (arith, h)
present-nonzero (suc n) h = refl

abbrev place_of : Option DriftItem → Option ℕ × Option ℕ
place_of none = (none, none)
place_of (some item) = (item.account_id, item.position_id)

module _ {F : Type 0} (digest : Text → Text) (account ticket copies : ℕ) (expected : ℤ) where
  close_orphan-item :
      (rows : List MappingRow) (t : Text) (r : Reconciler F) (item : DriftItem) (v : ℕ)
      → find_item t r.current ≡ some item
      → item.kind ≡ orphan_slave_position
      → item.account_id ≡ some account
      → item.position_id ≡ some ticket
      → item.volume ≡ some (suc v)
      → (account == 0) ≡ false
      → (ticket == 0) ≡ false
      → close_orphan rows t r ≡ some (account, ticket, suc v)
  unfolding close_orphan
  close_orphan-item rows t r item v there kind own at volume a b =
      rw
        (
          close_orphan,
          there,
          kind,
          own,
          present-nonzero account a,
          at,
          present-nonzero ticket b,
          volume,
        )
        refl

  compare_net-place :
      (p : PositionSnapshot F) (item : DriftItem)
      → compare_net digest account ticket copies expected (some p) ≡ some item
      → place_of (some item) ≡ (some account, some ticket)
  unfolding compare_net
  compare_net-place p item h = elim (Bool-cases (equals (actual_volume (some p)) expected)) [
    | inl same ↦ absurd (ground (arith, same, h))
    | inr differs ↦ ap place_of (sym h) ∙ rw (compare_net, differs) refl
  ]

  -- The closing that is dispatched takes the excess over the copies as they are compared.
  pub close_orphan-repairs :
      (rows : List MappingRow) (t : Text) (r : Reconciler F) (p : PositionSnapshot F)
      (item : DriftItem)
      → compare_net digest account ticket copies expected (some p) ≡ some item
      → item.kind ≡ orphan_slave_position
      → find_item t r.current ≡ some item
      → (account == 0) ≡ false
      → (ticket == 0) ≡ false
      → (v : ℕ) × (close_orphan rows t r ≡ some (account, ticket, v))
        × (v ≤ p.volume)
        × (compare_net digest account ticket copies expected (some (with_volume (p.volume - v) p))
            ≡ none)
  close_orphan-repairs rows t r p item h kind there a b =
      by_volume (compare_net-repairs digest account ticket copies expected p item h kind)
    where
      by_volume :
          ((v : ℕ) × (item.volume ≡ some v)
            × (v ≤ p.volume)
            × (compare_net digest account ticket copies expected
                  (some (with_volume (p.volume - v) p))
                ≡ none))
          → (v : ℕ) × (close_orphan rows t r ≡ some (account, ticket, v))
            × (v ≤ p.volume)
            × (compare_net digest account ticket copies expected
                  (some (with_volume (p.volume - v) p))
                ≡ none)
      by_volume (zero, volume, fits, repaired) = absurd (ground (arith, h, repaired))
      by_volume (suc v, volume, fits, repaired) = (
        suc v,
        close_orphan-item rows t r item v there kind (ap (λ x. x.0) (compare_net-place p item h))
            (ap (λ x. x.1) (compare_net-place p item h)) volume a b,
        fits,
        repaired,
      )
