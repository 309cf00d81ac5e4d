-- ===== src/Drift/Vanished.antt =====
-- A copy that vanished at the broker: compute_drift reports it.
use forex_automated_copy_tra.Base.{
  ℕ, ◌≡◌, inl, inr, refl, sym, ap, ◌∙◌, Bool, true, false, not, ◌&&◌, Option, none, some, List, [],
  ◌∷◌, if◌then◌else◌, ◌==◌, contains, arith, Bool-cases, Option-cases, All, Dict, ==_refl,
}
use mathlib.Core.List.{Memᴰ}
use mathlib.Core.List.Memᴰ
use forex_automated_copy_tra.Text.{Text}
use forex_automated_copy_tra.Models.{Side}
use forex_automated_copy_tra.Mappings.{active, is_active}
use forex_automated_copy_tra.Drift.Items.{
  PositionSnapshot, MappingRow, missing_slave_copy, DriftItem, present, found, Pair, position_at,
  is_known, positions_of, append_at, ticket_of,
}
use forex_automated_copy_tra.Drift.Checks.{missing_copy, vanished, contains_pair}
use forex_automated_copy_tra.Drift.Netting.{net_groups, compared_groups, keys_of}
use forex_automated_copy_tra.Drift.Compute.{
  text_before, place_item, sort_items, Fleet, compared, orphans, drift_items, compute_drift,
}

Mem-found {ℓ κ} :
    {A : Type ℓ} {B : Type κ} (check : A → Option B) (x : A) (y : B) (xs : List A)
    → check x ≡ some y
    → Memᴰ x xs
    → Memᴰ y (found check xs)
unfolding found
Mem-found check x y [] h m = absurd (Memᴰ.not-nil m)
Mem-found check x y (z ∷ xs) h (Memᴰ.head e) = rw (found, ap check (sym e), h) (Memᴰ.head refl)
Mem-found check x y (z ∷ xs) h (Memᴰ.tail m) = elim (Option-cases (check z)) [
  | inl nothing ↦ rw (found, nothing) (Mem-found check x y xs h m)
  | inr (w, reported) ↦ rw (found, reported) (Memᴰ.tail (Mem-found check x y xs h m))
]

Mem-place_here : (item : DriftItem) (items : List DriftItem) → Memᴰ item (place_item item items)
unfolding place_item
Mem-place_here item [] = Memᴰ.head refl
Mem-place_here item (next ∷ items) = elim (Bool-cases (text_before item.id next.id)) [
  | inl before ↦ rw (place_item, before) (Memᴰ.head refl)
  | inr after ↦ rw (place_item, after) (Memᴰ.tail (Mem-place_here item items))
]

Mem-place_there :
    (x item : DriftItem) (items : List DriftItem) → Memᴰ x items → Memᴰ x (place_item item items)
unfolding place_item
Mem-place_there x item [] h = absurd (Memᴰ.not-nil h)
Mem-place_there x item (next ∷ items) h = elim (Bool-cases (text_before item.id next.id)) [
  | inl before ↦ rw (place_item, before) (Memᴰ.tail h)
  | inr after ↦ elim (Memᴰ.cases_cons h) [
    | inl same ↦ rw (place_item, after) (Memᴰ.head same)
    | inr m ↦ rw (place_item, after) (Memᴰ.tail (Mem-place_there x item items m))
  ]
]

Mem-sort : (x : DriftItem) (items : List DriftItem) → Memᴰ x items → Memᴰ x (sort_items items)
unfolding sort_items
Mem-sort x [] h = absurd (Memᴰ.not-nil h)
Mem-sort x (item ∷ items) (Memᴰ.head e) = Memᴰ.cast e (Mem-place_here item (sort_items items))
Mem-sort x (item ∷ items) (Memᴰ.tail m) =
    Mem-place_there x item (sort_items items) (Mem-sort x items m)

-- Only accounts that net have groups.
abbrev spares : ℕ → List (Pair × List MappingRow) → Bool
spares account [] = true
spares account (((a, t), rows) ∷ groups) = not (account == a) && spares account groups

spares-append_at :
    (account a t : ℕ) (m : MappingRow) (groups : List (Pair × List MappingRow))
    → (account == a) ≡ false
    → spares account groups ≡ true
    → spares account (append_at (a, t) m groups) ≡ true
spares-append_at account a t m [] h k = ground (arith, h)
spares-append_at account a t m (((b, u), rows) ∷ groups) h k =
    ground (arith, h, k, spares-append_at account a t m groups h)

spares-step :
    (netting : List ℕ) (account : ℕ) (m : MappingRow) (groups : List (Pair × List MappingRow))
    → contains account netting ≡ false
    → spares account groups ≡ true
    → spares account (elim (ticket_of m) [
      | none ↦ groups
      | some key ↦ if contains m.slave_account_id netting then append_at key m groups else groups
    ])
      ≡ true
spares-step netting account m groups h k = elim (Bool-cases (contains m.slave_account_id netting)) [
  | inl own ↦ elim (Option-cases (present m.slave_position_id)) [
    | inl no_position ↦ rw no_position k
    | inr (position, there) ↦ elim (Bool-cases (is_active m.status)) [
      | inl on ↦
          rw (there, on, own)
            (spares-append_at account m.slave_account_id position m groups (ground (arith, h, own))
              k)
      | inr off ↦ rw (there, off) k
    ]
  ]
  | inr other ↦ ground (arith, other, k)
]

spares-net_groups :
    (netting : List ℕ) (account : ℕ) (mappings : List MappingRow)
    (groups : List (Pair × List MappingRow))
    → contains account netting ≡ false
    → spares account groups ≡ true
    → spares account (net_groups netting mappings groups) ≡ true
unfolding net_groups
spares-net_groups netting account [] groups h k = k
spares-net_groups netting account (m ∷ mappings) groups h k =
    spares-net_groups netting account mappings _ h (spares-step netting account m groups h k)

spares-compared :
    (sides : Text → Option Side) (account position : ℕ) (groups : List (Pair × List MappingRow))
    → spares account groups ≡ true
    → contains_pair (keys_of (compared_groups sides groups)) (account, position) ≡ false
unfolding compared_groups
spares-compared sides account position [] h = refl
spares-compared sides account position (((a, t), rows) ∷ groups) h =
    ground (arith, h, spares-compared sides account position groups)

module _ {F : Type 0} where
  position_at-absent :
      (ticket : ℕ) (positions : List (PositionSnapshot F))
      → All (λ (p : PositionSnapshot F). (p.position_id == ticket) ≡ false) positions
      → position_at ticket positions ≡ none
  unfolding position_at
  position_at-absent ticket [] h = refl
  position_at-absent ticket (p ∷ positions) h =
      rw (position_at, position_at-absent ticket positions h.1, h.0) refl

  position_at-present :
      (p : PositionSnapshot F) (positions : List (PositionSnapshot F))
      → Memᴰ p positions
      → is_known (some p.position_id) positions ≡ true
  unfolding position_at
  position_at-present p [] h = absurd (Memᴰ.not-nil h)
  position_at-present p (q ∷ positions) h =
      elim (Option-cases (position_at p.position_id positions)) [
        | inr (later, there) ↦ rw (is_known, position_at, there) refl
        | inl absent ↦ elim (Memᴰ.cases_cons h) [
          | inl same ↦ rw (is_known, position_at, absent, sym same, ==_refl p.position_id) refl
          | inr m ↦ absurd (ground (arith, absent, position_at-present p positions m))
        ]
      ]

missing_copy-vanished :
    {F : Type 0} (digest : Text → Text) (masters : List (PositionSnapshot F))
    (slaves : Dict (List (PositionSnapshot F))) (enabled : List ℕ) (keys : List Pair)
    (m : MappingRow) (position : ℕ)
    → is_active m.status ≡ true
    → (m.slave_account_id == 0) ≡ false
    → contains m.slave_account_id enabled ≡ true
    → present m.slave_position_id ≡ some position
    → contains_pair keys (m.slave_account_id, position) ≡ false
    → is_known m.master_position_id masters ≡ true
    → position_at position (positions_of m.slave_account_id slaves) ≡ none
    → (item : DriftItem) × (missing_copy digest masters slaves enabled keys m ≡ some item)
      × (item.kind ≡ missing_slave_copy)
      × (item.account_id ≡ some m.slave_account_id)
      × (item.position_id ≡ some position)
unfolding missing_copy
missing_copy-vanished digest masters slaves enabled keys m position on nonzero own ticket single
      known gone =
    (
      vanished digest m.slave_account_id position,
      rw (missing_copy, on, nonzero, own, ticket, single, known, gone) refl,
      refl,
      refl,
      refl,
    )

-- An active copy of a position that the master still has, on an enabled account that does not net, is
-- reported as missing when the broker has no such position.
pub compute_drift-missing :
    {F : Type 0} (digest : Text → Text) (now stale_after : ℕ) (dry_run : Bool) (fleet : Fleet F)
    (m : MappingRow) (master : PositionSnapshot F) (position : ℕ)
    → Memᴰ m fleet.mappings
    → m.status ≡ active
    → (m.slave_account_id == 0) ≡ false
    → contains m.slave_account_id fleet.enabled_slave_ids ≡ true
    → contains m.slave_account_id fleet.netting_slave_ids ≡ false
    → present m.slave_position_id ≡ some position
    → Memᴰ master fleet.master_positions
    → m.master_position_id ≡ some master.position_id
    → All
        (λ (p : PositionSnapshot F). (p.position_id == position) ≡ false)
        (positions_of m.slave_account_id fleet.slave_positions)
    → (item : DriftItem) × Memᴰ item (compute_drift digest now stale_after dry_run fleet)
      × (item.kind ≡ missing_slave_copy)
      × (item.account_id ≡ some m.slave_account_id)
      × (item.position_id ≡ some position)
unfolding compute_drift drift_items
compute_drift-missing digest now stale_after dry_run fleet m master position row on nonzero own
      hedging ticket opened copies absent =
    (
      reported.0,
      Mem-sort reported.0 (drift_items digest fleet now stale_after dry_run) (
          Memᴰ.append_right (orphans digest fleet) (
            Memᴰ.append_left _ (
              Mem-found
                (missing_copy digest fleet.master_positions fleet.slave_positions
                  fleet.enabled_slave_ids (keys_of (compared fleet)))
                m reported.0 fleet.mappings reported.1 row))),
      reported.2,
      reported.3,
      reported.4,
    )
  where
    reported :
        (item : DriftItem) × (missing_copy digest fleet.master_positions fleet.slave_positions
            fleet.enabled_slave_ids
            (keys_of (compared fleet))
            m
          ≡ some item)
        × (item.kind ≡ missing_slave_copy)
        × (item.account_id ≡ some m.slave_account_id)
        × (item.position_id ≡ some position)
    reported =
        missing_copy-vanished digest fleet.master_positions fleet.slave_positions
          fleet.enabled_slave_ids (keys_of (compared fleet)) m position (ap is_active on) nonzero
          own ticket
          (spares-compared fleet.mapping_sides m.slave_account_id position
            (net_groups fleet.netting_slave_ids fleet.mappings [])
            (spares-net_groups fleet.netting_slave_ids m.slave_account_id fleet.mappings [] hedging
              refl))
          (ap (λ o. is_known o fleet.master_positions) copies
            ∙ position_at-present master fleet.master_positions opened)
          (position_at-absent position (positions_of m.slave_account_id fleet.slave_positions)
            absent)
