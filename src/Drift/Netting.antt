-- ===== src/Drift/Netting.antt =====
-- The net positions of compute_drift: which tickets are compared as a whole, and the comparison of
-- each with the signed sum of its copies.
use forex_automated_copy_tra.Base.{
  ℕ, Bool, true, false, ◌&&◌, ◌||◌, Option, none, some, List, [], ◌∷◌, if◌then◌else◌, ◌==◌, Dict,
  contains, ltb, leb, length,
}
use forex_automated_copy_tra.Text.{Text, codes, str}
use forex_automated_copy_tra.Models.{Side}
use forex_automated_copy_tra.Mappings.{or_zero}
use forex_automated_copy_tra.Drift.Signed.{
  ℤ, pos, ◌+ℤ◌, negate, abs, is_positive, is_zero, equals, signed,
}
use forex_automated_copy_tra.Drift.Items.{
  PositionSnapshot, MappingRow, orphan_slave_position, missing_slave_copy, net_differs, DriftItem,
  stable_id, Pair, append_at, ticket_of, position_at, positions_of,
}

-- `sides.get(m.get('client_order_id')) in ('BUY', 'SELL')`, with the side.
abbrev pub side_of : (Text → Option Side) → MappingRow → Option Side
side_of sides m = elim m.client_order_id [ none ↦ none | some coid ↦ sides coid ]

unfoldable pub net_groups :
    List ℕ → List MappingRow → List (Pair × List MappingRow) → List (Pair × List MappingRow)
net_groups netting [] groups = groups
net_groups netting (m ∷ mappings) groups = net_groups netting mappings (elim (ticket_of m) [
  | none ↦ groups
  | some key ↦ if contains m.slave_account_id netting then append_at key m groups else groups
])

abbrev pub all_sided : (Text → Option Side) → List MappingRow → Bool
all_sided sides [] = true
all_sided sides (m ∷ rows) = elim (side_of sides m) [
  | none ↦ false
  | some side ↦ all_sided sides rows
]

-- The items of `net_groups` whose key is in `compared`.
unfoldable pub compared_groups :
    (Text → Option Side) → List (Pair × List MappingRow) → List (Pair × List MappingRow)
compared_groups sides [] = []
compared_groups sides ((key, rows) ∷ groups) =
    let rest = compared_groups sides groups in
    if all_sided sides rows then (key, rows) ∷ rest else rest

abbrev pub keys_of : List (Pair × List MappingRow) → List Pair
keys_of [] = []
keys_of ((key, rows) ∷ groups) = key ∷ keys_of groups

-- Tuples compare by the first component, then by the second.
abbrev pub comes_before : Pair → Pair → Bool
comes_before (a, b) (c, d) = ltb a c || (a == c && leb b d)

abbrev pub place_group :
    Pair × List MappingRow → List (Pair × List MappingRow) → List (Pair × List MappingRow)
place_group g [] = g ∷ []
place_group (key, rows) ((k, r) ∷ groups) =
    let rest = place_group (key, rows) groups in
    if comes_before key k then (key, rows) ∷ (k, r) ∷ groups else (k, r) ∷ rest

-- `sorted(compared)`
abbrev pub sort_groups : List (Pair × List MappingRow) → List (Pair × List MappingRow)
sort_groups [] = []
sort_groups (g ∷ groups) = place_group g (sort_groups groups)

abbrev pub expected_volume : (Text → Option Side) → List MappingRow → ℤ
expected_volume sides [] = pos 0
expected_volume sides (m ∷ rows) =
    let rest = expected_volume sides rows in
    elim (side_of sides m) [
      | none ↦ rest
      | some side ↦ signed side (or_zero m.slave_volume) +ℤ rest
    ]

-- `abs(short)`, and whether `short > 0`, where `short = want - held`.
abbrev pub shortfall : ℤ → ℤ → Bool × ℕ
shortfall expected actual =
    let upward = is_positive (if is_zero expected then actual else expected) in
    let short = pos (abs expected) +ℤ (if upward then negate actual else actual) in
    (is_positive short, abs short)

module _ {F : Type 0} where
  abbrev pub actual_volume : Option (PositionSnapshot F) → ℤ
  actual_volume none = pos 0
  actual_volume (some p) = signed p.side p.volume

  -- Check 6, for one ticket with its copies' sum.
  unfoldable pub compare_net :
      (Text → Text) → ℕ → ℕ → ℕ → ℤ → Option (PositionSnapshot F) → Option DriftItem
  compare_net digest account ticket copies expected p =
      if equals (actual_volume p) expected
      then none
      else some (record {
        id = stable_id digest (codes "net_volume" ∷ str account ∷ str ticket ∷ []);
        kind =
            if (shortfall expected (actual_volume p)).0
            then missing_slave_copy
            else orphan_slave_position;
        account_id = some account;
        position_id = some ticket;
        order_id = none;
        detail = net_differs ticket (actual_volume p) copies expected;
        volume = some (shortfall expected (actual_volume p)).1;
      })

  unfoldable pub net_volume :
      (Text → Text)
      → (Text → Option Side)
      → Dict (List (PositionSnapshot F))
      → List ℕ
      → Pair × List MappingRow
      → Option DriftItem
  unfolding compare_net
  net_volume digest sides slaves enabled ((account, ticket), rows) =
      if contains account enabled
      then compare_net digest account ticket (length rows) (expected_volume sides rows)
          (position_at ticket (positions_of account slaves))
      else none
