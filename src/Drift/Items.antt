-- ===== src/Drift/Items.antt =====
-- The snapshots, the rows and the items of compute_drift, and the indexes that it builds first. Of an
-- item's text the values it shows are kept; the first twelve digits of a text's md5 are the
-- parameter `digest`.
use forex_automated_copy_tra.Base.{
  ℕ, zero, suc, Bool, true, false, ◌&&◌, Option, none, some, List, [], ◌∷◌, ◌++◌, if◌then◌else◌,
  ◌==◌, Dict, lookup,
}
use forex_automated_copy_tra.Text.{Text, codes, str}
use forex_automated_copy_tra.Models.{Side}
use forex_automated_copy_tra.Mappings.{MappingStatus, is_active}
use forex_automated_copy_tra.Drift.Signed.{ℤ}

pub record PositionSnapshot (F : Type 0) : Type 0 where
  pub position_id : ℕ
  pub symbol_id : ℕ
  pub side : Side
  pub volume : ℕ
  pub price : F
  pub label : Text
  pub stop_loss : Option F
  pub take_profit : Option F

-- A row of `mappings` as the reconciler reads it; `created_at` in seconds.
pub record MappingRow : Type 0 where
  pub slave_account_id : ℕ
  pub master_position_id : Option ℕ
  pub master_order_id : Option ℕ
  pub slave_position_id : Option ℕ
  pub slave_order_id : Option ℕ
  pub slave_volume : Option ℕ
  pub client_order_id : Option Text
  pub status : MappingStatus
  pub created_at : Option ℕ

pub data DriftKind : Type 0 where
  orphan_slave_position missing_slave_copy unmapped_master_position unfilled_slave_order
        stale_pending_copy :
      DriftKind

pub data Detail : Type 0 where
  master_gone : Option ℕ → Detail
  no_active_mapping : Detail
  copy_vanished : ℕ → Detail
  opened_while_down : ℕ → Detail
  never_materialized : Detail
  never_activated : Option ℕ → Option ℕ → ℕ → Option Text → Detail
  net_differs : ℕ → ℤ → ℕ → ℤ → Detail

pub record DriftItem : Type 0 where
  pub id : Text
  pub kind : DriftKind
  pub account_id : Option ℕ
  pub position_id : Option ℕ
  pub order_id : Option ℕ
  pub detail : Detail
  pub volume : Option ℕ

-- `"|".join(parts)`
abbrev pub join : List Text → Text
join [] = []
join (part ∷ []) = part
join (part ∷ next ∷ parts) = part ++ b'|' ∷ join (next ∷ parts)

abbrev pub stable_id : (Text → Text) → List Text → Text
stable_id digest parts = digest (join parts)

-- What an `if` takes as true: 0 is no id.
abbrev pub present : Option ℕ → Option ℕ
present none = none
present (some zero) = none
present (some (suc n)) = some (suc n)

abbrev pub str_or_none : Option ℕ → Text
str_or_none none = codes "None"
str_or_none (some n) = str n

abbrev pub text_or_none : Option Text → Text
text_or_none none = codes "None"
text_or_none (some t) = t

-- A loop that appends at most one item for each element.
unfoldable pub found {ℓ κ} : {A : Type ℓ} {B : Type κ} → (A → Option B) → List A → List B
found check [] = []
found check (x ∷ xs) =
    let rest = found check xs in elim (check x) [ none ↦ rest | some y ↦ y ∷ rest ]

abbrev pub Pair : Type 0
Pair = ℕ × ℕ

abbrev pub is_pair_of : Pair → Pair → Bool
is_pair_of (a, b) (c, d) = a == c && b == d

-- A dict whose keys are pairs.
module _ {ℓ} {V : Type ℓ} where
  abbrev pub get_pair : Pair → List (Pair × V) → Option V
  get_pair key [] = none
  get_pair key ((k, v) ∷ d) =
      let rest = get_pair key d in elim (is_pair_of key k) [ true ↦ some v | false ↦ rest ]

  abbrev pub set_pair : Pair → V → List (Pair × V) → List (Pair × V)
  set_pair key v [] = (key, v) ∷ []
  set_pair key v ((k, w) ∷ d) =
      let rest = set_pair key v d in
      elim (is_pair_of key k) [ true ↦ (k, v) ∷ d | false ↦ (k, w) ∷ rest ]

  -- `d.setdefault(key, []).append(v)`
  abbrev pub append_at : Pair → V → List (Pair × List V) → List (Pair × List V)
  append_at key v [] = (key, v ∷ []) ∷ []
  append_at key v ((k, vs) ∷ d) =
      let rest = append_at key v d in
      elim (is_pair_of key k) [ true ↦ (k, vs ++ v ∷ []) ∷ d | false ↦ (k, vs) ∷ rest ]

-- The key of an active row with a slave's position.
abbrev pub ticket_of : MappingRow → Option Pair
ticket_of m = elim (present m.slave_position_id) [
  | none ↦ none
  | some position ↦ if is_active m.status then some (m.slave_account_id, position) else none
]

unfoldable pub by_slave_pos : List MappingRow → List (Pair × MappingRow) → List (Pair × MappingRow)
by_slave_pos [] index = index
by_slave_pos (m ∷ mappings) index =
    by_slave_pos mappings (elim (ticket_of m) [ none ↦ index | some key ↦ set_pair key m index ])

-- The keys of `mappings_by_master_pos`; no check reads its values.
unfoldable pub mapped_masters : List MappingRow → List ℕ
unfolding found
mapped_masters mappings =
    found (λ (m : MappingRow). if is_active m.status then present m.master_position_id else none)
      mappings

module _ {F : Type 0} where
  -- `{p.position_id: p for p in positions}.get(ticket)`
  unfoldable pub position_at : ℕ → List (PositionSnapshot F) → Option (PositionSnapshot F)
  position_at ticket [] = none
  position_at ticket (p ∷ positions) = elim (position_at ticket positions) [
    | some later ↦ some later
    | none ↦ if p.position_id == ticket then some p else none
  ]

  abbrev pub is_known : Option ℕ → List (PositionSnapshot F) → Bool
  is_known none positions = false
  is_known (some id) positions = elim (position_at id positions) [ none ↦ false | some p ↦ true ]

  -- `slave_positions.get(account_id, [])`
  abbrev pub positions_of : ℕ → Dict (List (PositionSnapshot F)) → List (PositionSnapshot F)
  positions_of account positions = elim (lookup account positions) [ none ↦ [] | some ps ↦ ps ]
