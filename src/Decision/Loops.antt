-- ===== src/Decision/Loops.antt =====
-- The loops that the handlers of copier/src/copier/domain/decision.py share.
use forex_automated_copy_tra.Base.{
  ℕ, not, Option, none, some, List, [], ◌∷◌, ◌++◌, map, keep, contains, Dict, lookup, insert, keys,
  String, str_eq, if◌then◌else◌,
}
use forex_automated_copy_tra.Sizing.{◌>>=◌}
use forex_automated_copy_tra.Models.{SymbolInfo, SlaveConfig, AlertMessage, SlaveIntent, alert}

-- `_enabled`
unfoldable pub enabled : List SlaveConfig → List SlaveConfig
enabled slaves = keep (λ s. s.enabled) slaves

unfoldable pub by_id_onto : Dict SlaveConfig → List SlaveConfig → Dict SlaveConfig
by_id_onto d [] = d
by_id_onto d (s ∷ slaves) = by_id_onto (insert s.account_id s d) slaves

-- `_by_id`
unfoldable pub by_id : List SlaveConfig → Dict SlaveConfig
unfolding enabled by_id_onto
by_id slaves = by_id_onto [] (enabled slaves)

-- `s.symbols.get(name)`
unfoldable pub get_symbol : String → List (String × SymbolInfo) → Option SymbolInfo
get_symbol name [] = none
get_symbol name ((key, info) ∷ symbols) =
    if str_eq key name then some info else get_symbol name symbols

-- `enabled.keys() - covered`
unfoldable pub uncovered : Dict SlaveConfig → List ℕ → List ℕ
uncovered d covered = keep (λ a. not (contains a covered)) (keys d)

-- `sym.step_volume if sym is not None else 1`
abbrev pub step_or_one : Option SymbolInfo → ℕ
step_or_one none = 1
step_or_one (some sym) = sym.step_volume

module _ {F : Type 0} where
  abbrev pub alert_to : ℕ → AlertMessage → SlaveIntent F
  alert_to account message = alert (record { slave_account_id = some account; message = message })

  -- A loop that appends one intent for each slave.
  unfoldable pub for_slaves :
      (SlaveConfig → Option (SlaveIntent F)) → List SlaveConfig → Option (List (SlaveIntent F))
  for_slaves body [] = some []
  for_slaves body (s ∷ slaves) = do
    intent ← body s
    out ← for_slaves body slaves
    some (intent ∷ out)

  -- The loop over mapped copies that the other handlers share: an entry of a slave that is not
  -- enabled is passed over; any other gives an intent, and its account is covered.
  module _ {A : Type 0} (account : A → ℕ) (body : SlaveConfig → A → Option (SlaveIntent F)) where
    unfoldable pub for_entries : Dict SlaveConfig → List A → Option (List (SlaveIntent F) × List ℕ)
    for_entries d [] = some ([], [])
    for_entries d (entry ∷ entries) = do
      (out, covered) ← for_entries d entries
      elim (lookup (account entry) d) [
        | none ↦ some (out, covered)
        | some s ↦ do intent ← body s entry; some (intent ∷ out, account entry ∷ covered)
      ]

  -- What a handler appends last: an alert for each enabled slave that has no copy.
  unfoldable pub with_alerts :
      (List ℕ → List ℕ)
      → AlertMessage
      → Dict SlaveConfig
      → List (SlaveIntent F) × List ℕ
      → List (SlaveIntent F)
  unfolding uncovered
  with_alerts set_order message d (out, covered) =
      out ++ map (λ a. alert_to a message) (set_order (uncovered d covered))

  unfoldable pub for_mapped :
      {A : Type 0}
      → (List ℕ → List ℕ)
      → (A → ℕ)
      → (SlaveConfig → A → Option (SlaveIntent F))
      → AlertMessage
      → List A
      → List SlaveConfig
      → Option (List (SlaveIntent F))
  unfolding by_id for_entries with_alerts
  for_mapped set_order account body message entries slaves = do
    visited ← for_entries account body (by_id slaves) entries
    some (with_alerts set_order message (by_id slaves) visited)
