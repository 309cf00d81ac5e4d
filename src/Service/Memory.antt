-- ===== src/Service/Memory.antt =====
-- The master's protection that the service remembers for copies that are not filled yet.
use forex_automated_copy_tra.Base.{
  ℕ, suc, ◌≤◌, ◌<◌, ◌≡◌, refl, not, ◌&&◌, Option, none, some, [], ◌∷◌, if◌then◌else◌, arith, Dict,
  lookup, insert, length, leb,
}
use forex_automated_copy_tra.Models.{
  MasterEvent, position_opened, position_closed, position_sltp_amended, pending_placed,
  pending_replaced, pending_cancelled, pending_filled, rejected,
}
use forex_automated_copy_tra.Service.{
  Protection, remember, remember_master_protection, pop_key, pop_oldest, is_some,
}

module _ {V : Type 0} where
  length-pop_key : (k : ℕ) (d : Dict V) → length (pop_key k d) ≤ length d
  unfolding pop_key
  length-pop_key k [] = omega arith
  length-pop_key k ((j, v) ∷ d) = ground (arith, length-pop_key k d)

  length-insert :
      (k : ℕ) (v : V) (d : Dict V)
      → length (insert k v d) ≡ (if is_some (lookup k d) then length d else suc (length d))
  length-insert k v [] = omega arith
  length-insert k v ((j, w) ∷ d) = ground (arith, length-insert k v d)

  length-insert-le : (k : ℕ) (v : V) (d : Dict V) → length (insert k v d) ≤ suc (length d)
  length-insert-le k v d = ground (arith, length-insert k v d)

  length-pop_oldest : (d : Dict V) → 1 ≤ length d → suc (length (pop_oldest d)) ≡ length d
  length-pop_oldest [] h = absurd (omega arith)
  length-pop_oldest (x ∷ d) h = refl

module _ {F : Type 0} where
  length-remember_levels :
      (limit position : ℕ) (levels : Option F × Option F) (d : Protection F)
      → 0 < limit
      → length d ≤ limit
      → length (
          insert position levels
            (if not (is_some (lookup position d)) && leb limit (length d) then pop_oldest d else d))
        ≤ limit
  length-remember_levels limit position levels d pos h = ground (
    arith,
    length-insert position levels d,
    length-insert-le position levels (pop_oldest d),
    length-pop_oldest d,
  )

  length-remember :
      (limit position : ℕ) (levels : Option F × Option F) (d : Protection F)
      → 0 < limit
      → length d ≤ limit
      → length (remember limit position levels d) ≤ limit
  unfolding remember
  length-remember limit position (none, none) d pos h = omega (arith, length-pop_key position d)
  length-remember limit position (some x, t) d pos h =
      length-remember_levels limit position (some x, t) d pos h
  length-remember limit position (none, some y) d pos h =
      length-remember_levels limit position (none, some y) d pos h

  -- The memory never holds more than 2000 positions.
  pub length-remember_master_protection :
      (e : MasterEvent F) (d : Protection F)
      → length d ≤ 2000
      → length (remember_master_protection e d) ≤ 2000
  unfolding remember_master_protection
  length-remember_master_protection (position_opened e) d h =
      length-remember 2000 e.position_id (e.stop_loss, e.take_profit) d (omega arith) h
  length-remember_master_protection (position_closed e) d h =
      omega (arith, length-pop_key e.position_id d)
  length-remember_master_protection (position_sltp_amended e) d h =
      length-remember 2000 e.position_id (e.stop_loss, e.take_profit) d (omega arith) h
  length-remember_master_protection (pending_placed e) d h = h
  length-remember_master_protection (pending_replaced e) d h = h
  length-remember_master_protection (pending_cancelled e) d h = h
  length-remember_master_protection (pending_filled e) d h = h
  length-remember_master_protection (rejected e) d h = h
