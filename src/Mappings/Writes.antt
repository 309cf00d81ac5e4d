-- ===== src/Mappings/Writes.antt =====
-- The statements that write the mappings, as one type of writes.
use forex_automated_copy_tra.Base.{ℕ, Option, List, String}
use forex_automated_copy_tra.Text.{Text}
use forex_automated_copy_tra.Mappings.{
  Mapping, create_position_mapping, create_order_mapping, adopt_position_mapping,
  activate_position_mapping, activate_order_mapping, fail_mapping, close_order_mapping,
  link_pending_fill, activate_pending_fill, reduce_position_mapping, reduce_fifo, or_unchanged,
}

-- What is done to the table: a copy is created, or a slave's account reports.
pub data Write (F : Type 0) : Type 0 where
  create_position : ℕ → ℕ → Text → ℕ → Option String → Write F
  create_order : ℕ → ℕ → Text → ℕ → Option String → Write F
  activate_position : ℕ → Text → ℕ → ℕ → Option F → Write F
  activate_order : ℕ → Text → ℕ → Write F
  fail : ℕ → Text → Text → Write F
  close_order : ℕ → ℕ → Write F
  link_fill : ℕ → ℕ → ℕ → Write F
  activate_fill : ℕ → ℕ → ℕ → ℕ → Option F → Write F
  reduce : ℕ → ℕ → ℕ → Option Text → Write F
  reduce_oldest : ℕ → ℕ → ℕ → Write F
  adopt : ℕ → ℕ → ℕ → ℕ → ℕ → Write F

unfoldable pub write : {F : Type 0} → Write F → List (Mapping F) → List (Mapping F)
write (create_position m a c o s) rows = create_position_mapping m a c o s rows
write (create_order m a c o s) rows = or_unchanged rows (create_order_mapping m a c o s rows)
write (activate_position a c p v x) rows =
    or_unchanged rows (activate_position_mapping a c p v x rows)
write (activate_order a c o) rows = or_unchanged rows (activate_order_mapping a c o rows)
write (fail a c e) rows = or_unchanged rows (fail_mapping a c e rows)
write (close_order a o) rows = or_unchanged rows (close_order_mapping a o rows)
write (link_fill o a m) rows = or_unchanged rows (link_pending_fill o a m rows)
write (activate_fill a o p v x) rows = or_unchanged rows (activate_pending_fill a o p v x rows)
write (reduce a p v c) rows = reduce_position_mapping a p v c rows
write (reduce_oldest a p v) rows = reduce_fifo a p v rows
write (adopt m a p v o) rows = adopt_position_mapping m a p v o rows

-- The slave's account that a write is for.
abbrev pub account_of_write : {F : Type 0} → Write F → ℕ
account_of_write (create_position m a c o s) = a
account_of_write (create_order m a c o s) = a
account_of_write (activate_position a c p v x) = a
account_of_write (activate_order a c o) = a
account_of_write (fail a c e) = a
account_of_write (close_order a o) = a
account_of_write (link_fill o a m) = a
account_of_write (activate_fill a o p v x) = a
account_of_write (reduce a p v c) = a
account_of_write (reduce_oldest a p v) = a
account_of_write (adopt m a p v o) = a
