-- ===== src/Decision.antt =====
-- copier/src/copier/domain/decision.py: from a master's event, the mappings and the fleet to the
-- slaves' intents. `none` is an exception, which a master lot size of 0 raises. `set_order` is the
-- order in which Python iterates a set, which the source leaves open.
pub mod Loops
pub mod Fleet
pub mod Coverage
pub mod Handlers
pub mod Safety
pub mod Volumes
use forex_automated_copy_tra.Base.{
  ℕ, Bool, true, false, Option, none, some, List, [], ◌++◌, ◌==◌, if◌then◌else◌,
}
use forex_automated_copy_tra.Text.{codes, str}
use forex_automated_copy_tra.Sizing.{◌>>=◌, mirror_volume, partial_close_volume}
use Loops.{enabled, get_symbol, step_or_one, alert_to, for_slaves, for_mapped}
use forex_automated_copy_tra.Models.{
  SlaveConfig, MasterPositionOpened, MasterPositionClosed, MasterPositionSltpAmended,
  MasterPendingPlaced, MasterPendingReplaced, MasterPendingCancelled, MasterPendingFilled,
  MasterEvent, position_opened, position_closed, position_sltp_amended, pending_placed,
  pending_replaced, pending_cancelled, pending_filled, rejected, PositionMappingEntry,
  OrderMappingEntry, MappingState, position_symbol_missing, position_rounds_to_zero,
  close_rounds_to_zero, close_unmapped, sltp_unmapped, order_symbol_missing, order_rounds_to_zero,
  amend_symbol_missing, amend_rounds_to_zero, replace_unmapped, cancel_unmapped, fill_unmapped,
  SlaveIntent, open_market, close_position, amend_position_sltp, place_pending, amend_pending,
  cancel_pending, link_pending_fill,
}

module _ {F : Type 0} where
  -- The loop of `_position_opened` for one slave.
  unfoldable pub open_for : MasterPositionOpened F → SlaveConfig → Option (SlaveIntent F)
  unfolding get_symbol
  open_for e s = elim (get_symbol e.symbol_name s.symbols) [
    | none ↦ some (alert_to s.account_id (position_symbol_missing e.position_id e.symbol_name))
    | some sym ↦ do
      vol ← mirror_volume e.volume e.lot_size s.multiplier sym.lot_size sym.step_volume
      some (
          if vol == 0
          then alert_to s.account_id (position_rounds_to_zero e.position_id)
          else open_market (record {
            slave_account_id = s.account_id;
            master_position_id = e.position_id;
            symbol_id = sym.symbol_id;
            side = e.side;
            volume = vol;
            stop_loss = e.stop_loss;
            take_profit = e.take_profit;
            label = codes "copy:m" ++ str e.position_id;
            symbol_name = e.symbol_name;
            entry_price = e.entry_price;
          }))
  ]

  -- `_position_opened`
  unfoldable pub decide_opened :
      MasterPositionOpened F → List SlaveConfig → Option (List (SlaveIntent F))
  unfolding enabled for_slaves open_for
  decide_opened e slaves = for_slaves (open_for e) (enabled slaves)

  -- The loop of `_position_closed` for one mapped copy.
  unfoldable pub close_for :
      MasterPositionClosed → SlaveConfig → PositionMappingEntry → Option (SlaveIntent F)
  unfolding get_symbol
  close_for e s entry = do
    let step = step_or_one (get_symbol e.symbol_name s.symbols)
    vol ← partial_close_volume entry.slave_volume e.closed_volume e.remaining_volume step
    some (
        if vol == 0
        then alert_to s.account_id (close_rounds_to_zero e.position_id)
        else close_position (record {
          slave_account_id = s.account_id;
          position_id = entry.slave_position_id;
          volume = vol;
          master_position_id = some e.position_id;
        }))

  abbrev sltp_for :
      MasterPositionSltpAmended F → SlaveConfig → PositionMappingEntry → Option (SlaveIntent F)
  sltp_for e s entry = some (
      amend_position_sltp (record {
        slave_account_id = entry.slave_account_id;
        position_id = entry.slave_position_id;
        stop_loss = e.stop_loss;
        take_profit = e.take_profit;
      }))

  -- The case `MasterPendingPlaced` of `_decide_pending` for one slave.
  unfoldable pub place_for : MasterPendingPlaced F → SlaveConfig → Option (SlaveIntent F)
  unfolding get_symbol
  place_for e s = elim (get_symbol e.symbol_name s.symbols) [
    | none ↦ some (alert_to s.account_id (order_symbol_missing e.order_id e.symbol_name))
    | some sym ↦ do
      vol ← mirror_volume e.volume e.lot_size s.multiplier sym.lot_size sym.step_volume
      some (
          if vol == 0
          then alert_to s.account_id (order_rounds_to_zero e.order_id)
          else place_pending (record {
            slave_account_id = s.account_id;
            master_order_id = e.order_id;
            symbol_id = sym.symbol_id;
            side = e.side;
            order_type = e.order_type;
            volume = vol;
            price = e.price;
            stop_loss = e.stop_loss;
            take_profit = e.take_profit;
            expiry_ts_ms = e.expiry_ts_ms;
            label = codes "copy:o" ++ str e.order_id;
            symbol_name = e.symbol_name;
          }))
  ]

  -- The case `MasterPendingReplaced` for one mapped order.
  unfoldable pub replace_for :
      MasterPendingReplaced F → SlaveConfig → OrderMappingEntry → Option (SlaveIntent F)
  unfolding get_symbol
  replace_for e s entry = elim (get_symbol e.symbol_name s.symbols) [
    | none ↦ some (alert_to s.account_id (amend_symbol_missing e.order_id))
    | some sym ↦ do
      vol ← mirror_volume e.volume e.lot_size s.multiplier sym.lot_size sym.step_volume
      some (
          if vol == 0
          then alert_to s.account_id (amend_rounds_to_zero e.order_id)
          else amend_pending (record {
            slave_account_id = s.account_id;
            order_id = entry.slave_order_id;
            order_type = e.order_type;
            volume = vol;
            price = e.price;
            stop_loss = e.stop_loss;
            take_profit = e.take_profit;
          }))
  ]

  abbrev cancel_for : SlaveConfig → OrderMappingEntry → Option (SlaveIntent F)
  cancel_for s entry = some (
      cancel_pending
        (record { slave_account_id = entry.slave_account_id; order_id = entry.slave_order_id }))

  abbrev link_for : MasterPendingFilled → SlaveConfig → OrderMappingEntry → Option (SlaveIntent F)
  link_for e s entry = some (
      link_pending_fill (record {
        slave_account_id = entry.slave_account_id;
        master_order_id = e.order_id;
        master_position_id = e.position_id;
      }))

  -- `decide`, with `_position_closed`, `_position_sltp` and the cases of `_decide_pending`.
  unfoldable pub decide :
      (List ℕ → List ℕ)
      → MasterEvent F
      → MappingState
      → List SlaveConfig
      → Option (List (SlaveIntent F))
  unfolding decide_opened
  decide set_order (position_opened e) mappings slaves = decide_opened e slaves
  decide set_order (position_closed e) mappings slaves =
      for_mapped set_order (λ (m : PositionMappingEntry). m.slave_account_id) (close_for e)
        (close_unmapped e.position_id) (mappings.position_entries e.position_id) slaves
  decide set_order (position_sltp_amended e) mappings slaves =
      for_mapped set_order (λ (m : PositionMappingEntry). m.slave_account_id) (sltp_for e)
        (sltp_unmapped e.position_id) (mappings.position_entries e.position_id) slaves
  decide set_order (pending_placed e) mappings slaves = for_slaves (place_for e) (enabled slaves)
  decide set_order (pending_replaced e) mappings slaves =
      for_mapped set_order (λ (m : OrderMappingEntry). m.slave_account_id) (replace_for e)
        (replace_unmapped e.order_id) (mappings.order_entries e.order_id) slaves
  decide set_order (pending_cancelled e) mappings slaves =
      for_mapped set_order (λ (m : OrderMappingEntry). m.slave_account_id) cancel_for
        (cancel_unmapped e.order_id) (mappings.order_entries e.order_id) slaves
  decide set_order (pending_filled e) mappings slaves =
      for_mapped set_order (λ (m : OrderMappingEntry). m.slave_account_id) (link_for e)
        (fill_unmapped e.order_id) (mappings.order_entries e.order_id) slaves
  decide set_order (rejected e) mappings slaves = some []
