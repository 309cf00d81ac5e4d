-- ===== src/Decision/Volumes.antt =====
-- How much a decision closes.
use forex_automated_copy_tra.Base.{◌<◌, ◌≤◌, ◌≡◌, Option, List}
use forex_automated_copy_tra.Models.{
  MasterPositionClosed, PositionMappingEntry, SlaveIntent, close_position, alert, close_unmapped,
  close_rounds_to_zero,
}

-- The intent closes the entry's position on the entry's account: some volume, at most
-- what the slave holds, and all of it when nothing remains on the master. Or it is the alert that
-- the volume rounds to zero.
abbrev pub ClosesEntry :
    {F : Type 0} → MasterPositionClosed → PositionMappingEntry → SlaveIntent F → Type 0
ClosesEntry e entry (close_position c) =
    (c.slave_account_id ≡ entry.slave_account_id)
    × (c.position_id ≡ entry.slave_position_id)
    × (0 < c.volume)
    × (c.volume ≤ entry.slave_volume)
    × (e.remaining_volume ≡ 0 → c.volume ≡ entry.slave_volume)
ClosesEntry e entry (alert a) = a.message ≡ close_rounds_to_zero e.position_id
ClosesEntry e entry _ = ⊥

-- An alert that an enabled slave has no copy of the position.
abbrev pub IsUnmapped : {F : Type 0} → MasterPositionClosed → SlaveIntent F → Type 0
IsUnmapped e (alert a) = a.message ≡ close_unmapped e.position_id
IsUnmapped e _ = ⊥
