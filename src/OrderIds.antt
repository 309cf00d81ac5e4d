-- ===== src/OrderIds.antt =====
-- The texts by which a copy is found again: client order ids (copier/src/copier/engine/dispatch.py),
-- what engine/service.py and engine/reconcile.py read out of ids and labels, and the suffix of a
-- netting follower's close (mt5/outbox.py).
pub mod Laws
use forex_automated_copy_tra.Base.{ℕ, Option, none, some, List, [], ◌∷◌, ◌++◌}
use forex_automated_copy_tra.Text.{Text, codes, str, int, strip_prefix, strip_suffix, before_first}
use forex_automated_copy_tra.Sizing.{◌>>=◌}
use forex_automated_copy_tra.Models.{
  SlaveIntent, open_market, close_position, amend_position_sltp, place_pending, amend_pending,
  cancel_pending, link_pending_fill, alert,
}

-- f"cm{master_position_id}.{account_id}"
unfoldable pub position_coid : ℕ → ℕ → Text
position_coid master_position_id account_id =
    codes "cm" ++ (str master_position_id ++ b'.' ∷ str account_id)

-- f"co{master_order_id}.{account_id}"
unfoldable pub order_coid : ℕ → ℕ → Text
order_coid master_order_id account_id = codes "co" ++ (str master_order_id ++ b'.' ∷ str account_id)

unfoldable pub client_order_id_for : {F : Type 0} → SlaveIntent F → Option Text
client_order_id_for (open_market i) = some (position_coid i.master_position_id i.slave_account_id)
client_order_id_for (place_pending i) = some (order_coid i.master_order_id i.slave_account_id)
client_order_id_for _ = none

unfoldable pub master_position_of : Option Text → Option ℕ
master_position_of none = none
master_position_of (some client_order_id) = do
  rest ← strip_prefix (codes "cm") client_order_id
  int (before_first b'.' rest)

-- `_extract_master_id_from_label`
unfoldable pub extract_master_id_from_label : Text → Option ℕ
extract_master_id_from_label label = do rest ← strip_prefix (codes "copy:m") label; int rest

abbrev pub close_suffix : Text
close_suffix = codes ":close"

-- `coid + CLOSE_SUFFIX`
unfoldable pub with_close_suffix : Text → Text
with_close_suffix coid = coid ++ close_suffix

-- `coid[:-len(CLOSE_SUFFIX)]` where `coid.endswith(CLOSE_SUFFIX)`
unfoldable pub strip_close_suffix : Text → Option Text
strip_close_suffix coid = strip_suffix close_suffix coid
