-- ===== src/Models.antt =====
-- copier/src/copier/domain/models.py: the master's events, the mappings and the slaves' intents.
-- `F` is the type of a price, a Python float. Ids, volumes and times are whole numbers.
use forex_automated_copy_tra.Base.{ℕ, Bool, Option, some, List, String}
use forex_automated_copy_tra.Decimal.{Decimal}
use forex_automated_copy_tra.Text.{Text}

pub data Side : Type 0 where
  buy sell : Side

pub data PendingType : Type 0 where
  limit stop : PendingType

pub record SymbolInfo : Type 0 where
  pub symbol_id : ℕ
  pub name : String
  pub digits : ℕ
  pub lot_size : ℕ
  pub min_volume : ℕ
  pub step_volume : ℕ

pub record SlaveConfig : Type 0 where
  pub account_id : ℕ
  pub enabled : Bool
  pub multiplier : Decimal
  pub symbols : List (String × SymbolInfo)

pub record MasterPositionOpened (F : Type 0) : Type 0 where
  pub position_id : ℕ
  pub symbol_name : String
  pub side : Side
  pub volume : ℕ
  pub lot_size : ℕ
  pub stop_loss : Option F
  pub take_profit : Option F
  pub entry_price : Option F

pub record MasterPositionClosed : Type 0 where
  pub position_id : ℕ
  pub symbol_name : String
  pub closed_volume : ℕ
  pub remaining_volume : ℕ

pub record MasterPositionSltpAmended (F : Type 0) : Type 0 where
  pub position_id : ℕ
  pub stop_loss : Option F
  pub take_profit : Option F

pub record MasterPendingPlaced (F : Type 0) : Type 0 where
  pub order_id : ℕ
  pub symbol_name : String
  pub side : Side
  pub order_type : PendingType
  pub volume : ℕ
  pub lot_size : ℕ
  pub price : F
  pub stop_loss : Option F
  pub take_profit : Option F
  pub expiry_ts_ms : Option ℕ

pub record MasterPendingReplaced (F : Type 0) : Type 0 where
  pub order_id : ℕ
  pub symbol_name : String
  pub lot_size : ℕ
  pub order_type : PendingType
  pub volume : ℕ
  pub price : F
  pub stop_loss : Option F
  pub take_profit : Option F

pub record MasterPendingCancelled : Type 0 where
  pub order_id : ℕ

pub record MasterPendingFilled : Type 0 where
  pub order_id : ℕ
  pub position_id : ℕ

pub record MasterRejected : Type 0 where
  pub reason : String

pub data MasterEvent (F : Type 0) : Type 0 where
  position_opened : MasterPositionOpened F → MasterEvent F
  position_closed : MasterPositionClosed → MasterEvent F
  position_sltp_amended : MasterPositionSltpAmended F → MasterEvent F
  pending_placed : MasterPendingPlaced F → MasterEvent F
  pending_replaced : MasterPendingReplaced F → MasterEvent F
  pending_cancelled : MasterPendingCancelled → MasterEvent F
  pending_filled : MasterPendingFilled → MasterEvent F
  rejected : MasterRejected → MasterEvent F

pub record PositionMappingEntry : Type 0 where
  pub slave_account_id : ℕ
  pub slave_position_id : ℕ
  pub slave_volume : ℕ

pub record OrderMappingEntry : Type 0 where
  pub slave_account_id : ℕ
  pub slave_order_id : ℕ

-- The protocol that `Repo` implements.
pub record MappingState : Type 0 where
  pub position_entries : ℕ → List PositionMappingEntry
  pub order_entries : ℕ → List OrderMappingEntry

pub record OpenMarket (F : Type 0) : Type 0 where
  pub slave_account_id : ℕ
  pub master_position_id : ℕ
  pub symbol_id : ℕ
  pub side : Side
  pub volume : ℕ
  pub stop_loss : Option F
  pub take_profit : Option F
  pub label : Text
  pub symbol_name : String
  pub entry_price : Option F

pub record ClosePosition : Type 0 where
  pub slave_account_id : ℕ
  pub position_id : ℕ
  pub volume : ℕ
  pub master_position_id : Option ℕ

pub record AmendPositionSltp (F : Type 0) : Type 0 where
  pub slave_account_id : ℕ
  pub position_id : ℕ
  pub stop_loss : Option F
  pub take_profit : Option F

pub record PlacePending (F : Type 0) : Type 0 where
  pub slave_account_id : ℕ
  pub master_order_id : ℕ
  pub symbol_id : ℕ
  pub side : Side
  pub order_type : PendingType
  pub volume : ℕ
  pub price : F
  pub stop_loss : Option F
  pub take_profit : Option F
  pub expiry_ts_ms : Option ℕ
  pub label : Text
  pub symbol_name : String

pub record AmendPending (F : Type 0) : Type 0 where
  pub slave_account_id : ℕ
  pub order_id : ℕ
  pub order_type : PendingType
  pub volume : ℕ
  pub price : F
  pub stop_loss : Option F
  pub take_profit : Option F

pub record CancelPending : Type 0 where
  pub slave_account_id : ℕ
  pub order_id : ℕ

pub record LinkPendingFill : Type 0 where
  pub slave_account_id : ℕ
  pub master_order_id : ℕ
  pub master_position_id : ℕ

-- The texts of the alerts that `decide` raises, one constructor for each, with what it shows.
pub data AlertMessage : Type 0 where
  position_symbol_missing : ℕ → String → AlertMessage
  position_rounds_to_zero : ℕ → AlertMessage
  close_rounds_to_zero : ℕ → AlertMessage
  close_unmapped : ℕ → AlertMessage
  sltp_unmapped : ℕ → AlertMessage
  order_symbol_missing : ℕ → String → AlertMessage
  order_rounds_to_zero : ℕ → AlertMessage
  amend_symbol_missing : ℕ → AlertMessage
  amend_rounds_to_zero : ℕ → AlertMessage
  replace_unmapped : ℕ → AlertMessage
  cancel_unmapped : ℕ → AlertMessage
  fill_unmapped : ℕ → AlertMessage

pub record Alert : Type 0 where
  pub slave_account_id : Option ℕ
  pub message : AlertMessage

pub data SlaveIntent (F : Type 0) : Type 0 where
  open_market : OpenMarket F → SlaveIntent F
  close_position : ClosePosition → SlaveIntent F
  amend_position_sltp : AmendPositionSltp F → SlaveIntent F
  place_pending : PlacePending F → SlaveIntent F
  amend_pending : AmendPending F → SlaveIntent F
  cancel_pending : CancelPending → SlaveIntent F
  link_pending_fill : LinkPendingFill → SlaveIntent F
  alert : Alert → SlaveIntent F

-- `intent.slave_account_id`
abbrev pub account_of : {F : Type 0} → SlaveIntent F → Option ℕ
account_of (open_market i) = some i.slave_account_id
account_of (close_position i) = some i.slave_account_id
account_of (amend_position_sltp i) = some i.slave_account_id
account_of (place_pending i) = some i.slave_account_id
account_of (amend_pending i) = some i.slave_account_id
account_of (cancel_pending i) = some i.slave_account_id
account_of (link_pending_fill i) = some i.slave_account_id
account_of (alert i) = i.slave_account_id
