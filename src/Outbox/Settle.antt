-- ===== src/Outbox/Settle.antt =====
-- apply_acks of copier/src/copier/mt5/outbox.py. What it reads of a payload is the parameter `Fields`;
-- the stored result of a command is not kept.
use forex_automated_copy_tra.Base.{ℕ, Bool, Option, none, some, List, [], ◌∷◌}
use forex_automated_copy_tra.Text.{Text}
use forex_automated_copy_tra.OrderIds.{strip_close_suffix}
use forex_automated_copy_tra.Outbox.{Kind, opens, closes, Command, complete_mt5_command}

-- A price is of the type F, and a volume in centilots.
pub record Ack (F : Type 0) : Type 0 where
  pub command_id : ℕ
  pub ok : Bool
  pub message : Text
  pub position : Option ℕ
  pub deal : Option ℕ
  pub order : Option ℕ
  pub price : Option F
  pub volume : Option ℕ

pub record AckOutcome (F : Type 0) : Type 0 where
  pub command_id : ℕ
  pub kind : Kind
  pub client_order_id : Option Text
  pub ok : Bool
  pub message : Text
  pub position : Option ℕ
  pub order : Option ℕ
  pub price : Option F
  pub volume : Option ℕ
  pub deal : Option ℕ

-- `payload.get(...)`, and the volume of the payload's lots in centilots.
pub record Fields (P : Type 0) : Type 0 where
  pub position_of : P → Option ℕ
  pub order_of : P → Option ℕ
  pub volume_of : P → Option ℕ

abbrev pub or_else : {A : Type 0} → Option A → Option A → Option A
or_else none other = other
or_else (some x) other = some x

-- The kind and the id of an outcome: a `:close` open is a close of the copy itself.
unfoldable pub named : Kind → Option Text → Kind × Option Text
named opens (some coid) = elim (strip_close_suffix coid) [
  | none ↦ (opens, some coid)
  | some copy ↦ (closes, some copy)
]
named kind coid = (kind, coid)

module _ {F P : Type 0} (fields : Fields P) (account : ℕ) where
  unfoldable pub outcome : Ack F → Command P → AckOutcome F
  unfolding named
  outcome ack row =
      let (kind, coid) = named row.kind row.client_order_id in
      record {
        command_id = row.id;
        kind = kind;
        client_order_id = coid;
        ok = ack.ok;
        message = ack.message;
        position = or_else ack.position (fields.position_of row.payload);
        order = or_else ack.order (fields.order_of row.payload);
        price = ack.price;
        volume = or_else ack.volume (fields.volume_of row.payload);
        deal = ack.deal;
      }

  unfoldable pub apply_acks :
      List (Ack F) → List (Command P) → List (AckOutcome F) × List (Command P)
  unfolding outcome complete_mt5_command
  apply_acks [] commands = ([], commands)
  apply_acks (ack ∷ acks) commands =
      elim (complete_mt5_command ack.command_id ack.ok account commands) [
        | none ↦ apply_acks acks commands
        | some (row, settled) ↦
            let (out, after) = apply_acks acks settled in (outcome ack row ∷ out, after)
      ]
