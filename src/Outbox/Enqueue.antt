-- ===== src/Outbox/Enqueue.antt =====
-- enqueue_intent of copier/src/copier/mt5/outbox.py: the command for an intent, and a netting
-- account's close. `none` of a price is the 0.0 of the contract.
use forex_automated_copy_tra.Base.{
  ℕ, suc, Bool, true, false, Option, none, some, List, [], ◌∷◌, ◌++◌, if◌then◌else◌,
}
use forex_automated_copy_tra.Text.{Text, codes, str}
use forex_automated_copy_tra.Models.{
  Side, buy, sell, PendingType, ClosePosition, SlaveIntent, open_market, close_position,
  amend_position_sltp, place_pending, amend_pending, cancel_pending, link_pending_fill, alert,
  account_of,
}
use forex_automated_copy_tra.OrderIds.{position_coid, with_close_suffix, client_order_id_for}
use forex_automated_copy_tra.Mappings.{is_text, or_zero}
use forex_automated_copy_tra.Outbox.{
  Kind, opens, closes, amends, places_pending, amends_pending, cancels_pending, Command, queued,
  mt5_netting_close_unsided, Outbox,
}
use forex_automated_copy_tra.Outbox.Lots.{lots, volume_of_lots}
use forex_automated_copy_tra.Outbox.Settle.{Fields}
use forex_automated_copy_tra.Decimal.{Decimal}

pub record OpenPayload (F : Type 0) : Type 0 where
  pub symbol : Text
  pub side : Side
  pub lots : Decimal
  pub sl : Option F
  pub tp : Option F
  pub comment : Text

pub data Payload (F : Type 0) : Type 0 where
  open_payload : OpenPayload F → Payload F
  close_payload : ℕ → Decimal → Payload F
  amend_payload : ℕ → Option F → Option F → Payload F
  place_payload : OpenPayload F → PendingType → F → ℕ → Payload F
  amend_order_payload : ℕ → Decimal → F → Option F → Option F → Payload F
  cancel_payload : ℕ → Payload F

abbrev pub opposite : Side → Side
opposite buy = sell
opposite sell = buy

abbrev pub is_empty : Text → Bool
is_empty [] = true
is_empty (c ∷ text) = false

-- `payload.get("position")`, `payload.get("order")`, and the volume of the lots.
module _ {F : Type 0} where
  abbrev position_in : Payload F → Option ℕ
  position_in (close_payload position lots) = some position
  position_in (amend_payload position sl tp) = some position
  position_in _ = none

  abbrev order_in : Payload F → Option ℕ
  order_in (amend_order_payload order lots price sl tp) = some order
  order_in (cancel_payload order) = some order
  order_in _ = none

  abbrev volume_in : Payload F → Option ℕ
  volume_in (open_payload p) = volume_of_lots p.lots
  volume_in (close_payload position lots) = volume_of_lots lots
  volume_in (place_payload p type price expiry) = volume_of_lots p.lots
  volume_in (amend_order_payload order lots price sl tp) = volume_of_lots lots
  volume_in _ = none

  abbrev pub payload_fields : Fields (Payload F)
  payload_fields = record { position_of = position_in; order_of = order_in; volume_of = volume_in }

  -- `none` is a ValueError.
  unfoldable pub command_for_intent : SlaveIntent F → Text → Option (Kind × Payload F)
  unfolding lots
  command_for_intent (open_market i) symbol = some (
    opens,
    open_payload (record {
      symbol = symbol;
      side = i.side;
      lots = lots i.volume;
      sl = i.stop_loss;
      tp = i.take_profit;
      comment = i.label;
    }),
  )
  command_for_intent (close_position i) symbol =
      some (closes, close_payload i.position_id (lots i.volume))
  command_for_intent (amend_position_sltp i) symbol =
      some (amends, amend_payload i.position_id i.stop_loss i.take_profit)
  command_for_intent (place_pending i) symbol = some (
    places_pending,
    place_payload
        (record {
          symbol = symbol;
          side = i.side;
          lots = lots i.volume;
          sl = i.stop_loss;
          tp = i.take_profit;
          comment = i.label;
        })
        i.order_type i.price (or_zero i.expiry_ts_ms),
  )
  command_for_intent (amend_pending i) symbol = some (
    amends_pending,
    amend_order_payload i.order_id (lots i.volume) i.price i.stop_loss i.take_profit,
  )
  command_for_intent (cancel_pending i) symbol = some (cancels_pending, cancel_payload i.order_id)
  command_for_intent (link_pending_fill i) symbol = none
  command_for_intent (alert a) symbol = none

  -- `enqueue_mt5_command`: the new row is queued, with the next id.
  unfoldable pub enqueue :
      ℕ → ℕ → ℕ → Kind → Payload F → Option Text → Outbox F (Payload F) → Outbox F (Payload F)
  enqueue now account org kind payload coid box = record box {
    commands =
        box.commands
        ++ record {
          id = box.next_id;
          account_id = account;
          org_id = org;
          kind = kind;
          payload = payload;
          client_order_id = coid;
          status = queued;
          attempts = 0;
          created_at = now;
          sent_at = none;
        }
          ∷ [];
    next_id = suc box.next_id;
  }

  -- `mt5_open_payload`; rows stand by their ids, and an open's payload is an `open_payload`.
  unfoldable pub mt5_open_payload : Text → List (Command (Payload F)) → Option (OpenPayload F)
  mt5_open_payload coid [] = none
  mt5_open_payload coid (c ∷ commands) =
      let rest = mt5_open_payload coid commands in
      if is_text c.client_order_id coid then open_of c.kind c.payload rest else rest
    where
      open_of : Kind → Payload F → Option (OpenPayload F) → Option (OpenPayload F)
      open_of opens (open_payload p) rest = some p
      open_of _ _ rest = rest

  abbrev unsided : Text → Outbox F (Payload F) → Bool × Outbox F (Payload F)
  unsided coid box = (false, record box { events = mt5_netting_close_unsided coid ∷ box.events })

  -- `_enqueue_netting_close`: whether the close was queued, and the box.
  unfoldable pub enqueue_netting_close :
      ℕ → ℕ → ClosePosition → ℕ → Outbox F (Payload F) → Bool × Outbox F (Payload F)
  unfolding enqueue mt5_open_payload lots
  enqueue_netting_close now org i master box =
      let coid = position_coid master i.slave_account_id in
      elim (mt5_open_payload coid box.commands) [
        | none ↦ unsided coid box
        | some p ↦ if is_empty p.symbol then unsided coid box else (
          true,
          enqueue now i.slave_account_id org opens
              (open_payload (record {
                symbol = p.symbol;
                side = opposite p.side;
                lots = lots i.volume;
                sl = none;
                tp = none;
                comment = codes "close:m" ++ str master;
              }))
              (some (with_close_suffix coid)) box,
        )
      ]

  abbrev enqueue_for :
      Option ℕ
      → Option (Kind × Payload F)
      → ℕ
      → ℕ
      → Option Text
      → Outbox F (Payload F)
      → Option (Outbox F (Payload F))
  enqueue_for (some account) (some (kind, payload)) now org coid box =
      some (enqueue now account org kind payload coid box)
  enqueue_for _ _ now org coid box = none

  -- The command of an intent on its account.
  abbrev pub enqueue_plain :
      ℕ → ℕ → SlaveIntent F → Text → Outbox F (Payload F) → Option (Outbox F (Payload F))
  enqueue_plain now org intent symbol box =
      enqueue_for (account_of intent) (command_for_intent intent symbol) now org
        (client_order_id_for intent) box

  abbrev pub netting_or_plain :
      Bool × Outbox F (Payload F) → ℕ → ℕ → SlaveIntent F → Text → Option (Outbox F (Payload F))
  netting_or_plain (true, box) now org intent symbol = some box
  netting_or_plain (false, box) now org intent symbol = enqueue_plain now org intent symbol box

  -- `enqueue_intent`; `none` is an exception.
  unfoldable pub enqueue_intent :
      (ℕ → Bool)
      → ℕ
      → ℕ
      → SlaveIntent F
      → Text
      → Outbox F (Payload F)
      → Option (Outbox F (Payload F))
  unfolding command_for_intent enqueue enqueue_netting_close
  enqueue_intent is_netting now org (close_position i) symbol box = elim i.master_position_id [
    | none ↦ enqueue_plain now org (close_position i) symbol box
    | some master ↦
        if is_netting i.slave_account_id
        then netting_or_plain (enqueue_netting_close now org i master box) now org
            (close_position i) symbol
        else enqueue_plain now org (close_position i) symbol box
  ]
  enqueue_intent is_netting now org intent symbol box = enqueue_plain now org intent symbol box
