-- ===== src/Tests/OutboxTests.antt =====
-- Account 7 of org 1: a market copy that waits, one that was sent, and a close.
use forex_automated_copy_tra.Base.{ℕ, ◌≡◌, refl, true, none, some, [], ◌∷◌, ◌++◌, keep, map, All}
use forex_automated_copy_tra.Text.{codes, str, text_eq, strip_suffix}
use forex_automated_copy_tra.Models.{ClosePosition, buy, close_position}
use forex_automated_copy_tra.OrderIds.{position_coid, strip_close_suffix}
use forex_automated_copy_tra.Outbox.{
  opens, closes, Command, queued, sent, done, refused, Outbox, deliverable, verdict,
}
use forex_automated_copy_tra.Outbox.Settle.{Ack, apply_acks}
use forex_automated_copy_tra.Outbox.Enqueue.{
  Payload, OpenPayload, open_payload, close_payload, payload_fields, mt5_open_payload,
  enqueue_intent,
}
use forex_automated_copy_tra.Outbox.Delivery.{is_due, deliver_row, UniqueIds, deliverable-rows}
use forex_automated_copy_tra.Outbox.Attempts.{IsTimely, is_bounded, deliverable-IsTimely}
use forex_automated_copy_tra.Outbox.Acks.{apply_acks-twice}
use forex_automated_copy_tra.Outbox.Netting.{closing, closed, enqueue_intent-acked}

abbrev eurusd : OpenPayload ℕ
eurusd = record {
  symbol = codes "EURUSD";
  side = buy;
  lots = record { coeff = 10; places = 2 };
  sl = none;
  tp = none;
  comment = codes "copy:m1";
}

abbrev opening : Command (Payload ℕ)
opening = record {
  id = 1;
  account_id = 7;
  org_id = 1;
  kind = opens;
  payload = open_payload eurusd;
  client_order_id = some (position_coid 1 7);
  status = queued;
  attempts = 0;
  created_at = 100;
  sent_at = none;
}

abbrev box : Outbox ℕ (Payload ℕ)
box = record {
  commands =
      opening
      ∷ record opening {
        id = 2;
        status = sent;
        attempts = 1;
        created_at = 125;
        sent_at = some 126;
        client_order_id = some (position_coid 2 7);
      }
      ∷ record opening {
        id = 3;
        kind = closes;
        payload = close_payload 50 (record { coeff = 10; places = 2 });
        client_order_id = none;
      }
      ∷ [];
  next_id = 4;
  mappings = [];
  events = [];
}

-- At 140 s the first open is stale, and the second is handed over again, as is the close.
poll_statuses :
    map (λ (c : Command (Payload ℕ)). c.status) (deliverable 7 140 box).1.commands
    ≡ refused ∷ sent ∷ sent ∷ []
unfolding deliverable strip_close_suffix strip_suffix position_coid str verdict
poll_statuses = refl

box-UniqueIds : UniqueIds box.commands
box-UniqueIds = ((refl, (refl, tt)), ((refl, tt), (tt, tt)))

deliverable-rows_example :
    ((deliverable 7 140 box).0 ≡ keep (is_due 7 140) box.commands)
    × ((deliverable 7 140 box).1.commands ≡ map (deliver_row 7 140) box.commands)
deliverable-rows_example = deliverable-rows 7 140 box box-UniqueIds

deliverable-IsTimely_example :
    All (IsTimely 7 140) (deliverable 7 140 box).0
    × All (λ (c : Command (Payload ℕ)). is_bounded c ≡ true) (deliverable 7 140 box).1.commands
deliverable-IsTimely_example =
    deliverable-IsTimely 7 140 box box-UniqueIds (refl, (refl, (refl, tt)))

abbrev ack : ℕ → Ack ℕ
ack id = record {
  command_id = id;
  ok = true;
  message = [];
  position = some 50;
  deal = some 90;
  order = none;
  price = some 110;
  volume = none;
}

acked_statuses :
    map
      (λ (c : Command (Payload ℕ)). c.status)
      (apply_acks payload_fields 7 (ack 2 ∷ ack 9 ∷ ack 2 ∷ []) box.commands).1
    ≡ queued ∷ done ∷ queued ∷ []
unfolding apply_acks
acked_statuses = refl

apply_acks-twice_example :
    apply_acks payload_fields 7
      (ack 2 ∷ ack 3 ∷ [])
      (apply_acks payload_fields 7 (ack 2 ∷ ack 3 ∷ []) box.commands).1
    ≡ ([], (apply_acks payload_fields 7 (ack 2 ∷ ack 3 ∷ []) box.commands).1)
apply_acks-twice_example = apply_acks-twice payload_fields 7 (ack 2 ∷ ack 3 ∷ []) box.commands

abbrev netting_close : ClosePosition
netting_close = record {
  slave_account_id = 7;
  position_id = 50;
  volume = 5;
  master_position_id = some 1;
}

open_found : mt5_open_payload (position_coid 1 7) box.commands ≡ some eurusd
unfolding mt5_open_payload position_coid text_eq str
open_found = refl

enqueue_intent-acked_example :
    (after : Outbox ℕ (Payload ℕ)) × (enqueue_intent
        (λ a. true)
        150
        1
        (close_position netting_close)
        (codes "EURUSD")
        box
      ≡ some after)
    × (after.commands ≡ box.commands ++ closing 4 150 1 netting_close 1 eurusd ∷ [])
    × ((apply_acks payload_fields 7 (ack 4 ∷ []) after.commands).0
        ≡ closed (ack 4) netting_close 1 ∷ [])
enqueue_intent-acked_example =
    enqueue_intent-acked (λ a. true) 150 1 1 netting_close (codes "EURUSD") box eurusd (ack 4) refl
      refl open_found refl (refl, (refl, (refl, tt))) refl
