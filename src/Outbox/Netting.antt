-- ===== src/Outbox/Netting.antt =====
-- A netting account's close, from the intent to the outcome of its acknowledgement.
use forex_automated_copy_tra.Base.{
  ℕ, suc, ◌≡◌, refl, sym, subst, Bool, true, false, none, some, List, [], ◌∷◌, ◌++◌, ◌==◌, ==_refl,
  All, arith,
}
use forex_automated_copy_tra.Text.{Text, codes, str}
use forex_automated_copy_tra.Models.{ClosePosition, close_position}
use forex_automated_copy_tra.OrderIds.{position_coid, with_close_suffix}
use forex_automated_copy_tra.OrderIds.Laws.{strip-with_close_suffix}
use forex_automated_copy_tra.Outbox.{
  opens, closes, Command, queued, Outbox, is_command, first_where, complete_mt5_command,
}
use forex_automated_copy_tra.Outbox.Settle.{Ack, AckOutcome, or_else, named, outcome, apply_acks}
use forex_automated_copy_tra.Outbox.Lots.{lots, nonzero, volume_of_lots-lots}
use forex_automated_copy_tra.Outbox.Enqueue.{
  OpenPayload, Payload, open_payload, payload_fields, enqueue, mt5_open_payload, opposite, is_empty,
  enqueue_netting_close, enqueue_intent,
}

named-with_close_suffix :
    (coid : Text) → named opens (some (with_close_suffix coid)) ≡ (closes, some coid)
unfolding named
named-with_close_suffix coid = rw (named, strip-with_close_suffix coid) refl

module _ {F : Type 0} where
  -- The id is not taken.
  abbrev pub IsFresh : ℕ → List (Command (Payload F)) → Type 0
  IsFresh id commands = All (λ (c : Command (Payload F)). (c.id == id) ≡ false) commands

  first_where-fresh :
      (account id : ℕ) (commands : List (Command (Payload F))) (c : Command (Payload F))
      → IsFresh id commands
      → is_command account id c ≡ true
      → first_where (is_command account id) (commands ++ c ∷ []) ≡ some c
  unfolding first_where
  first_where-fresh account id [] c h k = rw (first_where, k) refl
  first_where-fresh account id (d ∷ commands) c h k =
      ground (arith, h.0, first_where-fresh account id commands c h.1 k)

  -- The command of a netting account's close.
  abbrev pub closing : ℕ → ℕ → ℕ → ClosePosition → ℕ → OpenPayload F → Command (Payload F)
  closing id now org i master p = record {
    id = id;
    account_id = i.slave_account_id;
    org_id = org;
    kind = opens;
    payload = open_payload (record {
      symbol = p.symbol;
      side = opposite p.side;
      lots = lots i.volume;
      sl = none;
      tp = none;
      comment = codes "close:m" ++ str master;
    });
    client_order_id = some (with_close_suffix (position_coid master i.slave_account_id));
    status = queued;
    attempts = 0;
    created_at = now;
    sent_at = none;
  }

  enqueue_intent-closing :
      (is_netting : ℕ → Bool) (now org master : ℕ) (i : ClosePosition) (symbol : Text)
      (box : Outbox F (Payload F)) (p : OpenPayload F)
      → is_netting i.slave_account_id ≡ true
      → i.master_position_id ≡ some master
      → mt5_open_payload (position_coid master i.slave_account_id) box.commands ≡ some p
      → is_empty p.symbol ≡ false
      → enqueue_intent is_netting now org (close_position i) symbol box
        ≡ some (record box {
          commands = box.commands ++ closing box.next_id now org i master p ∷ [];
          next_id = suc box.next_id;
        })
  unfolding enqueue_intent enqueue_netting_close enqueue
  enqueue_intent-closing is_netting now org master i symbol box p netting copy there named =
      rw (enqueue_intent, copy, netting, enqueue_netting_close, there, named) refl

  -- The outcome of a netting account's close: a close of the copy, under the copy's own id.
  abbrev pub closed : Ack F → ClosePosition → ℕ → AckOutcome F
  closed ack i master = record {
    command_id = ack.command_id;
    kind = closes;
    client_order_id = some (position_coid master i.slave_account_id);
    ok = ack.ok;
    message = ack.message;
    position = or_else ack.position none;
    order = or_else ack.order none;
    price = ack.price;
    volume = or_else ack.volume (nonzero i.volume);
    deal = ack.deal;
  }

  apply_acks-closing :
      (ack : Ack F) (now org master : ℕ) (i : ClosePosition) (p : OpenPayload F)
      (commands : List (Command (Payload F)))
      → IsFresh ack.command_id commands
      → (apply_acks payload_fields i.slave_account_id
          (ack ∷ [])
          (commands ++ closing ack.command_id now org i master p ∷ [])).0
        ≡ closed ack i master ∷ []
  unfolding apply_acks complete_mt5_command outcome
  apply_acks-closing ack now org master i p commands fresh =
      rw
        (
          apply_acks,
          complete_mt5_command,
          first_where-fresh i.slave_account_id ack.command_id commands
              (closing ack.command_id now org i master p) fresh
              (ground (arith, ==_refl ack.command_id, ==_refl i.slave_account_id)),
          outcome,
          named-with_close_suffix (position_coid master i.slave_account_id),
          volume_of_lots-lots i.volume,
        )
        refl

  -- On a netting account, the close of a copy whose open command is found is queued as an open of the
  -- opposite side, with the intent's volume in lots, and its acknowledgement is reported as a close of
  -- that copy, under the copy's own id and with the intent's volume if the acknowledgement names none.
  -- The next id is not taken, and the open command names a symbol.
  pub enqueue_intent-acked :
      (is_netting : ℕ → Bool) (now org master : ℕ) (i : ClosePosition) (symbol : Text)
      (box : Outbox F (Payload F)) (p : OpenPayload F) (ack : Ack F)
      → is_netting i.slave_account_id ≡ true
      → i.master_position_id ≡ some master
      → mt5_open_payload (position_coid master i.slave_account_id) box.commands ≡ some p
      → is_empty p.symbol ≡ false
      → IsFresh box.next_id box.commands
      → ack.command_id ≡ box.next_id
      → (after : Outbox F (Payload F)) × (enqueue_intent is_netting now org
            (close_position i)
            symbol
            box
          ≡ some after)
        × (after.commands ≡ box.commands ++ closing box.next_id now org i master p ∷ [])
        × ((apply_acks payload_fields i.slave_account_id (ack ∷ []) after.commands).0
            ≡ closed ack i master ∷ [])
  enqueue_intent-acked is_netting now org master i symbol box p ack netting copy there named fresh
        acked =
      (
        record box {
          commands = box.commands ++ closing box.next_id now org i master p ∷ [];
          next_id = suc box.next_id;
        },
        enqueue_intent-closing is_netting now org master i symbol box p netting copy there named,
        refl,
        subst
            (λ id.
              (apply_acks payload_fields i.slave_account_id (ack ∷ [])
                (box.commands ++ closing id now org i master p ∷ [])).0
              ≡ closed ack i master ∷ [])
            acked
            (apply_acks-closing ack now org master i p box.commands
              (subst (λ id. IsFresh id box.commands) (sym acked) fresh)),
      )
