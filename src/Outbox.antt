-- ===== src/Outbox.antt =====
-- copier/src/copier/mt5/outbox.py and the statements of db/repo.py on the table `mt5_commands`. A
-- terminal collects its commands when it polls, and acknowledges them. Times are whole seconds, a
-- payload is of an abstract type P, and of the log entries the commands' ids are kept. Enqueue has what
-- is put in, and Settle the acknowledgements.
pub mod Loop
pub mod Delivery
pub mod Lots
pub mod Settle
pub mod Deals
pub mod Enqueue
pub mod Netting
pub mod Acks
pub mod Attempts
use forex_automated_copy_tra.Base.{
  ℕ, suc, ◌+◌, ◌-◌, Bool, true, false, not, ◌&&◌, ◌||◌, Option, none, some, List, [], ◌∷◌, ◌++◌,
  if◌then◌else◌, map, keep, leb, ltb, ◌==◌, contains,
}
use forex_automated_copy_tra.Text.{Text, codes}
use forex_automated_copy_tra.OrderIds.{strip_close_suffix}
use forex_automated_copy_tra.Mappings.{
  Mapping, MappingStatus, pending, failed, is_text, update, fail_mapping, or_unchanged,
}

pub data Kind : Type 0 where
  opens closes amends places_pending amends_pending cancels_pending : Kind

pub data CommandStatus : Type 0 where
  queued sent done refused : CommandStatus

-- A row of `mt5_commands`.
pub record Command (P : Type 0) : Type 0 where
  pub id : ℕ
  pub account_id : ℕ
  pub org_id : ℕ
  pub kind : Kind
  pub payload : P
  pub client_order_id : Option Text
  pub status : CommandStatus
  pub attempts : ℕ
  pub created_at : ℕ
  pub sent_at : Option ℕ

pub data OutboxEntry : Type 0 where
  mt5_command_expired : ℕ → OutboxEntry
  mt5_command_unacked : ℕ → OutboxEntry
  mt5_netting_close_unsided : Text → OutboxEntry

pub record Outbox (F P : Type 0) : Type 0 where
  pub commands : List (Command P)
  pub next_id : ℕ
  pub mappings : List (Mapping F)
  pub events : List OutboxEntry

abbrev pub open_command_ttl : ℕ
open_command_ttl = 30

abbrev pub redeliver_after : ℕ
redeliver_after = 10

abbrev pub max_attempts : ℕ
max_attempts = 3

-- `status IN ('queued', 'sent')`
abbrev pub is_open : CommandStatus → Bool
is_open queued = true
is_open sent = true
is_open _ = false

-- `kind IN ('open', 'place_pending')`
abbrev pub expires : Kind → Bool
expires opens = true
expires places_pending = true
expires _ = false

-- `client_order_id LIKE '%:close'`
abbrev pub is_close_coid : Option Text → Bool
is_close_coid none = false
is_close_coid (some coid) = elim (strip_close_suffix coid) [ none ↦ false | some c ↦ true ]

-- What `deliverable` does with an open row.
pub data Verdict : Type 0 where
  waits gives_up delivers : Verdict

module _ {P : Type 0} where
  abbrev pub is_for : ℕ → Command P → Bool
  is_for account c = c.account_id == account && is_open c.status

  -- The WHERE of `fail_stale_mt5_opens`, with what `deliverable` hands it.
  abbrev pub is_stale : ℕ → ℕ → Command P → Bool
  is_stale account now c =
      is_for account c
      && expires c.kind
      && ltb (c.created_at + open_command_ttl) now
      && not (is_close_coid c.client_order_id)

  abbrev pub refuse : Command P → Command P
  refuse c = record c { status = refused }

  -- `mark_mt5_commands_sent`
  abbrev pub mark_sent : ℕ → Command P → Command P
  mark_sent now c = record c { status = sent; sent_at = some now; attempts = suc c.attempts }

  unfoldable pub update_commands :
      (Command P → Bool) → (Command P → Command P) → List (Command P) → List (Command P)
  update_commands test change [] = []
  update_commands test change (c ∷ commands) =
      (if test c then change c else c) ∷ update_commands test change commands

  -- `RETURNING` of the first row; ids are unique.
  unfoldable pub first_where : (Command P → Bool) → List (Command P) → Option (Command P)
  first_where test [] = none
  first_where test (c ∷ commands) =
      let rest = first_where test commands in if test c then some c else rest

  abbrev pub is_command : ℕ → ℕ → Command P → Bool
  is_command account id c = c.id == id && is_for account c

  -- `complete_mt5_command` for an account, the result left out.
  unfoldable pub complete_mt5_command :
      ℕ → Bool → ℕ → List (Command P) → Option (Command P × List (Command P))
  unfolding update_commands first_where
  complete_mt5_command id ok account commands =
      elim (first_where (is_command account id) commands) [
        | none ↦ none
        | some row ↦ some (
          row,
          update_commands (is_command account id)
              (λ c. record c { status = if ok then done else refused }) commands,
        )
      ]

  abbrev pub age : ℕ → Command P → ℕ
  age now c = elim c.sent_at [ none ↦ 0 | some at ↦ now - at ]

  unfoldable pub verdict : ℕ → Command P → Verdict
  verdict now c = elim c.status [
    | sent ↦
        if ltb (age now c) redeliver_after
        then waits
        else if leb max_attempts c.attempts
        then gives_up
        else delivers
    | _ ↦ delivers
  ]

-- A row without an id has no mapping to fail.
abbrev fail_or_pass : {F : Type 0} → ℕ → Option Text → List (Mapping F) → List (Mapping F)
fail_or_pass account none rows = rows
fail_or_pass account (some []) rows = rows
fail_or_pass account (some (c ∷ coid)) rows =
    or_unchanged rows (fail_mapping account (c ∷ coid) (codes "no ack from terminal") rows)

abbrev is_pending : MappingStatus → Bool
is_pending pending = true
is_pending _ = false

abbrev expired : {P : Type 0} → List (Command P) → List OutboxEntry → List OutboxEntry
expired [] events = events
expired (c ∷ commands) events = expired commands (mt5_command_expired c.id ∷ events)

module _ {F P : Type 0} where
  -- `_give_up`
  unfoldable pub give_up : ℕ → Command P → Outbox F P → Outbox F P
  unfolding complete_mt5_command
  give_up account c box = record box {
    commands = elim (complete_mt5_command c.id false account box.commands) [
      | none ↦ box.commands
      | some (row, commands) ↦ commands
    ];
    mappings = fail_or_pass account c.client_order_id box.mappings;
    events = mt5_command_unacked c.id ∷ box.events;
  }

  abbrev has_coid_of : List (Command P) → Mapping F → Bool
  has_coid_of [] r = false
  has_coid_of (c ∷ commands) r =
      let rest = has_coid_of commands r in
      elim c.client_order_id [
        | none ↦ rest
        | some [] ↦ rest
        | some (x ∷ coid) ↦ is_text r.client_order_id (x ∷ coid) || rest
      ]

  -- `fail_stale_mt5_opens`, and the log entries for its ids.
  unfoldable pub fail_stale_mt5_opens : ℕ → ℕ → Outbox F P → Outbox F P
  unfolding update_commands
  fail_stale_mt5_opens account now box =
      let stale = keep (is_stale account now) box.commands in
      record box {
        commands = update_commands (is_stale account now) refuse box.commands;
        mappings =
            update
              (λ r. r.slave_account_id == account && is_pending r.status && has_coid_of stale r)
              (λ r. record r { status = failed; error = some (codes "terminal offline") })
              box.mappings;
        events = expired stale box.events;
      }

  -- The loop over `mt5_commands_open`: the rows to deliver, and the box after what it gives up.
  unfoldable pub deliver_loop :
      ℕ → ℕ → List (Command P) → Outbox F P → List (Command P) × Outbox F P
  unfolding give_up
  deliver_loop account now [] box = ([], box)
  deliver_loop account now (c ∷ commands) box = elim (verdict now c) [
    | waits ↦ deliver_loop account now commands box
    | gives_up ↦ deliver_loop account now commands (give_up account c box)
    | delivers ↦ let (out, after) = deliver_loop account now commands box in (c ∷ out, after)
  ]

  unfoldable pub deliverable : ℕ → ℕ → Outbox F P → List (Command P) × Outbox F P
  unfolding deliver_loop update_commands fail_stale_mt5_opens
  deliverable account now box =
      let fresh = fail_stale_mt5_opens account now box in
      let (out, after) = deliver_loop account now (keep (is_for account) fresh.commands) fresh in
      let ids = map (λ (c : Command P). c.id) out in
      (
        out,
        record after {
          commands =
              update_commands (λ (c : Command P). contains c.id ids) (mark_sent now) after.commands;
        },
      )
