-- ===== src/Dispatch/Sends.antt =====
-- `Dispatcher._send_with_retries` and its callbacks, for one request: what became of each attempt is
-- a reply, and the throttle and the clock only say when the attempts are made.
use forex_automated_copy_tra.Base.{ℕ, zero, suc, ◌+◌, Option, none, some, if◌then◌else◌, ltb, ◌==◌}
use forex_automated_copy_tra.Dispatch.{
  Store, ok, degraded, paused, log_event, set_account_status, degraded_cleared,
  send_failed_degraded, send_failed_ambiguous,
}

-- An attempt succeeds, raises SendNotAttempted, or raises anything else.
pub data Reply : Type 0 where
  delivered not_attempted failed : Reply

pub record Sent (F : Type 0) : Type 0 where
  pub store : Store F
  pub attempts : ℕ
  -- The seconds of all the retry delays.
  pub waited : ℕ

-- `RETRY_DELAYS[attempt]`
abbrev pub retry_delay : ℕ → ℕ
retry_delay attempt = if attempt == 0 then 1 else if attempt == 1 then 2 else 4

module _ {F : Type 0} where
  -- `Repo.clear_degraded`: nothing unless the status is 'degraded'.
  unfoldable pub clear_degraded : ℕ → Store F → Option (Store F)
  clear_degraded account store = elim (store.statuses account) [
    | none ↦ none
    | some status ↦ elim status [
      | ok ↦ none
      | degraded ↦ some (set_account_status account ok store)
      | paused ↦ none
    ]
  ]

  unfoldable pub on_send_success : ℕ → Store F → Store F
  unfolding clear_degraded
  on_send_success account store = elim (clear_degraded account store) [
    | none ↦ store
    | some cleared ↦ log_event (degraded_cleared account) cleared
  ]

  -- `_on_send_failure`, when it gives up.
  unfoldable pub give_up : ℕ → ℕ → Store F → Store F
  give_up account attempt store =
      log_event (send_failed_degraded account (suc attempt))
        (set_account_status account degraded store)

  unfoldable pub fail_ambiguous : ℕ → Store F → Store F
  fail_ambiguous account store =
      log_event (send_failed_ambiguous account) (set_account_status account degraded store)

  -- On fuel, one for each attempt; the callbacks on what `replies` says of the attempts.
  unfoldable pub send_with_retries : ℕ → (ℕ → Reply) → ℕ → ℕ → ℕ → Store F → Option (Sent F)
  send_with_retries zero replies account attempt waited store = none
  send_with_retries (suc fuel) replies account attempt waited store =
      let retry =
        send_with_retries fuel replies account (suc attempt) (waited + retry_delay attempt) store in
      elim (replies attempt) [
        | delivered ↦ some (record {
          store = on_send_success account store;
          attempts = suc attempt;
          waited = waited;
        })
        | not_attempted ↦
            if ltb attempt 3
            then retry
            else some (record {
              store = give_up account attempt store;
              attempts = suc attempt;
              waited = waited;
            })
        | failed ↦ some (record {
          store = fail_ambiguous account store;
          attempts = suc attempt;
          waited = waited;
        })
      ]
