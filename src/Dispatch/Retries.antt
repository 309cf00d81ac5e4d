-- ===== src/Dispatch/Retries.antt =====
-- How often a request is sent, and what that leaves in the account's status.
use forex_automated_copy_tra.Base.{
  ℕ, suc, ◌+◌, ◌<◌, ◌≤◌, ◌≡◌, ◌≢◌, ◌⊎◌, inl, inr, refl, ap, ◌∙◌, ltb, zero, Option, none, some,
  arith, if◌then◌else◌, ◌==◌, Bool-cases, Option-cases, subst,
}
use forex_automated_copy_tra.Dispatch.{
  Store, AccountStatus, ok, degraded, paused, set_account_status, in_row,
}
use forex_automated_copy_tra.Dispatch.Sends.{
  Reply, delivered, not_attempted, failed, Sent, send_with_retries, on_send_success, give_up,
  fail_ambiguous, clear_degraded, retry_delay,
}

-- A status after a request that ended on a reply.
abbrev status_after_reply : Reply → AccountStatus → AccountStatus
status_after_reply delivered ok = ok
status_after_reply delivered degraded = ok
status_after_reply delivered paused = paused
status_after_reply _ status = degraded

abbrev pub statuses_after : Reply → ℕ → (ℕ → Option AccountStatus) → ℕ → Option AccountStatus
statuses_after reply account statuses other = elim (statuses other) [
  | none ↦ none
  | some status ↦ some (if other == account then status_after_reply reply status else status)
]

-- The last of the attempts, those before it, and the time between them.
pub record IsLadder {F : Type 0} (replies : ℕ → Reply) (account : ℕ) (before : Store F)
    (sent : Sent F) : Type 0 where
  pub last : ℕ
  pub counted : sent.attempts ≡ suc last
  pub at_most_four : last < 4
  pub earlier : (i : ℕ) → i < last → replies i ≡ not_attempted
  pub final : (replies last ≢ not_attempted) ⊎ (last ≡ 3)
  pub in_time : sent.waited ≤ 7
  pub status :
      (other : ℕ)
      → sent.store.statuses other ≡ statuses_after (replies last) account before.statuses other

Reply-cases : (r : Reply) → (r ≡ delivered) ⊎ ((r ≡ not_attempted) ⊎ (r ≡ failed))
Reply-cases delivered = inl refl
Reply-cases not_attempted = inr (inl refl)
Reply-cases failed = inr (inr refl)

-- The seconds waited before an attempt.
abbrev elapsed : ℕ → ℕ
elapsed attempt =
    if attempt == 0 then 0 else if attempt == 1 then 1 else if attempt == 2 then 3 else 7

earlier-suc :
    (replies : ℕ → Reply) (n : ℕ)
    → ((i : ℕ) → i < n → replies i ≡ not_attempted)
    → replies n ≡ not_attempted
    → (i : ℕ) → i < suc n
    → replies i ≡ not_attempted
earlier-suc replies n earlier here i below = elim (Bool-cases (i == n)) [
  | inl same ↦ ap replies (ground arith) ∙ here
  | inr different ↦ earlier i (ground arith)
]

module _ {F : Type 0} where
  set_account_status-statuses :
      (account : ℕ) (s : AccountStatus) (st : Store F) (other : ℕ)
      → (set_account_status account s st).statuses other
        ≡ (if other == account then in_row (st.statuses other) s else st.statuses other)
  unfolding set_account_status
  set_account_status-statuses account s st other = refl

  give_up-statuses :
      (account n : ℕ) (st : Store F) (other : ℕ)
      → (give_up account n st).statuses other
        ≡ statuses_after not_attempted account st.statuses other
  unfolding give_up set_account_status
  give_up-statuses account n st other = ground arith

  fail_ambiguous-statuses :
      (account : ℕ) (st : Store F) (other : ℕ)
      → (fail_ambiguous account st).statuses other ≡ statuses_after failed account st.statuses other
  unfolding fail_ambiguous set_account_status
  fail_ambiguous-statuses account st other = ground arith

  on_send_success-own :
      (account : ℕ) (st : Store F)
      → (on_send_success account st).statuses account
        ≡ statuses_after delivered account st.statuses account
  unfolding on_send_success clear_degraded set_account_status
  on_send_success-own account st = ground arith

  on_send_success-statuses :
      (account : ℕ) (st : Store F) (other : ℕ)
      → (on_send_success account st).statuses other
        ≡ statuses_after delivered account st.statuses other
  unfolding on_send_success clear_degraded set_account_status
  on_send_success-statuses account st other = elim (Bool-cases (other == account)) [
    | inl same ↦
        subst
          (λ o.
            (on_send_success account st).statuses o
            ≡ statuses_after delivered account st.statuses o)
          (ground arith) (on_send_success-own account st)
    | inr different ↦ elim (Option-cases (st.statuses account)) [
      | inl no_row ↦ ground (arith)
      | inr (s, row) ↦ ground (arith)
    ]
  ]

  abbrev ended : Store F → ℕ → ℕ → Sent F
  ended store attempt waited = record { store = store; attempts = suc attempt; waited = waited }

  ended-IsLadder :
      (replies : ℕ → Reply) (account attempt waited : ℕ) (st after : Store F)
      → attempt ≤ 3
      → waited ≤ elapsed attempt
      → ((i : ℕ) → i < attempt → replies i ≡ not_attempted)
      → ((replies attempt ≢ not_attempted) ⊎ (attempt ≡ 3))
      → ((other : ℕ)
          → after.statuses other ≡ statuses_after (replies attempt) account st.statuses other)
      → IsLadder replies account st (ended after attempt waited)
  ended-IsLadder replies account attempt waited st after small time earlier last effect = record {
    last = attempt;
    counted = refl;
    at_most_four = omega arith;
    earlier = earlier;
    final = last;
    in_time = ground arith;
    status = effect;
  }

  send_with_retries-IsLadder :
      (fuel : ℕ) (replies : ℕ → Reply) (account attempt waited : ℕ) (st : Store F)
      → 4 ≤ fuel + attempt
      → attempt ≤ 3
      → waited ≤ elapsed attempt
      → ((i : ℕ) → i < attempt → replies i ≡ not_attempted)
      → (sent : Sent F) × (send_with_retries fuel replies account attempt waited st ≡ some sent)
        × IsLadder replies account st sent
  unfolding send_with_retries
  send_with_retries-IsLadder zero replies account attempt waited st enough small time earlier =
      absurd (omega arith)
  send_with_retries-IsLadder (suc fuel) replies account attempt waited st enough small time
        earlier =
      elim (Reply-cases (replies attempt)) [
        | inl arrived ↦ (
          ended (on_send_success account st) attempt waited,
          rw (send_with_retries, arrived) refl,
          ended-IsLadder replies account attempt waited st (on_send_success account st) small time
              earlier (inl (λ e. ground arith))
              (λ other. rw arrived (on_send_success-statuses account st other)),
        )
        | inr (inl refused) ↦ elim (Bool-cases (ltb attempt 3)) [
          | inl again ↦
              let rest =
                send_with_retries-IsLadder fuel replies account (suc attempt)
                  (waited + retry_delay attempt) st (omega arith) (ground arith) (ground arith)
                  (earlier-suc replies attempt earlier refused) in
              (rest.0, rw (send_with_retries, refused, again) rest.1, rest.2)
          | inr no_more ↦ (
            ended (give_up account attempt st) attempt waited,
            rw (send_with_retries, refused, no_more) refl,
            ended-IsLadder replies account attempt waited st (give_up account attempt st) small time
                earlier (inr (ground arith))
                (λ other. rw refused (give_up-statuses account attempt st other)),
          )
        ]
        | inr (inr lost) ↦ (
          ended (fail_ambiguous account st) attempt waited,
          rw (send_with_retries, lost) refl,
          ended-IsLadder replies account attempt waited st (fail_ambiguous account st) small time
              earlier (inl (λ e. ground arith))
              (λ other. rw lost (fail_ambiguous-statuses account st other)),
        )
      ]

  -- A request is settled whatever the replies are: after one to four attempts, each but the last of
  -- which never reached the wire, after at most seven seconds of delays, and with the last reply's
  -- effect on the account's status and none on any other account's.
  pub send_with_retries-returns :
      (replies : ℕ → Reply) (account : ℕ) (st : Store F)
      → (sent : Sent F) × (send_with_retries 4 replies account 0 0 st ≡ some sent)
        × IsLadder replies account st sent
  send_with_retries-returns replies account st =
      send_with_retries-IsLadder 4 replies account 0 0 st (omega arith) (omega arith) (omega arith)
        (λ i below. absurd (omega arith))
