-- ===== src/Outbox/Attempts.antt =====
-- How often a command is handed over, and what is never handed over.
use forex_automated_copy_tra.Base.{
  ℕ, ◌<◌, ◌≡◌, inl, inr, refl, sym, ap, subst, Bool, true, false, ◌&&◌, List, [], ◌∷◌, map, keep,
  leb, ◌==◌, arith, All, Bool-cases,
}
use forex_automated_copy_tra.Outbox.{
  Command, queued, Outbox, is_for, is_stale, is_open, refuse, mark_sent, verdict, deliverable,
  max_attempts,
}
use forex_automated_copy_tra.Outbox.Loop.{Verdict-cases, is_delivers}
use forex_automated_copy_tra.Outbox.Delivery.{is_due, deliver_row, UniqueIds, deliverable-rows}

module _ {P : Type 0} where
  -- A command that waits for its first delivery was not handed over, and none was more than three times.
  abbrev pub is_bounded : Command P → Bool
  is_bounded c =
      leb c.attempts max_attempts && elim c.status [ queued ↦ c.attempts == 0 | _ ↦ true ]

  bounded-delivered :
      (now : ℕ) (c : Command P)
      → is_bounded c ≡ true
      → is_open c.status ≡ true
      → is_delivers (verdict now c) ≡ true
      → c.attempts < max_attempts
  unfolding verdict
  bounded-delivered now c h o d = ground (arith, h, o, d)

  bounded-row :
      (account now : ℕ) (c : Command P)
      → is_bounded c ≡ true
      → is_bounded (deliver_row account now c) ≡ true
  bounded-row account now c h = elim (Bool-cases (is_stale account now c)) [
    | inl stale ↦ becomes (refuse c) (rw (deliver_row, stale) refl) (ground (arith, h))
    | inr fresh ↦ elim (Bool-cases (is_for account c)) [
      | inr other ↦ becomes c (rw (deliver_row, fresh, other) refl) h
      | inl own ↦ elim (Verdict-cases (verdict now c)) [
        | inl v ↦ becomes c (rw (deliver_row, fresh, own, v) refl) h
        | inr (inl v) ↦
            becomes (refuse c) (rw (deliver_row, fresh, own, v) refl) (ground (arith, h))
        | inr (inr v) ↦
            becomes (mark_sent now c) (rw (deliver_row, fresh, own, v) refl)
              (ground (arith, bounded-delivered now c h (ground (arith, own)) (ap is_delivers v)))
      ]
    ]
  ]
    where
      becomes :
          (d : Command P)
          → d ≡ deliver_row account now c
          → is_bounded d ≡ true
          → is_bounded (deliver_row account now c) ≡ true
      becomes d same k = subst (λ x. is_bounded x ≡ true) same k

  All-map :
      (test : Command P → Bool) (f : Command P → Command P)
      → ((c : Command P) → test c ≡ true → test (f c) ≡ true)
      → (commands : List (Command P)) → All (λ c. test c ≡ true) commands
      → All (λ c. test c ≡ true) (map f commands)
  All-map test f h [] k = tt
  All-map test f h (c ∷ commands) k = (h c k.0, All-map test f h commands k.1)

  -- A command that is handed over on time.
  abbrev pub IsTimely : ℕ → ℕ → Command P → Type 0
  IsTimely account now c = (is_stale account now c ≡ false) × (c.attempts < max_attempts)

  due-IsTimely :
      (account now : ℕ) (commands : List (Command P))
      → All (λ (c : Command P). is_bounded c ≡ true) commands
      → All (IsTimely account now) (keep (is_due account now) commands)
  due-IsTimely account now [] h = tt
  due-IsTimely account now (c ∷ commands) h = elim (Bool-cases (is_due account now c)) [
    | inl due ↦
        rw (keep, due)
          (
            (
              (ground (arith, due)),
              bounded-delivered now c h.0 (ground (arith, due)) (ground (arith, due)),
            ),
            due-IsTimely account now commands h.1,
          )
    | inr waiting ↦ rw (keep, waiting) (due-IsTimely account now commands h.1)
  ]

  -- With unique ids, if no command was handed over more than three times and none that is queued was at
  -- all, this is so after a poll, and what the poll hands over is not stale and was handed over less
  -- than three times before.
  pub deliverable-IsTimely :
      {F : Type 0} (account now : ℕ) (box : Outbox F P)
      → UniqueIds box.commands
      → All (λ (c : Command P). is_bounded c ≡ true) box.commands
      → All (IsTimely account now) (deliverable account now box).0
        × All (λ (c : Command P). is_bounded c ≡ true) (deliverable account now box).1.commands
  deliverable-IsTimely account now box unique bounded =
      let rows = deliverable-rows account now box unique in
      (
        subst (All (IsTimely account now)) (sym rows.0)
            (due-IsTimely account now box.commands bounded),
        subst (All (λ (c : Command P). is_bounded c ≡ true)) (sym rows.1) (
            All-map is_bounded (deliver_row account now) (bounded-row account now) box.commands
              bounded),
      )
