-- ===== src/Outbox/Acks.antt =====
-- Acknowledgements that come again.
use forex_automated_copy_tra.Base.{
  ℕ, ◌≡◌, inl, inr, refl, subst, Bool, true, false, none, List, [], ◌∷◌, if◌then◌else◌, arith,
  Bool-cases, Option-cases, All,
}
use forex_automated_copy_tra.Outbox.{
  Command, done, refused, is_command, update_commands, first_where, complete_mt5_command,
}
use forex_automated_copy_tra.Outbox.Settle.{Ack, Fields, apply_acks}

module _ {P : Type 0} where
  abbrev settled : Bool → Command P → Command P
  settled ok c = record c { status = if ok then done else refused }

  -- No open command of the account has the id.
  abbrev IsSettled : ℕ → List (Command P) → ℕ → Type 0
  IsSettled account commands id = first_where (is_command account id) commands ≡ none

  settled_row :
      (account id other : ℕ) (ok : Bool) (c : Command P)
      → is_command account other c ≡ false
      → is_command account other (if is_command account id c then settled ok c else c) ≡ false
  settled_row account id other true c h = ground (arith, h)
  settled_row account id other false c h = ground (arith, h)

  now_settled :
      (account id : ℕ) (ok : Bool) (c : Command P)
      → is_command account id (if is_command account id c then settled ok c else c) ≡ false
  now_settled account id true c = ground arith
  now_settled account id false c = ground arith

  first_where-none_cons :
      (test : Command P → Bool) (c : Command P) (commands : List (Command P))
      → test c ≡ false
      → first_where test commands ≡ none
      → first_where test (c ∷ commands) ≡ none
  unfolding first_where
  first_where-none_cons test c commands miss rest = rw (first_where, miss) rest

  settle-settles :
      (account id : ℕ) (ok : Bool) (commands : List (Command P))
      → IsSettled account (update_commands (is_command account id) (settled ok) commands) id
  unfolding update_commands first_where
  settle-settles account id ok [] = refl
  settle-settles account id ok (c ∷ commands) =
      first_where-none_cons (is_command account id) _ _ (now_settled account id ok c)
        (settle-settles account id ok commands)

  settle-keeps :
      (account id other : ℕ) (ok : Bool) (commands : List (Command P))
      → IsSettled account commands other
      → IsSettled account (update_commands (is_command account id) (settled ok) commands) other
  unfolding update_commands first_where
  settle-keeps account id other ok [] h = refl
  settle-keeps account id other ok (c ∷ commands) h =
      elim (Bool-cases (is_command account other c)) [
        | inl hit ↦ absurd (ground (arith, hit, h))
        | inr miss ↦
            first_where-none_cons (is_command account other) _ _
              (settled_row account id other ok c miss)
              (settle-keeps account id other ok commands (ground (arith, miss, h)))
      ]

module _ {F P : Type 0} (fields : Fields P) (account : ℕ) where
  apply_acks-keeps :
      (acks : List (Ack F)) (commands : List (Command P)) (id : ℕ)
      → IsSettled account commands id
      → IsSettled account (apply_acks fields account acks commands).1 id
  unfolding apply_acks complete_mt5_command
  apply_acks-keeps [] commands id h = h
  apply_acks-keeps (ack ∷ acks) commands id h =
      elim (Option-cases (first_where (is_command account ack.command_id) commands)) [
        | inl missing ↦ rw (apply_acks, missing) (apply_acks-keeps acks commands id h)
        | inr (row, there) ↦
            rw (apply_acks, there)
              (apply_acks-keeps acks
                (update_commands (is_command account ack.command_id) (settled ack.ok) commands) id
                (settle-keeps account ack.command_id id ack.ok commands h))
      ]

  -- The commands after the first acknowledgement.
  apply_acks-first :
      (ack : Ack F) (acks : List (Ack F)) (commands : List (Command P))
      → (next : List (Command P)) × IsSettled account next ack.command_id
        × ((apply_acks fields account acks next).1
            ≡ (apply_acks fields account (ack ∷ acks) commands).1)
  unfolding apply_acks complete_mt5_command
  apply_acks-first ack acks commands =
      elim (Option-cases (first_where (is_command account ack.command_id) commands)) [
        | inl missing ↦ (commands, missing, rw (apply_acks, missing) refl)
        | inr (row, there) ↦ (
          update_commands (is_command account ack.command_id) (settled ack.ok) commands,
          settle-settles account ack.command_id ack.ok commands,
          rw (apply_acks, there) refl,
        )
      ]

  abbrev AllSettled : List (Ack F) → List (Command P) → Type 0
  AllSettled acks commands = All (λ (ack : Ack F). IsSettled account commands ack.command_id) acks

  apply_acks-settles :
      (acks : List (Ack F)) (commands : List (Command P))
      → AllSettled acks (apply_acks fields account acks commands).1
  apply_acks-settles [] commands = tt
  apply_acks-settles (ack ∷ acks) commands =
      let (next, first, same) = apply_acks-first ack acks commands in
      subst (λ after. IsSettled account after ack.command_id × AllSettled acks after) same
        (apply_acks-keeps acks next ack.command_id first, apply_acks-settles acks next)

  apply_acks-none :
      (acks : List (Ack F)) (commands : List (Command P))
      → All (λ (ack : Ack F). IsSettled account commands ack.command_id) acks
      → apply_acks fields account acks commands ≡ ([], commands)
  unfolding apply_acks complete_mt5_command
  apply_acks-none [] commands h = refl
  apply_acks-none (ack ∷ acks) commands h =
      rw (apply_acks, complete_mt5_command, h.0) (apply_acks-none acks commands h.1)

  -- Acknowledgements that were applied once settle nothing and report nothing when they come again.
  pub apply_acks-twice :
      (acks : List (Ack F)) (commands : List (Command P))
      → apply_acks fields account acks (apply_acks fields account acks commands).1
        ≡ ([], (apply_acks fields account acks commands).1)
  apply_acks-twice acks commands =
      apply_acks-none acks (apply_acks fields account acks commands).1
        (apply_acks-settles acks commands)
