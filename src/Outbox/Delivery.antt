-- ===== src/Outbox/Delivery.antt =====
-- A poll, row by row: the loop and its statements against what happens to each command.
use forex_automated_copy_tra.Base.{
  ℕ, ◌≡◌, refl, ap, ◌∙◌, Bool, true, false, not, ◌&&◌, List, [], ◌∷◌, if◌then◌else◌, map, keep,
  ◌==◌, contains, arith, All, Bool-cases, inl, inr,
}
use forex_automated_copy_tra.Outbox.Loop.{
  is_delivers, is_gives_up, keep-keep, Verdict-cases, ids, picked, deliver_loop_lem,
}
use forex_automated_copy_tra.Outbox.{
  Command, Outbox, is_for, is_stale, refuse, mark_sent, update_commands, waits, gives_up, delivers,
  verdict, fail_stale_mt5_opens, deliver_loop, deliverable,
}

module _ {P : Type 0} where
  -- The primary key.
  abbrev pub UniqueIds : List (Command P) → Type 0
  UniqueIds [] = Unit
  UniqueIds (c ∷ commands) =
      All (λ (d : Command P). (d.id == c.id) ≡ false) commands × UniqueIds commands

  -- What a poll does to one row.
  abbrev pub deliver_row : ℕ → ℕ → Command P → Command P
  deliver_row account now c =
      if is_stale account now c
      then refuse c
      else if is_for account c
      then elim (verdict now c) [ waits ↦ c | gives_up ↦ refuse c | delivers ↦ mark_sent now c ]
      else c

  -- The rows that a poll hands over.
  abbrev pub is_due : ℕ → ℕ → Command P → Bool
  is_due account now c =
      is_for account c && not (is_stale account now c) && is_delivers (verdict now c)

  contains-keep_absent :
      (p : Command P → Bool) (k : ℕ) (cs : List (Command P))
      → All (λ (d : Command P). (d.id == k) ≡ false) cs
      → contains k (ids (keep p cs)) ≡ false
  contains-keep_absent p k [] h = refl
  contains-keep_absent p k (c ∷ cs) h = ground (arith, h.0, contains-keep_absent p k cs h.1)

  contains-keep_cons :
      (p : Command P → Bool) (c d : Command P) (cs : List (Command P))
      → (d.id == c.id) ≡ false
      → contains d.id (ids (keep p cs)) ≡ p d
      → contains d.id (ids (keep p (c ∷ cs))) ≡ p d
  contains-keep_cons p c d cs different h = ground (arith, different, h)

  contains-keep_tail :
      (p : Command P → Bool) (c : Command P) (cs ds : List (Command P))
      → All (λ (d : Command P). (d.id == c.id) ≡ false) ds
      → All (λ (d : Command P). contains d.id (ids (keep p cs)) ≡ p d) ds
      → All (λ (d : Command P). contains d.id (ids (keep p (c ∷ cs))) ≡ p d) ds
  contains-keep_tail p c cs [] h k = tt
  contains-keep_tail p c cs (d ∷ ds) h k =
      (contains-keep_cons p c d cs h.0 k.0, contains-keep_tail p c cs ds h.1 k.1)

  -- With unique ids, the ids that a test picks out pick out the rows of the test.
  contains-keep-ids :
      (p : Command P → Bool) (cs : List (Command P))
      → UniqueIds cs
      → All (λ (d : Command P). contains d.id (ids (keep p cs)) ≡ p d) cs
  contains-keep-ids p [] h = tt
  contains-keep-ids p (c ∷ cs) h = (
    ground (arith, contains-keep_absent p c.id cs h.0),
    contains-keep_tail p c cs cs h.0 (contains-keep-ids p cs h.1),
  )

  -- A poll on a table that has no stale rows, row by row.
  abbrev deliver_fresh : ℕ → ℕ → Command P → Command P
  deliver_fresh account now c =
      if is_for account c
      then elim (verdict now c) [ waits ↦ c | gives_up ↦ refuse c | delivers ↦ mark_sent now c ]
      else c

  row_of :
      (account now : ℕ) (c : Command P) (ds gs : List ℕ)
      → contains c.id ds ≡ (is_for account c && is_delivers (verdict now c))
      → contains c.id gs ≡ (is_for account c && is_gives_up (verdict now c))
      → (if contains (if picked account gs c then refuse c else c).id ds
          then mark_sent now (if picked account gs c then refuse c else c)
          else if picked account gs c
          then refuse c
          else c)
        ≡ deliver_fresh account now c
  row_of account now c ds gs d g = elim (Verdict-cases (verdict now c)) [
    | inl v ↦ ground (arith, v, d, g)
    | inr (inl v) ↦ ground (arith, v, d, g)
    | inr (inr v) ↦ ground (arith, v, d, g)
  ]

  rows_of :
      (account now : ℕ) (ds gs : List ℕ) (cs : List (Command P))
      → All
          (λ (c : Command P). contains c.id ds ≡ (is_for account c && is_delivers (verdict now c)))
          cs
      → All
          (λ (c : Command P). contains c.id gs ≡ (is_for account c && is_gives_up (verdict now c)))
          cs
      → update_commands
          (λ c. contains c.id ds)
          (mark_sent now)
          (update_commands (picked account gs) refuse cs)
        ≡ map (deliver_fresh account now) cs
  unfolding update_commands
  rows_of account now ds gs [] d g = refl
  rows_of account now ds gs (c ∷ cs) d g =
      λ i. row_of account now c ds gs d.0 g.0 i ∷ rows_of account now ds gs cs d.1 g.1 i

  All-ids_refuse :
      (test : Command P → Bool) (k : ℕ) (cs : List (Command P))
      → All (λ (d : Command P). (d.id == k) ≡ false) cs
      → All (λ (d : Command P). (d.id == k) ≡ false) (update_commands test refuse cs)
  unfolding update_commands
  All-ids_refuse test k [] h = tt
  All-ids_refuse test k (c ∷ cs) h = (ground (arith, h.0), All-ids_refuse test k cs h.1)

  UniqueIds-refuse :
      (test : Command P → Bool) (cs : List (Command P))
      → UniqueIds cs
      → UniqueIds (update_commands test refuse cs)
  unfolding update_commands
  UniqueIds-refuse test [] h = tt
  UniqueIds-refuse test (c ∷ cs) h = elim (Bool-cases (test c)) [
    | inl hit ↦ rw hit (All-ids_refuse test c.id cs h.0, UniqueIds-refuse test cs h.1)
    | inr miss ↦ rw miss (All-ids_refuse test c.id cs h.0, UniqueIds-refuse test cs h.1)
  ]

  fresh_row_stale :
      (account now : ℕ) (c : Command P)
      → is_stale account now c ≡ true
      → deliver_fresh account now (if is_stale account now c then refuse c else c)
        ≡ deliver_row account now c
  fresh_row_stale account now c stale = elim (Bool-cases (c.account_id == account)) [
    | inl own ↦ rw (stale, own) refl
    | inr other ↦ rw (stale, other) refl
  ]

  fresh_row :
      (account now : ℕ) (c : Command P)
      → is_stale account now c ≡ false
      → deliver_fresh account now (if is_stale account now c then refuse c else c)
        ≡ deliver_row account now c
  fresh_row account now c fresh = elim (Verdict-cases (verdict now c)) [
    | inl v ↦ ground (arith, fresh, v)
    | inr (inl v) ↦ ground (arith, fresh, v)
    | inr (inr v) ↦ ground (arith, fresh, v)
  ]

  due_row :
      (account now : ℕ) (cs : List (Command P))
      → keep
          (λ c. is_for account c && is_delivers (verdict now c))
          (update_commands (is_stale account now) refuse cs)
        ≡ keep (is_due account now) cs
  unfolding update_commands
  due_row account now [] = refl
  due_row account now (c ∷ cs) = elim (Bool-cases (is_stale account now c)) [
    | inl stale ↦ ground (arith, stale, due_row account now cs)
    | inr fresh ↦ ground (arith, fresh, due_row account now cs)
  ]

  fresh_rows :
      (account now : ℕ) (cs : List (Command P))
      → map (deliver_fresh account now) (update_commands (is_stale account now) refuse cs)
        ≡ map (deliver_row account now) cs
  unfolding update_commands
  fresh_rows account now [] = refl
  fresh_rows account now (c ∷ cs) = elim (Bool-cases (is_stale account now c)) [
    | inl stale ↦ λ i. fresh_row_stale account now c stale i ∷ fresh_rows account now cs i
    | inr fresh ↦ λ i. fresh_row account now c fresh i ∷ fresh_rows account now cs i
  ]

  due_rows :
      (account now : ℕ) (cs : List (Command P))
      → keep
          (λ c. is_delivers (verdict now c))
          (keep (is_for account) (update_commands (is_stale account now) refuse cs))
        ≡ keep (is_due account now) cs
  unfolding update_commands
  due_rows account now cs =
      keep-keep (λ c. is_delivers (verdict now c)) (is_for account)
        (update_commands (is_stale account now) refuse cs)
      ∙ due_row account now cs

  -- With unique ids, a poll hands over exactly the rows that are due, in order, and leaves every row as
  -- `deliver_row` says.
  pub deliverable-rows :
      {F : Type 0} (account now : ℕ) (box : Outbox F P)
      → UniqueIds box.commands
      → ((deliverable account now box).0 ≡ keep (is_due account now) box.commands)
        × ((deliverable account now box).1.commands ≡ map (deliver_row account now) box.commands)
  unfolding deliverable fail_stale_mt5_opens
  deliverable-rows account now box unique =
      let fresh = fail_stale_mt5_opens account now box in
      let cs = update_commands (is_stale account now) refuse box.commands in
      let loop = deliver_loop_lem account now (keep (is_for account) cs) fresh in
      let unique' = UniqueIds-refuse (is_stale account now) box.commands unique in
      (
        loop.0 ∙ due_rows account now box.commands,
        ap
              (λ ks.
                update_commands (λ c. contains c.id ks) (mark_sent now)
                  (deliver_loop account now (keep (is_for account) cs) fresh).1.commands)
              (ap ids (loop.0 ∙ keep-keep (λ c. is_delivers (verdict now c)) (is_for account) cs))
            ∙ ap
                (update_commands
                  (λ c.
                    contains c.id
                      (ids (keep (λ c. is_for account c && is_delivers (verdict now c)) cs)))
                  (mark_sent now))
                (loop.1
                  ∙ ap (λ gs. update_commands (picked account (ids gs)) refuse cs)
                      (keep-keep (λ c. is_gives_up (verdict now c)) (is_for account) cs))
            ∙ rows_of account now _ _ cs
                (contains-keep-ids (λ c. is_for account c && is_delivers (verdict now c)) cs
                  unique')
                (contains-keep-ids (λ c. is_for account c && is_gives_up (verdict now c)) cs
                  unique')
            ∙ fresh_rows account now box.commands,
      )
