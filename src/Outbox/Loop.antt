-- ===== src/Outbox/Loop.antt =====
-- The loop of a poll: what it hands over and what it gives up.
use forex_automated_copy_tra.Base.{
  ℕ, ◌≡◌, ◌⊎◌, refl, sym, ap, ◌∙◌, Bool, true, false, ◌&&◌, none, List, [], ◌∷◌, map, keep,
  contains, arith, Bool-cases, Option-cases, inl, inr,
}
use forex_automated_copy_tra.Outbox.{
  Command, Outbox, is_for, refuse, update_commands, first_where, is_command, Verdict, waits,
  gives_up, delivers, verdict, give_up, deliver_loop,
}

abbrev pub is_delivers : Verdict → Bool
is_delivers delivers = true
is_delivers _ = false

abbrev pub is_gives_up : Verdict → Bool
is_gives_up gives_up = true
is_gives_up _ = false

pub keep-keep {ℓ} :
    {A : Type ℓ} (p q : A → Bool) (xs : List A) → keep p (keep q xs) ≡ keep (λ x. q x && p x) xs
keep-keep p q [] = refl
keep-keep p q (x ∷ xs) = ground (arith, keep-keep p q xs)

pub Verdict-cases : (v : Verdict) → (v ≡ waits) ⊎ ((v ≡ gives_up) ⊎ (v ≡ delivers))
Verdict-cases waits = inl refl
Verdict-cases gives_up = inr (inl refl)
Verdict-cases delivers = inr (inr refl)

module _ {P : Type 0} where
  abbrev pub ids : List (Command P) → List ℕ
  ids commands = map (λ (c : Command P). c.id) commands

  first_where-none :
      (test : Command P → Bool) (change : Command P → Command P) (cs : List (Command P))
      → first_where test cs ≡ none
      → update_commands test change cs ≡ cs
  unfolding first_where update_commands
  first_where-none test change [] h = refl
  first_where-none test change (c ∷ cs) h = elim (Bool-cases (test c)) [
    | inl hit ↦ ground (arith, hit, h)
    | inr miss ↦ ground (arith, miss, h, first_where-none test change cs)
  ]

  module _ {F : Type 0} where
    give_up-commands :
        (account : ℕ) (c : Command P) (box : Outbox F P)
        → (give_up account c box).commands
          ≡ update_commands (is_command account c.id) refuse box.commands
    unfolding give_up
    give_up-commands account c box =
        elim (Option-cases (first_where (is_command account c.id) box.commands)) [
          | inl missing ↦
              rw (give_up, missing)
                (sym (first_where-none (is_command account c.id) refuse box.commands missing))
          | inr (row, found) ↦ rw (give_up, found) refl
        ]

  abbrev pub picked : ℕ → List ℕ → Command P → Bool
  picked account ks c = is_for account c && contains c.id ks

  refuse-refuse :
      (account k : ℕ) (ks : List ℕ) (cs : List (Command P))
      → update_commands
          (picked account ks)
          refuse
          (update_commands (is_command account k) refuse cs)
        ≡ update_commands (picked account (k ∷ ks)) refuse cs
  unfolding update_commands
  refuse-refuse account k ks [] = refl
  refuse-refuse account k ks (c ∷ cs) = ground (arith, refuse-refuse account k ks cs)

  update_commands-never :
      (account : ℕ) (cs : List (Command P)) → cs ≡ update_commands (picked account []) refuse cs
  unfolding update_commands
  update_commands-never account [] = refl
  update_commands-never account (c ∷ cs) = ground (arith, update_commands-never account cs)

  module _ {F : Type 0} (account now : ℕ) where
    pub deliver_loop_lem :
        (cs : List (Command P)) (box : Outbox F P)
        → ((deliver_loop account now cs box).0 ≡ keep (λ c. is_delivers (verdict now c)) cs)
          × ((deliver_loop account now cs box).1.commands
              ≡ update_commands
                  (picked account (ids (keep (λ c. is_gives_up (verdict now c)) cs)))
                  refuse
                  box.commands)
    unfolding deliver_loop
    deliver_loop_lem [] box = (refl, update_commands-never account box.commands)
    deliver_loop_lem (c ∷ cs) box = elim (Verdict-cases (verdict now c)) [
      | inl waiting ↦ rw (deliver_loop, keep, waiting) (deliver_loop_lem cs box)
      | inr (inl given_up) ↦
          let rest = deliver_loop_lem cs (give_up account c box) in
          rw (deliver_loop, keep, given_up)
            (
              rest.0,
              rest.1
                  ∙ ap
                      (update_commands
                        (picked account (ids (keep (λ c. is_gives_up (verdict now c)) cs))) refuse)
                      (give_up-commands account c box)
                  ∙ refuse-refuse account c.id (ids (keep (λ c. is_gives_up (verdict now c)) cs))
                      box.commands,
            )
      | inr (inr delivered) ↦
          let rest = deliver_loop_lem cs box in
          rw (deliver_loop, keep, delivered) (ap (λ xs. c ∷ xs) rest.0, rest.1)
    ]
