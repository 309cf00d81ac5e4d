-- ===== src/Mappings/Volumes.antt =====
-- What the oldest-first reduction of a ticket takes, and from which rows.
use forex_automated_copy_tra.Base.{
  ℕ, ◌+◌, ◌-◌, ◌≡◌, ap, none, List, [], ◌∷◌, ◌++◌, if◌then◌else◌, arith, Bool-cases, inl, inr, min,
}
use forex_automated_copy_tra.Mappings.{Mapping, reduces, or_zero, reduce_fifo}

module _ {F : Type 0} where
  -- The volume of all active rows on one ticket of an account.
  abbrev pub held_on : ℕ → ℕ → List (Mapping F) → ℕ
  held_on account position [] = 0
  held_on account position (r ∷ rows) =
      let rest = held_on account position rows in
      if reduces account position none r then or_zero r.slave_volume + rest else rest

  -- The walk takes the closed volume off the ticket, or all of it if it holds less.
  pub held_on-reduce_fifo :
      (a p n : ℕ) (rows : List (Mapping F))
      → held_on a p (reduce_fifo a p n rows) ≡ held_on a p rows - n
  unfolding reduce_fifo
  held_on-reduce_fifo a p n [] = omega arith
  held_on-reduce_fifo a p n (r ∷ rows) = elim (Bool-cases (reduces a p none r)) [
    | inl on_ticket ↦
        ground (arith, held_on-reduce_fifo a p (n - min (or_zero r.slave_volume) n) rows)
    | inr off_ticket ↦ ground (arith, held_on-reduce_fifo a p (n - 0) rows)
  ]

  -- Newer rows lose only what is left of the closed volume when the older rows hold no more of it.
  pub reduce_fifo-append :
      (a p n : ℕ) (older newer : List (Mapping F))
      → reduce_fifo a p n (older ++ newer)
        ≡ reduce_fifo a p n older ++ reduce_fifo a p (n - held_on a p older) newer
  unfolding reduce_fifo
  reduce_fifo-append a p n [] newer = ap (λ m. reduce_fifo a p m newer) (omega arith)
  reduce_fifo-append a p n (r ∷ older) newer = elim (Bool-cases (reduces a p none r)) [
    | inl on_ticket ↦
        ground (
          arith,
          on_ticket,
          reduce_fifo-append a p (n - min (or_zero r.slave_volume) n) older newer,
        )
    | inr off_ticket ↦ ground (arith, reduce_fifo-append a p (n - 0) older newer)
  ]
