-- ===== src/Mpin.antt =====
-- api/src/api/mpin_core.py: the check of an MPIN, its tries and its lock. `H` is the type of a hash,
-- `G` that of a guess; `verify` is verify_password, which the argon2 library decides. Times are whole
-- seconds of the database's clock. The user's row exists, and the audit events are left out.
pub mod Windows
pub mod Pace
use forex_automated_copy_tra.Base.{
  ℕ, suc, ◌+◌, ◌-◌, Bool, true, false, ◌&&◌, Option, none, some, List, [], ◌∷◌, leb, ltb,
  if◌then◌else◌,
}

abbrev pub max_attempts : ℕ
max_attempts = 5

-- `timedelta(minutes=MPIN_LOCK_MINUTES)`
abbrev pub lock_seconds : ℕ
lock_seconds = 900

-- The columns of `users`.
pub record Row (H : Type 0) : Type 0 where
  pub mpin_hash : Option H
  pub failed_attempts : ℕ
  pub locked_until : Option ℕ

-- The status codes, with what they show: 409, 423, 401, and None for the right MPIN.
pub data Response : Type 0 where
  right not_set : Response
  locked : ℕ → Response
  invalid : ℕ → Response

-- A request after its reservation, refused, or granted with the count, the verdict and its time.
pub data Try : Type 0 where
  refused : Try
  reserved : ℕ → Bool → ℕ → Try

-- `mpin_locked_until IS NULL OR mpin_locked_until <= now()`
abbrev pub is_open : ℕ → Option ℕ → Bool
is_open now none = true
is_open now (some until) = leb until now

module _ {H : Type 0} where
  -- The guarded UPDATE, with the count and the hash that it returns.
  unfoldable pub reserve : ℕ → Row H → Option (Row H × ℕ × H)
  reserve now row = elim row.mpin_hash [
    | none ↦ none
    | some hash ↦
        if is_open now row.locked_until && ltb row.failed_attempts max_attempts
        then some (
          record row { failed_attempts = suc row.failed_attempts },
          suc row.failed_attempts,
          hash,
        )
        else none
  ]

  -- `_lock`
  unfoldable pub lock : ℕ → Row H → Row H
  lock now row = record row { failed_attempts = 0; locked_until = some (now + lock_seconds) }

  -- The UPDATE for a right MPIN.
  unfoldable pub clear : Row H → Row H
  clear row = record row { failed_attempts = 0; locked_until = none }

  -- `check_mpin` up to the verification, which is made of a dummy hash if no try is granted.
  unfoldable pub begin_check : {G : Type 0} → (H → G → Bool) → ℕ → G → Row H → Row H × Try
  unfolding reserve
  begin_check verify now guess row = elim (reserve now row) [
    | none ↦ (row, refused)
    | some (row', attempts, hash) ↦ (row', reserved attempts (verify hash guess) now)
  ]

  -- The rest of `check_mpin`, on the row as it is by then.
  unfoldable pub end_check : Try → ℕ → Row H → Row H × Response
  unfolding lock clear
  end_check refused now row = elim row.mpin_hash [
    | none ↦ (row, not_set)
    | some hash ↦ elim row.locked_until [
      | none ↦ (lock now row, locked (now + lock_seconds))
      | some until ↦
          if leb until now then (lock now row, locked (now + lock_seconds)) else (row, locked until)
    ]
  ]
  end_check (reserved attempts true start) now row = (clear row, right)
  end_check (reserved attempts false start) now row =
      if leb max_attempts attempts
      then (lock start row, locked (start + lock_seconds))
      else (row, invalid (max_attempts - attempts))

  -- `check_mpin`, with no other request in between.
  unfoldable pub check_mpin : {G : Type 0} → (H → G → Bool) → ℕ → G → Row H → Row H × Response
  unfolding begin_check end_check
  check_mpin verify now guess row =
      let (row', try) = begin_check verify now guess row in end_check try now row'
