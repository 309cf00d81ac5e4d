-- ===== src/CloseAll.antt =====
-- close_all of copier/src/copier/main.py for a whole org, with what _restore_copying_after_flatten and
-- the statements of db/repo.py do to the org's row. Other writers of the row (the API's requests and
-- other runs) come between any two statements; the trigger of db/migrations/009_org_settings_version.sql
-- (from the repository's root) counts every write. Which accounts are flattened and how is not here,
-- nor what is logged but for the restore.
pub mod Races
use forex_automated_copy_tra.Base.{
  ℕ, suc, Bool, true, false, not, ◌&&◌, Option, none, some, List, [], ◌∷◌, ◌++◌, if◌then◌else◌,
  ◌==◌,
}

-- A row of `orgs`.
pub record OrgSettings : Type 0 where
  pub copying_enabled : Bool
  pub dry_run : Bool
  pub settings_version : ℕ

-- `set_org_setting`; the name is one of the two.
pub data Setting : Type 0 where
  copying dry : Setting

unfoldable pub set_org_setting : Setting → Bool → OrgSettings → OrgSettings
set_org_setting copying value org = record org {
  copying_enabled = value;
  settings_version = suc org.settings_version;
}
set_org_setting dry value org = record org {
  dry_run = value;
  settings_version = suc org.settings_version;
}

-- What other writers do, in order.
unfoldable pub apply_writes : List (Setting × Bool) → OrgSettings → OrgSettings
unfolding set_org_setting
apply_writes [] org = org
apply_writes ((name, value) ∷ writes) org = apply_writes writes (set_org_setting name value org)

-- `restore_copying_if_unchanged`: whether a row was written, and the row.
unfoldable pub restore_copying_if_unchanged : ℕ → OrgSettings → Bool × OrgSettings
unfolding set_org_setting
restore_copying_if_unchanged expected org =
    if org.settings_version == expected
    then (true, set_org_setting copying true org)
    else (false, org)

pub data Entry : Type 0 where
  close_all_restore_skipped close_all_restore_failed : Entry

-- The database's answer to one statement; where it raises nothing was written.
pub data Reply : Type 0 where
  answers raises : Reply

abbrev pub entries_of : Bool → List Entry
entries_of true = []
entries_of false = close_all_restore_skipped ∷ []

abbrev finish : Bool × OrgSettings → OrgSettings × List Entry
finish (written, org) = (org, entries_of written)

-- `_restore_copying_after_flatten`, with the writes of others between its two attempts.
unfoldable pub restore_copying_after_flatten :
    Reply → Reply → List (Setting × Bool) → ℕ → OrgSettings → OrgSettings × List Entry
unfolding restore_copying_if_unchanged apply_writes
restore_copying_after_flatten answers second between guard_version org =
    finish (restore_copying_if_unchanged guard_version org)
restore_copying_after_flatten raises answers between guard_version org =
    finish (restore_copying_if_unchanged guard_version (apply_writes between org))
restore_copying_after_flatten raises raises between guard_version org =
    (apply_writes between org, close_all_restore_failed ∷ [])

-- What happens around a run of close_all: the writes of others at each place, whether the guard's
-- version could be read, and the database's answers.
pub record Schedule : Type 0 where
  pub after_read : List (Setting × Bool)
  pub after_pause : List (Setting × Bool)
  pub during_flatten : List (Setting × Bool)
  pub between_attempts : List (Setting × Bool)
  pub guard_reply : Reply
  pub first_reply : Reply
  pub second_reply : Reply

-- The `finally`.
abbrev pub restore_if :
    Bool → Reply → Reply → List (Setting × Bool) → ℕ → OrgSettings → OrgSettings × List Entry
restore_if true first second between guard_version org =
    restore_copying_after_flatten first second between guard_version org
restore_if false first second between guard_version org = (org, [])

-- A version that cannot be read raises before the `try`.
abbrev pub flatten :
    Bool
    → Reply
    → Reply
    → Reply
    → List (Setting × Bool)
    → List (Setting × Bool)
    → OrgSettings
    → OrgSettings × List Entry
flatten was_copying raises first second during between org = (org, [])
flatten was_copying answers first second during between org =
    restore_if was_copying first second between org.settings_version (apply_writes during org)

-- `close_all(org_id)`: the org's row at the end, and what was logged of the restore.
unfoldable pub close_all : Schedule → OrgSettings → OrgSettings × List Entry
unfolding set_org_setting apply_writes restore_copying_after_flatten
close_all s org =
    flatten org.copying_enabled s.guard_reply s.first_reply s.second_reply s.during_flatten
      s.between_attempts
      (apply_writes s.after_pause (set_org_setting copying false (apply_writes s.after_read org)))
