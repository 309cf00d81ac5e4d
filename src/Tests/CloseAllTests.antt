-- ===== src/Tests/CloseAllTests.antt =====
-- A flatten of an org whose copying is on.
use forex_automated_copy_tra.Base.{◌≡◌, refl, true, false, [], ◌∷◌, if◌then◌else◌}
use forex_automated_copy_tra.CloseAll.{
  OrgSettings, copying, dry, set_org_setting, apply_writes, answers, raises, Schedule, close_all,
}
use forex_automated_copy_tra.CloseAll.Races.{
  later, paused_org, close_all-honours, close_all-restores,
}

abbrev org : OrgSettings
org = record { copying_enabled = true; dry_run = false; settings_version = 4 }

abbrev quiet : Schedule
quiet = record {
  after_read = [];
  after_pause = [];
  during_flatten = [];
  between_attempts = [];
  guard_reply = answers;
  first_reply = raises;
  second_reply = answers;
}

restored : (close_all quiet org).0.copying_enabled ≡ true
unfolding close_all
restored = refl

-- A stop just before the guard's version is read does not last.
early_stop :
    (close_all (record quiet { after_pause = (copying, false) ∷ [] }) org).0.copying_enabled ≡ true
unfolding close_all
early_stop = refl

-- Where the guard's version cannot be read, copying stays off without an entry.
unguarded :
    close_all (record quiet { guard_reply = raises }) org
    ≡ (record { copying_enabled = false; dry_run = false; settings_version = 5 }, [])
unfolding close_all
unguarded = refl

abbrev stopped : Schedule
stopped = record quiet { during_flatten = (copying, false) ∷ (dry, true) ∷ [] }

close_all-honours_example :
    (close_all stopped org).0
    ≡ apply_writes
        (later true raises ((copying, false) ∷ (dry, true) ∷ []) [])
        (paused_org stopped org)
close_all-honours_example =
    close_all-honours stopped org (copying, false) ((dry, true) ∷ []) refl refl

close_all-restores_example :
    (close_all quiet org).0
    ≡ (if true then set_org_setting copying true (paused_org quiet org) else paused_org quiet org)
close_all-restores_example = close_all-restores quiet org refl refl refl refl
