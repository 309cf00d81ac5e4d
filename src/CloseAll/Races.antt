-- ===== src/CloseAll/Races.antt =====
-- What is left of the settings when others write them around a run of close_all.
use forex_automated_copy_tra.Base.{
  ◌+◌, ◌≡◌, refl, sym, ap, ◌∙◌, Bool, true, false, List, [], ◌∷◌, ◌++◌, if◌then◌else◌, ◌==◌, length,
  arith, ==_refl,
}
use forex_automated_copy_tra.CloseAll.{
  OrgSettings, Setting, copying, dry, set_org_setting, apply_writes, restore_copying_if_unchanged,
  Reply, answers, raises, restore_copying_after_flatten, Schedule, flatten, close_all,
}

-- Every write of a row is counted.
settings_version-apply_writes :
    (writes : List (Setting × Bool)) (org : OrgSettings)
    → (apply_writes writes org).settings_version ≡ length writes + org.settings_version
unfolding apply_writes set_org_setting
settings_version-apply_writes [] org = omega arith
settings_version-apply_writes ((copying, value) ∷ writes) org =
    omega (arith, settings_version-apply_writes writes (set_org_setting copying value org))
settings_version-apply_writes ((dry, value) ∷ writes) org =
    omega (arith, settings_version-apply_writes writes (set_org_setting dry value org))

abbrev pub paused_org : Schedule → OrgSettings → OrgSettings
paused_org s org =
    apply_writes s.after_pause (set_org_setting copying false (apply_writes s.after_read org))

abbrev pub some_reply : Reply → Reply → Bool
some_reply answers second = true
some_reply raises answers = true
some_reply raises raises = false

moved :
    (write : Setting × Bool) (writes : List (Setting × Bool)) (org : OrgSettings)
    → ((apply_writes (write ∷ writes) org).settings_version == org.settings_version) ≡ false
moved write writes org = ground (arith, settings_version-apply_writes (write ∷ writes) org)

apply_writes-append :
    (first second : List (Setting × Bool)) (org : OrgSettings)
    → apply_writes (first ++ second) org ≡ apply_writes second (apply_writes first org)
unfolding apply_writes
apply_writes-append [] second org = refl
apply_writes-append ((name, value) ∷ first) second org =
    apply_writes-append first second (set_org_setting name value org)

-- What others write while a run that read the guard's version still looks at the row.
abbrev pub later :
    Bool → Reply → List (Setting × Bool) → List (Setting × Bool) → List (Setting × Bool)
later true raises during between = during ++ between
later _ _ during between = during

restored-honours :
    (first second : Reply) (between : List (Setting × Bool)) (write : Setting × Bool)
    (writes : List (Setting × Bool)) (org : OrgSettings)
    → (restore_copying_after_flatten first second between org.settings_version
        (apply_writes (write ∷ writes) org)).0
      ≡ apply_writes (later true first (write ∷ writes) between) org
unfolding restore_copying_after_flatten restore_copying_if_unchanged
restored-honours answers second between write writes org =
    rw (restore_copying_after_flatten, restore_copying_if_unchanged, moved write writes org) refl
restored-honours raises answers between write writes org =
    rw
      (
        sym (apply_writes-append (write ∷ writes) between org),
        restore_copying_after_flatten,
        restore_copying_if_unchanged,
        moved write (writes ++ between) org,
      )
      refl
restored-honours raises raises between write writes org =
    sym (apply_writes-append (write ∷ writes) between org)

flatten-honours :
    (was_copying : Bool) (first second : Reply) (between : List (Setting × Bool))
    (write : Setting × Bool) (writes : List (Setting × Bool)) (org : OrgSettings)
    → (flatten was_copying answers first second (write ∷ writes) between org).0
      ≡ apply_writes (later was_copying first (write ∷ writes) between) org
flatten-honours true first second between write writes org =
    restored-honours first second between write writes org
flatten-honours false first second between write writes org = refl

-- If another writer writes the org's row after the guard's version is read and before the restore, the
-- run writes it no more: at the end it is as the others left it.
pub close_all-honours :
    (s : Schedule) (org : OrgSettings) (write : Setting × Bool) (writes : List (Setting × Bool))
    → s.guard_reply ≡ answers
    → s.during_flatten ≡ write ∷ writes
    → (close_all s org).0
      ≡ apply_writes
          (later org.copying_enabled s.first_reply s.during_flatten s.between_attempts)
          (paused_org s org)
unfolding close_all
close_all-honours s org write writes guard others =
    (λ i.
      (flatten org.copying_enabled (guard i) s.first_reply s.second_reply (others i)
        s.between_attempts (paused_org s org)).0)
    ∙ flatten-honours org.copying_enabled s.first_reply s.second_reply s.between_attempts write
        writes (paused_org s org)
    ∙ ap
        (λ ws.
          apply_writes (later org.copying_enabled s.first_reply ws s.between_attempts)
            (paused_org s org))
        (sym others)

flatten-restores :
    (was_copying : Bool) (first second : Reply) (org : OrgSettings)
    → some_reply first second ≡ true
    → (flatten was_copying answers first second [] [] org).0
      ≡ (if was_copying then set_org_setting copying true org else org)
unfolding restore_copying_after_flatten restore_copying_if_unchanged apply_writes
flatten-restores true answers second org h =
    rw (restore_copying_if_unchanged, ==_refl org.settings_version) refl
flatten-restores true raises answers org h =
    rw (restore_copying_if_unchanged, ==_refl org.settings_version) refl
flatten-restores true raises raises org h = ground (arith, h)
flatten-restores false first second org h = refl

-- If nobody writes the org's row after the guard's version is read, and the database answers one of the
-- attempts, copying is put back on just where it was on when the run began, also where another writer
-- turned it off before the version was read.
pub close_all-restores :
    (s : Schedule) (org : OrgSettings)
    → s.guard_reply ≡ answers
    → s.during_flatten ≡ []
    → s.between_attempts ≡ []
    → some_reply s.first_reply s.second_reply ≡ true
    → (close_all s org).0 ≡ (
        if org.copying_enabled
        then set_org_setting copying true (paused_org s org)
        else paused_org s org)
unfolding close_all
close_all-restores s org guard quiet between reply =
    (λ i.
      (flatten org.copying_enabled (guard i) s.first_reply s.second_reply (quiet i) (between i)
        (paused_org s org)).0)
    ∙ flatten-restores org.copying_enabled s.first_reply s.second_reply (paused_org s org) reply
