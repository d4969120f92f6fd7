-- ===== src/Settings/Overrides.antt =====
-- What the overrides of a calendar make of the settings, in core/internal/settings/settings.go.
use dankcalendar.Base.{ℤ, pos, ◌<ℤ◌, Bool, true, false, Option, none, some, ◌≡◌, refl, arith}
use dankcalendar.Settings.{
  UiSettings, ReminderOverride, is_empty_override, resolve, overridden_by, is_unset, muted_by,
  snooze_by,
}

overridden_twice :
    {A : Type 0} (o : Option A) (a : A) → overridden_by o (overridden_by o a) ≡ overridden_by o a
overridden_twice none a = refl
overridden_twice (some b) a = refl

muted_twice : (o : Option Bool) (a : Bool) → muted_by o (muted_by o a) ≡ muted_by o a
muted_twice none true = refl
muted_twice none false = refl
muted_twice (some true) true = refl
muted_twice (some false) true = refl
muted_twice (some b) false = refl

snooze_twice : (o : Option ℤ) (a : ℤ) → snooze_by o (snooze_by o a) ≡ snooze_by o a
snooze_twice none a = refl
snooze_twice (some m) a = ground arith

resolve_twice :
    (o : Option ReminderOverride) (s : UiSettings) → resolve o (resolve o s) ≡ resolve o s
unfolding resolve
resolve_twice none s = refl
resolve_twice (some o) s = λ i. record s {
  reminders_enabled = muted_twice o.enabled s.reminders_enabled i;
  reminder_persist = overridden_twice o.persist s.reminder_persist i;
  all_day_reminders = overridden_twice o.all_day s.all_day_reminders i;
  all_day_reminder_time = overridden_twice o.all_day_time s.all_day_reminder_time i;
  all_day_reminder_days_before =
      overridden_twice o.all_day_days_before s.all_day_reminder_days_before i;
  default_reminder_minutes =
      overridden_twice o.default_reminder_minutes s.default_reminder_minutes i;
  snooze_minutes = snooze_twice o.snooze_minutes s.snooze_minutes i;
}

overridden-unset : {A : Type 0} (o : Option A) (a : A) → is_unset o ≡ true → overridden_by o a ≡ a
overridden-unset none a h = refl
overridden-unset (some b) a h = absurd (ground arith)

muted-unset : (o : Option Bool) (a : Bool) → is_unset o ≡ true → muted_by o a ≡ a
muted-unset none true h = refl
muted-unset none false h = refl
muted-unset (some b) a h = absurd (ground arith)

snooze-unset : (o : Option ℤ) (a : ℤ) → is_unset o ≡ true → snooze_by o a ≡ a
snooze-unset none a h = refl
snooze-unset (some b) a h = absurd (ground arith)

resolve-empty :
    (o : ReminderOverride) (s : UiSettings)
    → is_empty_override (some o) ≡ true
    → resolve (some o) s ≡ s
unfolding resolve is_empty_override
resolve-empty o s h =
    let a : is_unset o.enabled ≡ true = ground arith in
    let b : is_unset o.persist ≡ true = ground arith in
    let c : is_unset o.all_day ≡ true = ground arith in
    let d : is_unset o.all_day_time ≡ true = ground arith in
    let e : is_unset o.all_day_days_before ≡ true = ground arith in
    let f : is_unset o.default_reminder_minutes ≡ true = ground arith in
    let g : is_unset o.snooze_minutes ≡ true = ground arith in
    λ i. record s {
      reminders_enabled = muted-unset o.enabled s.reminders_enabled a i;
      reminder_persist = overridden-unset o.persist s.reminder_persist b i;
      all_day_reminders = overridden-unset o.all_day s.all_day_reminders c i;
      all_day_reminder_time = overridden-unset o.all_day_time s.all_day_reminder_time d i;
      all_day_reminder_days_before =
          overridden-unset o.all_day_days_before s.all_day_reminder_days_before e i;
      default_reminder_minutes =
          overridden-unset o.default_reminder_minutes s.default_reminder_minutes f i;
      snooze_minutes = snooze-unset o.snooze_minutes s.snooze_minutes g i;
    }

-- Resolving the settings of a calendar twice is resolving them once; an empty override changes
-- nothing; reminders that are off for all calendars stay off; and a snooze length above zero stays
-- above zero.
resolve_laws :
    (o : Option ReminderOverride) (s : UiSettings)
    → (resolve o (resolve o s) ≡ resolve o s)
      × (is_empty_override o ≡ true → resolve o s ≡ s)
      × (s.reminders_enabled ≡ false → (resolve o s).reminders_enabled ≡ false)
      × (pos 0 <ℤ s.snooze_minutes → pos 0 <ℤ (resolve o s).snooze_minutes)
unfolding resolve is_empty_override
resolve_laws none s = (refl, λ h. refl, λ h. h, λ h. h)
resolve_laws (some o) s =
    (resolve_twice (some o) s, resolve-empty o s, λ h. ground (arith, h), λ h. ground (arith, h))
