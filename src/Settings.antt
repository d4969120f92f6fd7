-- ===== src/Settings.antt =====
-- core/internal/settings/settings.go: the settings of the user interface that the daemon reads, and the
-- overrides of a calendar; and `reminderOverrideFromParam` of core/internal/ipc/events_write.go.
pub mod Overrides
use dankcalendar.Base.{
  ℤ, pos, ltb_ℤ, leb_ℤ, String, Bool, true, false, ◌&&◌, Option, none, some, if◌then◌else◌,
}
use dankcalendar.Calendar.Json.{Json, flag, text, int, int64, float64, JsonMap, get}

-- `UISettings`, less the scale of the user interface, which is a float that no rule reads.
pub record UiSettings : Type 0 where
  pub use_24_hour_clock : Bool
  pub reminders_enabled : Bool
  pub reminder_persist : Bool
  pub all_day_reminders : Bool
  pub all_day_reminder_time : String
  pub all_day_reminder_days_before : ℤ
  pub default_reminder_minutes : ℤ
  pub snooze_minutes : ℤ
  pub notification_sounds : Bool
  pub sync_interval_minutes : ℤ

pub record ReminderOverride : Type 0 where
  pub enabled : Option Bool
  pub persist : Option Bool
  pub all_day : Option Bool
  pub all_day_time : Option String
  pub all_day_days_before : Option ℤ
  pub default_reminder_minutes : Option ℤ
  pub snooze_minutes : Option ℤ

abbrev pub is_unset : {A : Type 0} → Option A → Bool
is_unset none = true
is_unset (some a) = false

-- `IsEmpty`, of a pointer that may be nil.
unfoldable pub is_empty_override : Option ReminderOverride → Bool
is_empty_override none = true
is_empty_override (some o) =
    is_unset o.enabled
    && is_unset o.persist
    && is_unset o.all_day
    && is_unset o.all_day_time
    && is_unset o.all_day_days_before
    && is_unset o.default_reminder_minutes
    && is_unset o.snooze_minutes

abbrev pub overridden_by : {A : Type 0} → Option A → A → A
overridden_by none base = base
overridden_by (some a) base = a

-- The switch of a calendar counts only where the global one is on.
abbrev pub muted_by : Option Bool → Bool → Bool
muted_by enabled base = if base then overridden_by enabled base else base

abbrev pub snooze_by : Option ℤ → ℤ → ℤ
snooze_by none base = base
snooze_by (some minutes) base = if ltb_ℤ (pos 0) minutes then minutes else base

unfoldable pub resolve : Option ReminderOverride → UiSettings → UiSettings
resolve none base = base
resolve (some o) base = record base {
  reminders_enabled = muted_by o.enabled base.reminders_enabled;
  reminder_persist = overridden_by o.persist base.reminder_persist;
  all_day_reminders = overridden_by o.all_day base.all_day_reminders;
  all_day_reminder_time = overridden_by o.all_day_time base.all_day_reminder_time;
  all_day_reminder_days_before =
      overridden_by o.all_day_days_before base.all_day_reminder_days_before;
  default_reminder_minutes = overridden_by o.default_reminder_minutes base.default_reminder_minutes;
  snooze_minutes = snooze_by o.snooze_minutes base.snooze_minutes;
}

abbrev pub defaults : UiSettings
defaults = record {
  use_24_hour_clock = true;
  reminders_enabled = true;
  reminder_persist = true;
  all_day_reminders = false;
  all_day_reminder_time = "09:00";
  all_day_reminder_days_before = pos 0;
  default_reminder_minutes = pos 10;
  snooze_minutes = pos 5;
  notification_sounds = false;
  sync_interval_minutes = pos 30;
}

abbrev checked : Option UiSettings → UiSettings
checked none = defaults
checked (some s) = record s {
  snooze_minutes = if leb_ℤ s.snooze_minutes (pos 0) then pos 5 else s.snooze_minutes;
}

-- `unmarshal` is `json.Unmarshal` over the defaults; the data is `none` where the file cannot be read.
unfoldable load_from : (String → UiSettings → Option UiSettings) → Option String → UiSettings
load_from unmarshal none = defaults
load_from unmarshal (some content) = checked (unmarshal content defaults)

unfoldable pub int_from_param : Option Json → Option ℤ
int_from_param (some (float64 v)) = some v
int_from_param (some (int v)) = some v
int_from_param (some (int64 v)) = some v
int_from_param none = none
int_from_param (some _) = none

abbrev flag_from_param : Option Json → Option Bool
flag_from_param (some (flag v)) = some v
flag_from_param none = none
flag_from_param (some _) = none

abbrev text_from_param : Option Json → Option String
text_from_param (some (text v)) = some v
text_from_param none = none
text_from_param (some _) = none

-- `none` is a parameter that is no object: its override is empty, as that of no entries.
unfoldable pub reminder_override_from_param : Option JsonMap → ReminderOverride
reminder_override_from_param none = record {
  enabled = none;
  persist = none;
  all_day = none;
  all_day_time = none;
  all_day_days_before = none;
  default_reminder_minutes = none;
  snooze_minutes = none;
}
reminder_override_from_param (some m) = record {
  enabled = flag_from_param (get m "enabled");
  persist = flag_from_param (get m "persist");
  all_day = flag_from_param (get m "allDay");
  all_day_time = text_from_param (get m "allDayTime");
  all_day_days_before = int_from_param (get m "allDayDaysBefore");
  default_reminder_minutes = int_from_param (get m "defaultReminderMinutes");
  snooze_minutes = int_from_param (get m "snoozeMinutes");
}
