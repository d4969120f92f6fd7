-- ===== src/Sync/Pages/Listed.antt =====
-- The rows that a synchronisation leaves of the events that core/internal/providers/google/provider.go
-- lists, field by field.
use dankcalendar.Base.{
  ℤ, ◌+ℤ◌, ltb_ℤ, String, Bool, true, false, not, ◌&&◌, ◌||◌, List, [], ◌∷◌, map, Option, none,
  some, ◌==◌, contains, string_eq, if◌then◌else◌, ◌≡◌, refl, inl, inr, Bool-cases, Option-cases,
}
use dankcalendar.Calendar.Types.{Calendar, zero_time, is_zero}
use dankcalendar.Calendar.Json.{JsonMap}
use dankcalendar.Calendar.Convert.{
  attendee_to_map, attendees_to_maps, reminders_to_maps, recurrence_to_map,
}
use dankcalendar.Repo.Store.{EventRow}
use dankcalendar.Repo.Events.{select}
use dankcalendar.Repo.Events.Rows.{Rows}
use dankcalendar.Google.Events.{
  Env, GoogleTime, GoogleEvent, day, all_day_end, from_google_status, from_google_attendees,
  from_google_meeting_url, from_google_time, from_google_recurrence, from_google_event,
}
use dankcalendar.Sync.Pages.Written.{old_column, or_old, row_of}

-- The items that are stored: those that are not cancelled, and the cancelled occurrences of a series.
abbrev pub is_kept : GoogleEvent → Bool
is_kept item = not (item.status == "cancelled") || not (item.recurring_event_id == "")

unfoldable pub kept_ids : List GoogleEvent → List String
kept_ids items = map (λ (item : GoogleEvent). item.id) (select is_kept items)

abbrev dated : Option GoogleTime → Bool
dated none = false
dated (some t) = not (t.date == "")

abbrev zone_of : Option GoogleTime → String
zone_of none = ""
zone_of (some t) = t.time_zone

abbrev organizer_column : Option (String × String) → Option JsonMap
organizer_column none = none
organizer_column (some (email, name)) = some (
    attendee_to_map (record {
      email = email;
      display_name = name;
      role = "";
      status = "";
      optional = false;
      organizer = true;
    }))

module _ (env : Env) where
  abbrev at_of : Option GoogleTime → ℤ
  at_of none = zero_time
  at_of (some t) = if t.date == "" then env.parse_rfc3339 t.date_time else env.parse_date t.date

  -- An end of an all-day event that is not after its start is a day later.
  abbrev end_of : GoogleEvent → ℤ
  end_of item =
      if dated item.start && not (ltb_ℤ (at_of item.start) (at_of item.end))
      then at_of item.start +ℤ day
      else at_of item.end

  -- The row of a listed event, but for its identifier, given the row that was there before.
  abbrev pub google_row : Calendar → GoogleEvent → Option EventRow → EventRow
  google_row c item old = record {
    id = "";
    calendar_id = c.id;
    uid = item.id;
    remote_id = item.id;
    etag = item.etag;
    summary = item.summary;
    description = item.description;
    location = item.location;
    url = item.html_link;
    meeting_url = from_google_meeting_url env item;
    status = from_google_status item.status;
    start = at_of item.start;
    end = end_of item;
    all_day = dated item.start;
    start_tz = zone_of item.start;
    end_tz = zone_of item.end;
    recurrence =
        or_old (recurrence_to_map (from_google_recurrence env item.recurrence))
          (old_column (λ r. r.recurrence) old);
    recurring_id = item.recurring_event_id;
    original_start =
        if is_zero (at_of item.original_start)
        then old_column (λ r. r.original_start) old
        else some (at_of item.original_start);
    organizer = or_old (organizer_column item.organizer) (old_column (λ r. r.organizer) old);
    attendees =
        or_old (attendees_to_maps (from_google_attendees item.attendees))
          (old_column (λ r. r.attendees) old);
    reminders =
        or_old
          (reminders_to_maps
            (map (λ r. record { method = r.0; minutes = r.1; related = "" }) item.reminders))
          (old_column (λ r. r.reminders) old);
    categories = old_column (λ r. r.categories) old;
    transparency = item.transparency;
    visibility = item.visibility;
    raw_ics = "";
  }

  -- The row of an id after the items of a listing, taken in order.
  abbrev pub row_after : Calendar → List GoogleEvent → String → Option EventRow → Option EventRow
  row_after c [] u old = old
  row_after c (item ∷ items) u old =
      row_after c items u
        (if is_kept item && item.id == u then some (google_row c item old) else old)

  -- The rows of which the calendar has exactly those of the listed events that are kept, and the other
  -- calendars have what they had.
  abbrev pub mirrored : Calendar → List GoogleEvent → Rows → Rows
  mirrored c items v c' u =
      if c.id == c'
      then if contains (kept_ids items) u then row_after c items u (v c' u) else none
      else v c' u

  from_google_time_lem :
      (o : Option GoogleTime)
      → from_google_time env o ≡ record { at = at_of o; is_date = dated o; time_zone = zone_of o }
  unfolding from_google_time
  from_google_time_lem none = refl
  from_google_time_lem (some t) = elim (Bool-cases (t.date == "")) [
    | inl e ↦ rw e refl
    | inr e ↦ rw e refl
  ]

  pub row_of-from_google_event :
      (c : Calendar) (item : GoogleEvent) (old : Option EventRow)
      → row_of c.id (from_google_event env c item) old ≡ google_row c item old
  unfolding from_google_event all_day_end
  row_of-from_google_event c item old =
      rw
        (
          from_google_time_lem item.start,
          from_google_time_lem item.end,
          from_google_time_lem item.original_start,
        )
        (elim (Option-cases item.organizer) [ inl e ↦ rw e refl | inr (x, e) ↦ rw e refl ])
