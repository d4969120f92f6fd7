-- ===== src/Sync/Pages/Written.antt =====
-- The rows that a synchronisation of core/internal/sync/engine.go leaves of an event, field by field.
use mathlib.Core.Path.{fun_ext}
use dankcalendar.Base.{ap, String, List, [], ◌∷◌, Option, none, some, ◌≡◌, refl, if◌then◌else◌}
use dankcalendar.Calendar.Types.{
  EventStatus, confirmed, tentative, cancelled, Event, EventChange, ChangeType, upsert, delete,
  other, is_zero,
}
use dankcalendar.Calendar.Convert.{attendees_to_maps, reminders_to_maps, recurrence_to_map}
use dankcalendar.Conv.Events.{event_status, organizer_to_map, event_upsert_input}
use dankcalendar.Repo.Store.{EventRow}
use dankcalendar.Repo.Events.{or_kept, set_fields}
use dankcalendar.Sync.Pages.{upserted_uids}
use dankcalendar.Repo.Events.Rows.{Rows, same_key, upserted, with_upsert, without_row}

-- A column that was there before, and one that stays where the event has nothing for it.
abbrev pub old_column : {A : Type 0} → (EventRow → Option A) → Option EventRow → Option A
old_column f none = none
old_column f (some r) = f r

abbrev pub or_old : {A : Type 0} → Option A → Option A → Option A
or_old none old = old
or_old (some new) old = some new

abbrev pub status_of : Option EventStatus → EventStatus
status_of none = confirmed
status_of (some s) = s

-- The row of an event, but for its identifier, given the row that was there before.
abbrev pub row_of : String → Event → Option EventRow → EventRow
row_of cal ev old = record {
  id = "";
  calendar_id = cal;
  uid = ev.uid;
  remote_id = ev.remote_id;
  etag = ev.etag;
  summary = ev.summary;
  description = ev.description;
  location = ev.location;
  url = ev.url;
  meeting_url = ev.meeting_url;
  status = status_of ev.status;
  start = ev.start;
  end = ev.end;
  all_day = ev.all_day;
  start_tz = ev.start_time_zone;
  end_tz = ev.end_time_zone;
  recurrence = or_old (recurrence_to_map ev.recurrence) (old_column (λ r. r.recurrence) old);
  recurring_id = ev.recurring_id;
  original_start =
      if is_zero ev.original_start
      then old_column (λ r. r.original_start) old
      else some ev.original_start;
  organizer = or_old (organizer_to_map ev.organizer) (old_column (λ r. r.organizer) old);
  attendees = or_old (attendees_to_maps ev.attendees) (old_column (λ r. r.attendees) old);
  reminders = or_old (reminders_to_maps ev.reminders) (old_column (λ r. r.reminders) old);
  categories = or_old ev.categories (old_column (λ r. r.categories) old);
  transparency = ev.transparency;
  visibility = ev.visibility;
  raw_ics = ev.raw_ics;
}

abbrev pub with_event : String → Event → Rows → Rows
with_event cal ev v c u =
    if same_key cal ev.uid c u then some (row_of cal ev (v cal ev.uid)) else v c u

-- The stored rows after a change, and after a list of changes.
abbrev pub changed_by : String → ChangeType → Option Event → String → Rows → Rows
changed_by cal upsert none remote_id v = v
changed_by cal upsert (some ev) remote_id v = with_event cal ev v
changed_by cal delete event remote_id v = without_row cal remote_id v
changed_by cal other event remote_id v = v

abbrev pub changed : String → EventChange → Rows → Rows
changed cal ch = changed_by cal ch.type ch.event ch.remote_id

abbrev pub all_changed : String → List EventChange → Rows → Rows
all_changed cal [] v = v
all_changed cal (ch ∷ chs) v = all_changed cal chs (changed cal ch v)

event_status_lem : (s : Option EventStatus) → event_status s ≡ status_of s
unfolding event_status
event_status_lem none = refl
event_status_lem (some confirmed) = refl
event_status_lem (some tentative) = refl
event_status_lem (some cancelled) = refl

or_kept-or_old : {A : Type 0} (new old : Option A) → or_kept new old ≡ or_old new old
or_kept-or_old none old = refl
or_kept-or_old (some x) old = refl

-- An upsert of an event writes its row.
upserted-row_of :
    (cal : String) (ev : Event) (old : Option EventRow)
    → upserted (event_upsert_input cal ev) old ≡ row_of cal ev old
unfolding set_fields event_upsert_input
upserted-row_of cal ev none =
    rw
      (
        event_status_lem ev.status,
        or_kept-or_old (recurrence_to_map ev.recurrence) none,
        or_kept-or_old (organizer_to_map ev.organizer) none,
        or_kept-or_old (attendees_to_maps ev.attendees) none,
        or_kept-or_old (reminders_to_maps ev.reminders) none,
        or_kept-or_old ev.categories none,
      )
      refl
upserted-row_of cal ev (some r) =
    rw
      (
        event_status_lem ev.status,
        or_kept-or_old (recurrence_to_map ev.recurrence) r.recurrence,
        or_kept-or_old (organizer_to_map ev.organizer) r.organizer,
        or_kept-or_old (attendees_to_maps ev.attendees) r.attendees,
        or_kept-or_old (reminders_to_maps ev.reminders) r.reminders,
        or_kept-or_old ev.categories r.categories,
      )
      refl

-- An upsert of an event makes the rows those with the event.
pub with_upsert-with_event :
    (cal : String) (ev : Event) (v : Rows)
    → with_upsert (event_upsert_input cal ev) v ≡ with_event cal ev v
unfolding event_upsert_input
with_upsert-with_event cal ev v = fun_ext λ c. fun_ext λ u.
    ap (λ r. if same_key cal ev.uid c u then some r else v c u)
      (upserted-row_of cal ev (v cal ev.uid))

abbrev sent : ChangeType → Option Event → List String → List String
sent upsert (some ev) uids = ev.uid ∷ uids
sent upsert none uids = uids
sent delete event uids = uids
sent other event uids = uids

-- The uids of the events that a list of changes upserts.
abbrev pub sent_uids : List EventChange → List String
sent_uids [] = []
sent_uids (ch ∷ chs) = sent ch.type ch.event (sent_uids chs)

sent_lem :
    (type : ChangeType) (event : Option Event) (uids uids' : List String)
    → uids ≡ uids'
    → (elim type [
      | upsert ↦ elim event [ none ↦ uids | some ev ↦ ev.uid ∷ uids ]
      | delete ↦ uids
      | other ↦ uids
    ])
      ≡ sent type event uids'
sent_lem upsert none uids uids' h = h
sent_lem upsert (some ev) uids uids' h = ap (λ us. ev.uid ∷ us) h
sent_lem delete event uids uids' h = h
sent_lem other event uids uids' h = h

pub upserted_uids-sent_uids : (chs : List EventChange) → upserted_uids chs ≡ sent_uids chs
unfolding upserted_uids
upserted_uids-sent_uids [] = refl
upserted_uids-sent_uids (ch ∷ chs) = sent_lem ch.type ch.event _ _ (upserted_uids-sent_uids chs)
