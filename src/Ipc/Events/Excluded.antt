-- ===== src/Ipc/Events/Excluded.antt =====
-- The deletion of one occurrence of a recurring event (core/internal/ipc/events_write.go), through the
-- provider, the store (core/repo) and the expansion of the stored row (core/internal/recurrence).
use dankcalendar.Base.{
  ℤ, String, Bool, false, List, [], ◌∷◌, Memᴰ, Option, none, some, ◌==◌, contains, string_eq,
  int_eq, ◌≡◌, refl, sym, ap, ◌∙◌, subst, arith,
}
use dankcalendar.Calendar.Types.{Calendar, Recurrence, Event}
use dankcalendar.Calendar.Json.{JsonMap}
use dankcalendar.Calendar.Convert.RoundTrip.{IsJsonColumn}
use dankcalendar.Calendar.Rsvp.{Account}
use dankcalendar.Conv.Events.{event_upsert_input}
use dankcalendar.Conv.Events.RoundTrip.{reread}
use dankcalendar.Recurrence.Excluded.{Excludes, Reads, expand-excluded}
use dankcalendar.Repo.Store.{Result, ok, EventRow, CalendarRow, Tables, World, only}
use dankcalendar.Repo.Post.{still, ok-inj}
use dankcalendar.Repo.Events.{select, set_fields}
use dankcalendar.Repo.Events.Members.{Memᴰ-of_select}
use dankcalendar.Repo.Events.Stored.{upsert_event-StoredAs}
use dankcalendar.Repo.Queries.{get_event}
use dankcalendar.Repo.Queries.Expanded.{Env, series_of, starts_of}
use dankcalendar.Ipc.Params.{Params, Wire, parse_occurrence_start, exdate_value}
use dankcalendar.Ipc.Handler.{Provider, Answer}
use dankcalendar.Ipc.Events.{
  domain_event_from_ent, plus_exdate, without_occurrence, handle_event_delete,
}
use dankcalendar.Ipc.Events.Exclusion.{without_occurrence-Sent, stored_exdates}
use dankcalendar.Ipc.Events.Deletion.{Excluded, event_delete-Excluded}

abbrev occurs : Option (List ℤ) → ℤ → Bool
occurs none t = false
occurs (some starts) t = contains starts t

none_at :
    (o : Option (List ℤ)) (t : ℤ)
    → ((starts : List ℤ) → o ≡ some starts → contains starts t ≡ false)
    → occurs o t ≡ false
none_at none t h = refl
none_at (some starts) t h = h starts refl

-- A stored row of the series, as it is read again, has no occurrence at the start.
pub record Gone (env : Env) (column : JsonMap → JsonMap) (cs : List CalendarRow) (from to : ℤ)
    (row : EventRow) (start : ℤ) (t : Tables) : Type 0 where
  pub series : EventRow
  pub stored : Memᴰ series t.events
  pub key : (series.calendar_id ≡ row.calendar_id) × (series.uid ≡ row.uid)
  pub never : occurs (starts_of env cs (reread column series) from to) start ≡ false

-- A provider that gives the event without the occurrence back as it was sent, as to the series.
abbrev pub KeepsSeries : Wire → EventRow → ℤ → Provider → Type 0
KeepsSeries w row start q =
    (c : Calendar) (ev ev' : Event)
    → without_occurrence w row start ≡ ok ev
    → q.update_event c ev ≡ ok ev'
    → (ev'.recurrence ≡ ev.recurrence) × (ev'.all_day ≡ ev.all_day) × (ev'.uid ≡ ev.uid)

one_of : {A : Type 0} (xs : List A) (x : A) → only xs ≡ ok x → Memᴰ x xs
one_of [] x h = absurd (ground arith)
one_of (y ∷ []) x h = Memᴰ.head (sym (ok-inj y x h))
one_of (y ∷ z ∷ rest) x h = absurd (ground arith)

module _ (env : Env) (column : JsonMap → JsonMap) (law : IsJsonColumn column)
    (cs : List CalendarRow) (from to : ℤ) (t : Tables) where
  calendar_named :
      (c : CalendarRow) (id : String)
      → only (select (λ (x : CalendarRow). x.id == id) t.calendars) ≡ ok c
      → c.id ≡ id
  calendar_named c id h =
      let keyed = (Memᴰ-of_select (λ (x : CalendarRow). x.id == id) t.calendars (one_of _ c h)).1 in
      ground arith

  never_again :
      (calendar_id value : String) (ev : Event) (old : EventRow) (r : Recurrence) (start : ℤ)
      → Excludes env.lib
      → Reads env.lib ev.all_day value start
      → ev.recurrence ≡ plus_exdate value (some r)
      → occurs
          (starts_of env cs
            (reread column (set_fields (event_upsert_input calendar_id ev) old))
            from
            to)
          start
        ≡ false
  unfolding series_of set_fields event_upsert_input
  never_again calendar_id value ev old r start excludes reads e = none_at _ start λ starts h.
      expand-excluded env.lib excludes
        (series_of env cs (reread column (set_fields (event_upsert_input calendar_id ev) old)))
        r.exdate value start _ to starts (stored_exdates column law calendar_id value ev old r e)
        reads h

  stored_row :
      (w : Wire) (build : Account → Result Provider) (row : EventRow) (start : ℤ) (after : World)
      → Excludes env.lib
      → ((account : Account) (q : Provider) → build account ≡ ok q → KeepsSeries w row start q)
      → Reads env.lib row.all_day (exdate_value w start row.all_day) start
      → Excluded w build t row start after
      → Gone env column cs from to row start after.tables
  unfolding set_fields event_upsert_input domain_event_from_ent
  stored_row w build row start after excludes keeps reads x =
      let found = x.provides.1 in
      let (rec_kept, day_kept, uid_kept) =
        keeps found.account x.provider found.built x.calendar x.event x.persisted.answer x.sent
          x.persisted.given in
      let made = without_occurrence-Sent w row start x.event x.sent in
      let s =
        upsert_event-StoredAs (event_upsert_input x.calendar.id x.persisted.answer) t
          x.persisted.row x.persisted.stored in
      let day : row.all_day ≡ x.persisted.answer.all_day =
        sym (day_kept ∙ ap (λ e. e.all_day) made.same) in
      record {
        series = x.persisted.row;
        stored = subst (λ v. Memᴰ x.persisted.row v.tables.events) (sym x.persisted.world) s.member;
        key = (
          ap (λ r. r.calendar_id) s.same
              ∙ s.key.0
              ∙ found.named
              ∙ calendar_named found.row _ found.stored,
          ap (λ r. r.uid) s.same ∙ s.key.1 ∙ uid_kept ∙ ap (λ e. e.uid) made.same,
        );
        never =
            subst (λ r. occurs (starts_of env cs (reread column r) from to) start ≡ false)
              (sym s.same)
              (never_again x.calendar.id (exdate_value w start row.all_day) x.persisted.answer s.old
                made.recurrence start excludes
                (subst (λ d. Reads env.lib d (exdate_value w start row.all_day) start) day reads)
                (rec_kept ∙ ap (λ e. e.recurrence) made.same));
      }

-- Where no other process writes, the providers give the event without the occurrence back as it was sent,
-- as to the series, rrule-go follows the exclusions, and the exclusion reads as the start, a deletion of
-- one occurrence that is answered without an error leaves the series in the store under the key that it
-- had, and the row as it is read again has no occurrence at that start, in any window.
pub deleted_occurrence-Gone :
    (env : Env) (w : Wire) (build : Account → Result Provider) (t : Tables) (p : Params)
    (row : EventRow) (start : ℤ) (a : Answer) (column : JsonMap → JsonMap) (cs : List CalendarRow)
    (from to : ℤ)
    → IsJsonColumn column
    → Excludes env.lib
    → ((account : Account) (q : Provider) → build account ≡ ok q → KeepsSeries w row start q)
    → (get_event (w.param_string p "id") (still t)).0 ≡ ok row
    → (w.param_string p "occurrenceStart" == "") ≡ false
    → parse_occurrence_start w (w.param_string p "occurrenceStart") row.all_day ≡ ok start
    → Reads env.lib row.all_day (exdate_value w start row.all_day) start
    → (handle_event_delete w build p (still t)).result ≡ ok a
    → Gone env column cs from to row start (handle_event_delete w build p (still t)).world.tables
deleted_occurrence-Gone env w build t p row start a column cs from to law excludes keeps found asked
      parsed reads h =
    stored_row env column law cs from to t w build row start _ excludes keeps reads
      (event_delete-Excluded w build t p row start a found asked parsed h)
