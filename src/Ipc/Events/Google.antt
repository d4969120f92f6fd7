-- ===== src/Ipc/Events/Google.antt =====
-- The deletion of one occurrence (core/internal/ipc/events_write.go) where the provider is
-- core/internal/providers/google/provider.go.
use dankcalendar.Base.{
  String, Bool, true, false, ◌==◌, string_eq, if◌then◌else◌, ◌≡◌, refl, sym, ap, ◌∙◌, subst, ℤ,
  arith,
}
use dankcalendar.Calendar.Types.{Calendar, Event}
use dankcalendar.Repo.Store.{Error, Result, ok, err, EventRow}
use dankcalendar.Repo.Post.{ok-inj}
use dankcalendar.Google.Events.{GoogleEvent, Env, from_google_event}
use dankcalendar.Google.Events.Lines.{CutsLines}
use dankcalendar.Google.Events.Writes.{Formats, to_google_event, read_back, update_google_event}
use dankcalendar.Google.Events.Writes.Sent.{
  ReadsTimes, Holds, recurrence_back, sent_event_round_trip,
}
use dankcalendar.Ipc.Params.{Wire, exdate_value}
use dankcalendar.Ipc.Events.{domain_event_from_ent, without_occurrence}
use dankcalendar.Ipc.Events.Exclusion.{without_occurrence-Sent, not_empty-last}

read_back-ok :
    (env : Env) (c : Calendar) (text : String) (r : Result GoogleEvent) (b : Bool) (e : Error)
    (ev : Event)
    → (if b then err e else read_back env c text r) ≡ ok ev
    → (item : GoogleEvent) × (r ≡ ok item) × (from_google_event env c item ≡ ev)
read_back-ok env c text (ok item) true e ev h = absurd (ground arith)
read_back-ok env c text (ok item) false e ev h = (item, refl, ok-inj _ ev h)
read_back-ok env c text (err x) true e ev h = absurd (ground arith)
read_back-ok env c text (err x) false e ev h = absurd (ground arith)

-- What the documentation of Google's API says of Events.update: the event that is answered has the
-- identifier that was asked for, and holds what was sent.
abbrev pub Updates : (String → String → GoogleEvent → Result GoogleEvent) → Type 0
Updates update =
    (calendar_id event_id : String) (sent item : GoogleEvent)
    → update calendar_id event_id sent ≡ ok item
    → Holds sent item × (item.id ≡ event_id)

-- What Google's provider gives back for the event without the occurrence has the recurrence, the uid and
-- the kind of days that were sent, for a row that the provider has stored (its uid is its remote
-- identifier), where Google answers as documented and lines and times are read as they are written.
pub google_keeps_series :
    (env : Env) (formats : Formats) (update : String → String → GoogleEvent → Result GoogleEvent)
    (w : Wire) (row : EventRow) (start : ℤ) (c : Calendar) (ev ev' : Event)
    → CutsLines env
    → Updates update
    → ReadsTimes env formats (domain_event_from_ent row)
    → row.uid ≡ row.remote_id
    → without_occurrence w row start ≡ ok ev
    → update_google_event formats env update c ev ≡ ok ev'
    → (ev'.recurrence ≡ ev.recurrence) × (ev'.all_day ≡ ev.all_day) × (ev'.uid ≡ ev.uid)
unfolding update_google_event domain_event_from_ent from_google_event
google_keeps_series env formats update w row start c ev ev' law server reads named made given =
    let sent = without_occurrence-Sent w row start ev made in
    let (item, answered, back) =
      read_back-ok env c "update google event"
        (update c.remote_id ev.remote_id (to_google_event formats ev)) (ev.remote_id == "") _ ev'
        given in
    let (held, id_kept) = server c.remote_id ev.remote_id _ item answered in
    let reads_sent : ReadsTimes env formats ev =
      subst (ReadsTimes env formats) (sym sent.same)
        (record { timed = reads.timed; dated = reads.dated }) in
    let r = sent_event_round_trip env formats c ev item law reads_sent held in
    (
      ap (λ e. e.recurrence) (sym back)
          ∙ r.recurrence
          ∙ ap (λ (e : Event). recurrence_back e.recurrence) sent.same
          ∙ not_empty-last sent.recurrence.rrule sent.recurrence.rdate sent.recurrence.exdate
              (exdate_value w start row.all_day) _
          ∙ sym (ap (λ e. e.recurrence) sent.same),
      ap (λ e. e.all_day) (sym back) ∙ r.all_day,
      ap (λ e. e.uid) (sym back)
          ∙ id_kept
          ∙ ap (λ e. e.remote_id) sent.same
          ∙ sym named
          ∙ sym (ap (λ e. e.uid) sent.same),
    )
