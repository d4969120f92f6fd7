-- ===== src/Ipc/Events/Deletion.antt =====
-- What a deletion of one occurrence that is answered without an error has done
-- (core/internal/ipc/events_write.go).
use dankcalendar.Base.{
  ℤ, String, Bool, true, false, ◌==◌, string_eq, int_eq, if◌then◌else◌, ◌≡◌, refl, sym, ap, ◌∙◌,
  subst, arith,
}
use dankcalendar.Calendar.Types.{Calendar, Event}
use dankcalendar.Calendar.Rsvp.{Account}
use dankcalendar.Conv.Events.{event_upsert_input}
use dankcalendar.Repo.Store.{Result, ok, err, EventRow, Tables, World, query}
use dankcalendar.Repo.Post.{still, ok-inj}
use dankcalendar.Repo.Events.{upsert_event}
use dankcalendar.Repo.Queries.{get_event}
use dankcalendar.Ipc.Params.{Params, Wire, parse_occurrence_start}
use dankcalendar.Ipc.Handler.{
  Provider, event_updated, Answer, Outcome, Handler, ◌>>=◌, ◌>>◌, respond_with, run_repo, publish,
  call_provider, texted, provider_for_calendar,
}
use dankcalendar.Ipc.Handler.Runs.{>>=-Ran, past_refusal, Provides, provider_for_calendar-Provides}
use dankcalendar.Ipc.Events.{
  without_occurrence, persist_event, publish_events_changed, delete_occurrence_by,
  delete_event_occurrence, delete_row, handle_event_delete,
}

texted-ok : {A : Type 0} (text : String) (r : Result A) (a : A) → texted text r ≡ ok a → r ≡ ok a
texted-ok text (ok x) a h = h
texted-ok text (err e) a h = absurd (ground arith)

module _ (w : Wire) (build : Account → Result Provider) (t : Tables) where
  pub record Persisted (q : Provider) (c : Calendar) (ev : Event) (after : World) : Type 0 where
    pub answer : Event
    pub given : q.update_event c ev ≡ ok answer
    pub row : EventRow
    pub stored : (upsert_event (event_upsert_input c.id answer) (still t)).0 ≡ ok row
    pub world : after ≡ (upsert_event (event_upsert_input c.id answer) (still t)).1

  delete_occurrence_by-Persisted :
      (at : String) (ev : Event) (q : Provider) (c : Calendar) (a : Answer)
      → (delete_occurrence_by w build at ev (q, c) (still t)).result ≡ ok a
      → Persisted q c ev (delete_occurrence_by w build at ev (q, c) (still t)).world
  unfolding delete_occurrence_by call_provider persist_event run_repo publish_events_changed publish
      ◌>>◌ ◌>>=◌
  delete_occurrence_by-Persisted at ev q c a h =
      let x =
        >>=-Ran (call_provider "delete occurrence" c (event_updated ev) (q.update_event c ev)) _
          (still t) a h in
      let y = >>=-Ran (persist_event w build c.id x.value) _ (still t) a x.second in
      record {
        answer = x.value;
        given = texted-ok "delete occurrence" _ x.value x.first;
        row = y.value;
        stored = y.first;
        world = x.world ∙ y.world;
      }

  pub record Excluded (row : EventRow) (start : ℤ) (after : World) : Type 0 where
    pub event : Event
    pub sent : without_occurrence w row start ≡ ok event
    pub provider : Provider
    pub calendar : Calendar
    pub provides :
        (o : Outcome (Provider × Calendar)) × Provides build row.calendar_id t o provider calendar
    pub persisted : Persisted provider calendar event after

  delete_event_occurrence-Excluded :
      (row : EventRow) (start : ℤ) (a : Answer)
      → (delete_event_occurrence w build row start (still t)).result ≡ ok a
      → Excluded row start (delete_event_occurrence w build row start (still t)).world
  unfolding delete_event_occurrence
  delete_event_occurrence-Excluded row start a h =
      let x = >>=-Ran (respond_with (without_occurrence w row start)) _ (still t) a h in
      let y = >>=-Ran (provider_for_calendar build row.calendar_id) _ (still t) a x.second in
      let found =
        provider_for_calendar-Provides build row.calendar_id t y.value.0 y.value.1 y.first in
      let last : (delete_occurrence_by w build row.calendar_id x.value y.value (still t)).result
          ≡ ok a =
        subst (λ v. (delete_occurrence_by w build row.calendar_id x.value y.value v).result ≡ ok a)
          found.world y.second in
      record {
        event = x.value;
        sent = x.first;
        provider = y.value.0;
        calendar = y.value.1;
        provides = (_, found);
        persisted =
            subst (Persisted y.value.0 y.value.1 x.value)
              (ap (λ v. (delete_occurrence_by w build row.calendar_id x.value y.value v).world)
                  (sym found.world)
                ∙ sym y.world
                ∙ sym x.world)
              (delete_occurrence_by-Persisted row.calendar_id x.value y.value.0 y.value.1 a last);
      }

  taken :
      {A : Type 0} (b : Bool) (m k : Handler A) (v : World)
      → b ≡ false
      → (if b then m else k) v ≡ k v
  taken true m k v h = absurd (ground arith)
  taken false m k v h = refl

  delete_row-Excluded :
      (p : Params) (row : EventRow) (start : ℤ) (a : Answer)
      → (w.param_string p "occurrenceStart" == "") ≡ false
      → parse_occurrence_start w (w.param_string p "occurrenceStart") row.all_day ≡ ok start
      → (delete_row w build p row (still t)).result ≡ ok a
      → Excluded row start (delete_row w build p row (still t)).world
  unfolding delete_row
  delete_row-Excluded p row start a asked parsed h =
      let (h', past) = past_refusal (row.calendar_id == "") _ _ (still t) a h in
      let choice = taken (w.param_string p "occurrenceStart" == "") _ _ (still t) asked in
      let x =
        >>=-Ran
          (respond_with (parse_occurrence_start w (w.param_string p "occurrenceStart") row.all_day))
          (delete_event_occurrence w build row) (still t) a
          (sym (ap (λ o. o.result) choice) ∙ h') in
      let same : x.value ≡ start = ok-inj x.value start (sym x.first ∙ parsed) in
      subst (λ s. Excluded row s (delete_row w build p row (still t)).world) same
        (subst (Excluded row x.value) (sym x.world ∙ sym (ap (λ o. o.world) choice) ∙ sym past)
          (delete_event_occurrence-Excluded row x.value a x.second))

  -- The request is for an occurrence of a row that there is.
  pub event_delete-Excluded :
      (p : Params) (row : EventRow) (start : ℤ) (a : Answer)
      → (get_event (w.param_string p "id") (still t)).0 ≡ ok row
      → (w.param_string p "occurrenceStart" == "") ≡ false
      → parse_occurrence_start w (w.param_string p "occurrenceStart") row.all_day ≡ ok start
      → (handle_event_delete w build p (still t)).result ≡ ok a
      → Excluded row start (handle_event_delete w build p (still t)).world
  unfolding handle_event_delete run_repo get_event query
  event_delete-Excluded p row start a found asked parsed h =
      let (h', past) = past_refusal (w.param_string p "id" == "") _ _ (still t) a h in
      let x =
        >>=-Ran (run_repo (get_event (w.param_string p "id"))) (delete_row w build p) (still t) a
          h' in
      let same : x.value ≡ row = ok-inj x.value row (sym x.first ∙ found) in
      subst (Excluded row start)
        (ap (λ r. (delete_row w build p r (still t)).world) (sym same) ∙ sym x.world ∙ sym past)
        (delete_row-Excluded p row start a asked parsed
          (subst (λ r. (delete_row w build p r (still t)).result ≡ ok a) same x.second))
