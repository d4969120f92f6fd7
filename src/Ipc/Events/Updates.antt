-- ===== src/Ipc/Events/Updates.antt =====
-- The event that `handleEventUpdate` of core/internal/ipc/events_write.go sends to the provider.
use dankcalendar.Base.{
  Bool-cases, inr, inl, ◌⊎◌, ℤ, pos_part, neg_part, subst, ◌-ℤ◌, ◌≤ℤ◌, Bool, true, false, not, ◌&&◌,
  [], none, ◌==◌, string_eq, if◌then◌else◌, ◌≡◌, refl, ap, ◌∙◌, arith, int_laws,
}
use dankcalendar.Calendar.Types.{Event}
use dankcalendar.Repo.Store.{Error, Result, ok, err, EventRow}
use dankcalendar.Repo.Post.{ok-inj}
use dankcalendar.Ipc.Params.{
  Params, Wire, present, event_from_params, parse_occurrence_start, shift_series_times,
}
use dankcalendar.Ipc.Params.Overlay.{and_then-ok, event_from_params-Overlaid}
use dankcalendar.Ipc.Events.{
  domain_event_from_ent, has_entries, shifted, updated_event, without_occurrence,
}

-- An edit of one occurrence of a recurring row.
abbrev pub edits_occurrence : Wire → EventRow → Params → Bool
edits_occurrence w row p =
    not (w.param_string p "occurrenceStart" == "") && has_entries row.recurrence

shifted-ok :
    (ev ev' : Event) (start : ℤ) (r : Result ℤ)
    → shifted ev start r ≡ ok ev'
    → (t : ℤ) × (r ≡ ok t) × (ev' ≡ shift_series_times ev start t)
shifted-ok ev ev' start (ok t) h = (t, refl, ground arith)
shifted-ok ev ev' start (err e) h = absurd (ground arith)

shift_series_times-start :
    (ev : Event) (start t : ℤ)
    → ((shift_series_times ev start t).start -ℤ start ≡ ev.start -ℤ t)
      × ((shift_series_times ev start t).end -ℤ (shift_series_times ev start t).start
          ≡ ev.end -ℤ ev.start)
unfolding shift_series_times
shift_series_times-start ev start t = (omega int_laws, omega int_laws)

after_length : (a b c d : ℤ) → a -ℤ b ≡ c -ℤ d → d ≤ℤ c → b ≤ℤ a
after_length a b c d e h = omega (int_laws, ap pos_part e, ap neg_part e, h)

module _ (w : Wire) (row : EventRow) (p : Params) (ev : Event) where
  -- An edit of one occurrence of a recurring event moves the start of the series by what the request's
  -- event starts after that occurrence, and keeps the length of the request's event, so the series ends
  -- no earlier than it starts; where the request gives no start, its event starts where the series does.
  pub updated_series_shift :
      updated_event w row p ≡ ok ev
      → edits_occurrence w row p ≡ true
      → (asked : Event) × (occurrence_start : ℤ) × (event_from_params w
            (domain_event_from_ent row)
            p
          ≡ ok asked)
        × (parse_occurrence_start w (w.param_string p "occurrenceStart") row.all_day
            ≡ ok occurrence_start)
        × (ev.start -ℤ row.start ≡ asked.start -ℤ occurrence_start)
        × (ev.end -ℤ ev.start ≡ asked.end -ℤ asked.start)
        × (ev.start ≤ℤ ev.end)
        × ((w.param_string p "start" == "") ≡ true → asked.start ≡ row.start)
  unfolding updated_event domain_event_from_ent
  updated_series_shift h edits =
      let (asked, a, rest) =
        and_then-ok (event_from_params w (domain_event_from_ent row) p) _ ev h in
      let (t, parsed, same) = shifted-ok asked ev row.start _ (rw edits at rest) in
      let (start, length) = shift_series_times-start asked row.start t in
      let o = event_from_params-Overlaid w (domain_event_from_ent row) p asked a in
      let moved : ev.start -ℤ row.start ≡ asked.start -ℤ t =
        ap (λ x. x.start -ℤ row.start) same ∙ start in
      let kept : ev.end -ℤ ev.start ≡ asked.end -ℤ asked.start =
        ap (λ x. x.end -ℤ x.start) same ∙ length in
      (asked, t, a, parsed, moved, kept, after_length _ _ _ _ kept o.ordered, o.start)

-- What the event that is sent has lost of the row.
pub record Stripped (ev : Event) : Type 0 where
  pub attendees : ev.attendees ≡ []
  pub organizer : ev.organizer ≡ none
  pub categories : ev.categories ≡ none
  pub visibility : ev.visibility ≡ ""

shift-Stripped : (ev : Event) (start t : ℤ) → Stripped ev → Stripped (shift_series_times ev start t)
unfolding shift_series_times
shift-Stripped ev start t s = record {
  attendees = s.attendees;
  organizer = s.organizer;
  categories = s.categories;
  visibility = s.visibility;
}

module _ (w : Wire) (row : EventRow) where
  asked-Stripped :
      (p : Params) (ev : Event)
      → event_from_params w (domain_event_from_ent row) p ≡ ok ev
      → Stripped ev × (present "transparency" p ≡ false → ev.transparency ≡ "")
  unfolding domain_event_from_ent
  asked-Stripped p ev h =
      let o = event_from_params-Overlaid w (domain_event_from_ent row) p ev h in
      (
        record {
          attendees = o.guests.1;
          organizer = o.guests.0;
          categories = o.rest.0;
          visibility = o.rest.1;
        },
        o.transparency,
      )

  edited-Stripped :
      (p : Params) (asked ev : Event) (b : Bool) (start : ℤ) (r : Result ℤ)
      → Stripped asked × (present "transparency" p ≡ false → asked.transparency ≡ "")
      → (if b then shifted asked start r else ok asked) ≡ ok ev
      → Stripped ev × (present "transparency" p ≡ false → ev.transparency ≡ "")
  unfolding shift_series_times
  edited-Stripped p asked ev true start (ok t) s h =
      subst (λ e. Stripped e × (present "transparency" p ≡ false → e.transparency ≡ ""))
        (ok-inj _ ev h) (shift-Stripped asked start t s.0, s.1)
  edited-Stripped p asked ev true start (err e) s h = absurd (ground arith)
  edited-Stripped p asked ev false start r s h =
      subst (λ e. Stripped e × (present "transparency" p ≡ false → e.transparency ≡ ""))
        (ok-inj _ ev h) s

  excluded-Stripped :
      (asked ev : Event) (b : Bool) (e : Error)
      → Stripped asked × (asked.transparency ≡ "")
      → (if b then ok asked else err e) ≡ ok ev
      → Stripped ev × (ev.transparency ≡ "")
  excluded-Stripped asked ev true e s h =
      subst (λ e. Stripped e × (e.transparency ≡ "")) (ok-inj _ ev h) s
  excluded-Stripped asked ev false e s h = absurd (ground arith)

  updated-Stripped :
      (p : Params) (ev : Event)
      → updated_event w row p ≡ ok ev
      → Stripped ev × (present "transparency" p ≡ false → ev.transparency ≡ "")
  unfolding updated_event
  updated-Stripped p ev h =
      let (asked, a, rest) =
        and_then-ok (event_from_params w (domain_event_from_ent row) p) _ ev h in
      edited-Stripped p asked ev _ row.start _ (asked-Stripped p asked a) rest

  without_occurrence-Stripped :
      (start : ℤ) (ev : Event)
      → without_occurrence w row start ≡ ok ev
      → Stripped ev × (ev.transparency ≡ "")
  unfolding without_occurrence domain_event_from_ent
  without_occurrence-Stripped start ev h =
      excluded-Stripped _ ev _ _
        (record { attendees = refl; organizer = refl; categories = refl; visibility = refl }, refl)
        h

  -- The event that an update of any row sends to the provider, recurring or not, and the one that the
  -- deletion of an occurrence sends, have no attendees, no organizer, no categories and no visibility,
  -- whatever the stored row has; nor have they a transparency, unless it is the event of an update whose
  -- request gives one.
  pub sent_events-Stripped :
      (p : Params) (start : ℤ) (ev : Event)
      → (updated_event w row p ≡ ok ev) ⊎ (without_occurrence w row start ≡ ok ev)
      → Stripped ev
        × ((ev.transparency ≡ "")
            ⊎ ((present "transparency" p ≡ true) × (updated_event w row p ≡ ok ev)))
  sent_events-Stripped p start ev (inl h) =
      let (s, unset) = updated-Stripped p ev h in
      (
        s,
        elim (Bool-cases (present "transparency" p)) [ inl e ↦ inr (e, h) | inr e ↦ inl (unset e) ],
      )
  sent_events-Stripped p start ev (inr h) =
      let (s, none_set) = without_occurrence-Stripped start ev h in (s, inl none_set)
