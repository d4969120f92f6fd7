-- ===== src/Ipc/Params/Overlay.antt =====
-- What the parameters of a request change of an event (`eventFromParams` of
-- core/internal/ipc/events_write.go), and what they leave.
use dankcalendar.Base.{
  ℤ, ◌≤ℤ◌, ltb_ℤ, String, Bool, true, false, List, Option, none, some, ◌==◌, string_eq, lookup,
  if◌then◌else◌, ◌≡◌, refl, sym, ap, subst, ◌∙◌, inl, inr, Bool-cases, arith,
}
use dankcalendar.Calendar.Types.{Event, Reminder, Recurrence}
use dankcalendar.Repo.Store.{Result, ok, err}
use dankcalendar.Repo.Post.{ok-inj}
use dankcalendar.Ipc.Params.{
  Param, Params, Wire, and_then, present, given, given_reminders, given_recurrence, given_time,
  with_start, with_end, with_times, given_transparency, checked_times, with_fields,
  event_from_params,
}

-- Where a chain succeeds, so do its parts.
pub and_then-ok :
    {A B : Type 0} (r : Result A) (f : A → Result B) (b : B)
    → and_then r f ≡ ok b
    → (a : A) × (r ≡ ok a) × (f a ≡ ok b)
and_then-ok (ok a) f b h = (a, refl, h)
and_then-ok (err e) f b h = absurd (ground arith)

-- What the request leaves of an event, and what it gives.
pub record Overlaid (w : Wire) (base : Event) (p : Params) (ev : Event) : Type 0 where
  pub ordered : ev.start ≤ℤ ev.end
  -- A key that is missing leaves its field.
  pub summary : present "summary" p ≡ false → ev.summary ≡ base.summary
  pub description : present "description" p ≡ false → ev.description ≡ base.description
  pub location : present "location" p ≡ false → ev.location ≡ base.location
  pub all_day : present "allDay" p ≡ false → ev.all_day ≡ base.all_day
  pub status : present "status" p ≡ false → ev.status ≡ base.status
  pub transparency : present "transparency" p ≡ false → ev.transparency ≡ base.transparency
  pub reminders : lookup "reminders" p ≡ none → ev.reminders ≡ base.reminders
  pub recurrence : lookup "recurrence" p ≡ none → ev.recurrence ≡ base.recurrence
  pub start : (w.param_string p "start" == "") ≡ true → ev.start ≡ base.start
  pub end : (w.param_string p "end" == "") ≡ true → ev.end ≡ base.end
  -- These have no key.
  pub names :
      (ev.id ≡ base.id)
      × (ev.uid ≡ base.uid)
      × (ev.remote_id ≡ base.remote_id)
      × (ev.etag ≡ base.etag)
  pub zones : (ev.start_time_zone ≡ base.start_time_zone) × (ev.end_time_zone ≡ base.end_time_zone)
  pub guests : (ev.organizer ≡ base.organizer) × (ev.attendees ≡ base.attendees)
  pub rest :
      (ev.categories ≡ base.categories)
      × (ev.visibility ≡ base.visibility)
      × (ev.raw_ics ≡ base.raw_ics)

module _ (w : Wire) (p : Params) where
  record Timed (base ev : Event) : Type 0 where
    from : ℤ
    to : ℤ
    from_given : given_time w p "start" base.all_day base.start ≡ ok from
    to_given : given_time w p "end" base.all_day base.end ≡ ok to
    same : ev ≡ record base { start = from; end = to }

  in_order :
      (base ev : Event) (b : Bool)
      → (if b
          then and_then (with_end w p base) (with_start w p)
          else and_then (with_start w p base) (with_end w p))
        ≡ ok ev
      → Timed base ev
  in_order base ev true h =
      let (x, first, second) = and_then-ok (with_end w p base) (with_start w p) ev h in
      let (to, t, made) = and_then-ok (given_time w p "end" base.all_day base.end) _ x first in
      let (from, s, done) = and_then-ok (given_time w p "start" x.all_day x.start) _ ev second in
      let e : x ≡ record base { end = to } = sym (ok-inj _ x made) in
      record {
        from = from;
        to = to;
        from_given = subst (λ (y : Event). given_time w p "start" y.all_day y.start ≡ ok from) e s;
        to_given = t;
        same = sym (ok-inj _ ev done) ∙ ap (λ (y : Event). record y { start = from }) e;
      }
  in_order base ev false h =
      let (x, first, second) = and_then-ok (with_start w p base) (with_end w p) ev h in
      let (from, s, made) =
        and_then-ok (given_time w p "start" base.all_day base.start) _ x first in
      let (to, t, done) = and_then-ok (given_time w p "end" x.all_day x.end) _ ev second in
      let e : x ≡ record base { start = from } = sym (ok-inj _ x made) in
      record {
        from = from;
        to = to;
        from_given = s;
        to_given = subst (λ (y : Event). given_time w p "end" y.all_day y.end ≡ ok to) e t;
        same = sym (ok-inj _ ev done) ∙ ap (λ (y : Event). record y { end = to }) e;
      }

  with_times-Timed : (base ev : Event) → with_times w p base ≡ ok ev → Timed base ev
  unfolding with_times
  with_times-Timed base ev h = in_order base ev w.end_first h

  given_time-kept :
      (key : String) (all_day : Bool) (old new : ℤ)
      → given_time w p key all_day old ≡ ok new
      → (w.param_string p key == "") ≡ true
      → new ≡ old
  unfolding given_time
  given_time-kept key all_day old new h e = ground arith

  given-kept :
      {A : Type 0} (key : String) (new old : A) → present key p ≡ false → given p key new old ≡ old
  given-kept key new old h = rw h refl

  given_transparency-kept :
      (old new : String)
      → given_transparency w p old ≡ ok new
      → present "transparency" p ≡ false
      → new ≡ old
  given_transparency-kept old new h e = ground arith

  given_reminders-kept :
      (o : Option Param) (old new : List Reminder)
      → given_reminders o old ≡ ok new
      → o ≡ none
      → new ≡ old
  given_reminders-kept none old new h e = ground arith
  given_reminders-kept (some r) old new h e = absurd (ground arith)

  given_recurrence-kept :
      (o : Option Param) (old : Option Recurrence) → o ≡ none → given_recurrence o old ≡ old
  given_recurrence-kept none old e = refl
  given_recurrence-kept (some r) old e = absurd (ground arith)

  checked-ordered : (x ev : Event) → checked_times w x ≡ ok ev → (ev ≡ x) × (x.start ≤ℤ x.end)
  checked-ordered x ev h = elim (Bool-cases (ltb_ℤ x.end x.start)) [
    | inl e ↦ absurd (ground arith)
    | inr e ↦ (ground arith, ground arith)
  ]

  overlay_times :
      (base x : Event) (transparency : String) (reminders : List Reminder)
      → given_transparency w p base.transparency ≡ ok transparency
      → given_reminders (lookup "reminders" p) base.reminders ≡ ok reminders
      → Timed (with_fields w base p transparency reminders) x
      → x.start ≤ℤ x.end
      → Overlaid w base p x
  unfolding with_fields
  overlay_times base x transparency reminders a b t o = record {
    ordered = o;
    summary = λ h. ap (λ e. e.summary) t.same ∙ given-kept _ _ _ h;
    description = λ h. ap (λ e. e.description) t.same ∙ given-kept _ _ _ h;
    location = λ h. ap (λ e. e.location) t.same ∙ given-kept _ _ _ h;
    all_day = λ h. ap (λ e. e.all_day) t.same ∙ given-kept _ _ _ h;
    status = λ h. ap (λ e. e.status) t.same ∙ given-kept _ _ _ h;
    transparency = λ h. ap (λ e. e.transparency) t.same ∙ given_transparency-kept _ _ a h;
    reminders = λ h. ap (λ e. e.reminders) t.same ∙ given_reminders-kept _ _ _ b h;
    recurrence = λ h. ap (λ e. e.recurrence) t.same ∙ given_recurrence-kept _ _ h;
    start = λ h. ap (λ e. e.start) t.same ∙ given_time-kept _ _ _ _ t.from_given h;
    end = λ h. ap (λ e. e.end) t.same ∙ given_time-kept _ _ _ _ t.to_given h;
    names = (
      ap (λ e. e.id) t.same,
      ap (λ e. e.uid) t.same,
      ap (λ e. e.remote_id) t.same,
      ap (λ e. e.etag) t.same,
    );
    zones = (ap (λ e. e.start_time_zone) t.same, ap (λ e. e.end_time_zone) t.same);
    guests = (ap (λ e. e.organizer) t.same, ap (λ e. e.attendees) t.same);
    rest =
        (ap (λ e. e.categories) t.same, ap (λ e. e.visibility) t.same, ap (λ e. e.raw_ics) t.same);
  }

-- An event that a request describes ends no earlier than it starts; each field whose parameter is missing
-- is that of the event that the request is about, and so are the names, the zones, the guests and what
-- has no parameter.
pub event_from_params-Overlaid :
    (w : Wire) (base : Event) (p : Params) (ev : Event)
    → event_from_params w base p ≡ ok ev
    → Overlaid w base p ev
unfolding event_from_params
event_from_params-Overlaid w base p ev h =
    let (transparency, a, h') = and_then-ok (given_transparency w p base.transparency) _ ev h in
    let (reminders, b, h'') =
      and_then-ok (given_reminders (lookup "reminders" p) base.reminders) _ ev h' in
    let (x, c, d) = and_then-ok _ _ ev h'' in
    let (same, ordered) = checked-ordered w p x ev d in
    subst (Overlaid w base p) (sym same)
      (overlay_times w p base x transparency reminders a b (with_times-Timed w p _ x c) ordered)
