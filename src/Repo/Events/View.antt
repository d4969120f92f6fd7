-- ===== src/Repo/Events/View.antt =====
-- The events table as the set of its (calendar, uid) keys, and core/repo/events_mutations.go as
-- operations on that set.
use dankcalendar.Base.{
  String, Bool, true, false, not, ◌&&◌, ◌||◌, List, [], ◌∷◌, ◌≡◌, refl, sym, ap, ◌∙◌, arith, ◌==◌,
  contains, string_eq,
}
use dankcalendar.Repo.Store.{ok, EventRow, CalendarRow, Tables, only}
use dankcalendar.Repo.Post.{Any, Triple}
use dankcalendar.Repo.Events.Upserts.{upsert_event-Triple}
use dankcalendar.Repo.Events.{
  UpsertEventInput, set_fields, select, has_key, in_calendar, update_rows, insert_event,
  upsert_event, uid_not_in,
}

pub stored : String → String → List EventRow → Bool
stored c u [] = false
stored c u (r ∷ rs) = has_key c u r || stored c u rs

-- A set of keys, and the tables that hold exactly its events, with calendars as in `F`.
abbrev pub Keys : Type 0
Keys = String → String → Bool

abbrev pub Holds : (List CalendarRow → Type 0) → Keys → Tables → Type 0
Holds F v t = F t.calendars × ((c u : String) → stored c u t.events ≡ v c u)

abbrev pub key : String → String → Keys
key c u c' u' = c == c' && u == u'

abbrev pub with_key : String → String → Keys → Keys
with_key c u v c' u' = key c u c' u' || v c' u'

abbrev pub without_key : String → String → Keys → Keys
without_key c u v c' u' = not (key c u c' u') && v c' u'

-- The keys of the calendar that are not listed go.
abbrev pub only_uids : String → List String → Keys → Keys
only_uids c uids v c' u' = v c' u' && not (c == c' && not (contains uids u'))

stored-update_rows :
    (c u id : String) (input : UpsertEventInput) (rs : List EventRow)
    → stored c u (update_rows id (set_fields input) rs) ≡ stored c u rs
unfolding stored update_rows set_fields
stored-update_rows c u id input [] = refl
stored-update_rows c u id input (r ∷ rs) = ground (arith, stored-update_rows c u id input rs)

-- A row that a search by the key finds is there.
stored-only :
    (c u : String) (rs : List EventRow) (r : EventRow)
    → only (select (has_key c u) rs) ≡ ok r
    → stored c u rs ≡ true
unfolding stored select
stored-only c u [] r h = absurd (ground arith)
stored-only c u (x ∷ rs) r h = ground (arith, stored-only c u rs r)

pub stored-without :
    (c u c' u' : String) (rs : List EventRow)
    → stored c' u' (select (λ r. not (has_key c u r)) rs) ≡ (not (key c u c' u') && stored c' u' rs)
unfolding stored select
stored-without c u c' u' [] = ground arith
stored-without c u c' u' (r ∷ rs) = ground (arith, stored-without c u c' u' rs)

uid_not_in_lem : (uids : List String) (r : EventRow) → uid_not_in uids r ≡ not (contains uids r.uid)
uid_not_in_lem [] r = refl
uid_not_in_lem (u ∷ us) r = refl

pub stored-not_in :
    (c : String) (uids : List String) (c' u' : String) (rs : List EventRow)
    → stored c' u' (select (λ r. not (in_calendar c r && uid_not_in uids r)) rs)
      ≡ (stored c' u' rs && not (c == c' && not (contains uids u')))
unfolding stored select
stored-not_in c uids c' u' [] = refl
stored-not_in c uids c' u' (r ∷ rs) =
    ground (arith, uid_not_in_lem uids r, stored-not_in c uids c' u' rs)

insert-ok :
    (x : EventRow) (t : Tables) (r : EventRow)
    → (insert_event x t).0 ≡ ok r
    → (c u : String)
    → stored c u (insert_event x t).1.events ≡ (key x.calendar_id x.uid c u || stored c u t.events)
unfolding insert_event stored
insert-ok x t r e c u = ground arith

insert-calendars : (x : EventRow) (t : Tables) → (insert_event x t).1.calendars ≡ t.calendars
unfolding insert_event
insert-calendars x t = ground arith

-- What a search leaves known of the row that it found.
abbrev Found : (List CalendarRow → Type 0) → Keys → String → String → EventRow → Tables → Type 0
Found F v c u r t = Holds F v t × (v c u ≡ true)

-- An upsert that succeeds adds its key to the set, whether it finds a row, inserts one, or falls
-- back to an update; and no other key comes or goes.
pub upsert_event-Holds :
    (F : List CalendarRow → Type 0) (v : Keys) (input : UpsertEventInput)
    → Triple
        (Holds F v)
        (upsert_event input)
        (λ r. Holds F (with_key input.calendar_id input.uid v))
        Any
unfolding set_fields
upsert_event-Holds F v input =
    upsert_event-Triple (Holds F v) (Holds F (with_key input.calendar_id input.uid v))
      (Found F v input.calendar_id input.uid) input
      (λ t r h e. (
        h,
        sym (h.1 input.calendar_id input.uid)
            ∙ stored-only input.calendar_id input.uid t.events r e,
      ))
      (λ t r h.
        (h.0.0, λ c u. ground (arith, h.1, h.0.1 c u, stored-update_rows c u r.id input t.events)))
      (λ id t r h e. (
        rw (insert-calendars _ t) h.0,
        λ c u. insert-ok _ t r e c u ∙ ap (◌||◌ (key input.calendar_id input.uid c u)) (h.1 c u),
      ))
      (λ t h. h)
