-- ===== src/Repo/Events/Keys.antt =====
-- The unique keys of the events table, under every operation of core/repo/events_mutations.go.
use dankcalendar.Base.{String, Bool, not, ◌||◌, List, [], ◌∷◌, ◌≡◌, refl, arith, ◌==◌, string_eq}
use dankcalendar.Repo.Store.{EventRow, Tables, World}
use dankcalendar.Repo.Keeps.{Keeps, Sound, update-Keeps}
use dankcalendar.Repo.Events.Rules.{upsert_event-rule}
use dankcalendar.Repo.Events.{
  UpsertEventInput, set_fields, select, has_key, update_rows, insert_event, upsert_event,
  delete_where, delete_event, delete_event_by_uid, delete_events_not_in_uids,
  delete_events_in_series_not_in_uids,
}

-- Two rows that may not stand in the table together: the primary key, and the unique index on the
-- calendar and the uid.
abbrev pub clash : EventRow → EventRow → Bool
clash r x = x.id == r.id || has_key r.calendar_id r.uid x

abbrev pub Distinct : List EventRow → Type 0
Distinct [] = Unit
Distinct (r ∷ rs) = (select (clash r) rs ≡ []) × Distinct rs

abbrev pub UniqueKeys : Tables → Type 0
UniqueKeys t = Distinct t.events

select-select :
    (p q : EventRow → Bool) (rs : List EventRow) → select p rs ≡ [] → select p (select q rs) ≡ []
unfolding select
select-select p q [] h = refl
select-select p q (r ∷ rs) h = ground (arith, select-select p q rs)

pub select-Distinct :
    (p : EventRow → Bool) (rs : List EventRow) → Distinct rs → Distinct (select p rs)
unfolding select
select-Distinct p [] d = tt
select-Distinct p (r ∷ rs) d =
    ground (arith, select-Distinct p rs d.1, select-select (clash r) p rs d.0)

-- Setting the fields changes no key.
clash-update :
    (r : EventRow) (id : String) (input : UpsertEventInput) (rs : List EventRow)
    → select (clash r) rs ≡ []
    → select (clash r) (update_rows id (set_fields input) rs) ≡ []
unfolding select update_rows set_fields
clash-update r id input [] h = refl
clash-update r id input (x ∷ rs) h = ground (arith, clash-update r id input rs)

pub update_rows-Distinct :
    (id : String) (input : UpsertEventInput) (rs : List EventRow)
    → Distinct rs
    → Distinct (update_rows id (set_fields input) rs)
unfolding update_rows set_fields
update_rows-Distinct id input [] d = tt
update_rows-Distinct id input (r ∷ rs) d =
    ground (arith, update_rows-Distinct id input rs d.1, clash-update r id input rs d.0)

pub insert_event-UniqueKeys :
    (r : EventRow) (t : Tables) → UniqueKeys t → UniqueKeys (insert_event r t).1
unfolding insert_event
insert_event-UniqueKeys r t d = ground arith

delete_where-Keeps : (p : EventRow → Bool) → Keeps UniqueKeys (delete_where p)
unfolding delete_where
delete_where-Keeps p =
    update-Keeps UniqueKeys _ (λ t d. select-Distinct (λ r. not (p r)) t.events d)

upsert_event-Keeps : (input : UpsertEventInput) → Keeps UniqueKeys (upsert_event input)
upsert_event-Keeps input =
    upsert_event-rule UniqueKeys input (λ id t d. update_rows-Distinct id input t.events d)
      (λ id t d. insert_event-UniqueKeys _ t d) (λ t d. d)

-- Every mutation of the events table keeps its keys unique, those of the identifiers and those of a
-- calendar and a uid, whether its statements succeed or fail, if what other processes do in between
-- keeps them so.
pub mutations_keep_keys :
    (input : UpsertEventInput) (id calendar_id uid recurring_id : String) (uids : List String)
    (w : World)
    → Sound UniqueKeys w
    → Sound UniqueKeys (upsert_event input w).1
      × Sound UniqueKeys (delete_event id w).1
      × Sound UniqueKeys (delete_event_by_uid calendar_id uid w).1
      × Sound UniqueKeys (delete_events_not_in_uids calendar_id uids w).1
      × Sound UniqueKeys (delete_events_in_series_not_in_uids calendar_id recurring_id uids w).1
unfolding delete_event delete_event_by_uid delete_events_not_in_uids
    delete_events_in_series_not_in_uids
mutations_keep_keys input id calendar_id uid recurring_id uids w s = (
  upsert_event-Keeps input w s,
  delete_where-Keeps _ w s,
  delete_where-Keeps _ w s,
  delete_where-Keeps _ w s,
  delete_where-Keeps _ w s,
)
