-- ===== src/Repo/Events/Sets.antt =====
-- The deletions of core/repo/events_mutations.go as operations on the set of stored keys.
use dankcalendar.Base.{String, not, ◌&&◌, List, ap, ◌∙◌, ◌==◌, contains, string_eq}
use dankcalendar.Repo.Store.{CalendarRow, World}
use dankcalendar.Repo.Post.{Any, Calm, Post, Triple, update-Triple}
use dankcalendar.Repo.Events.{
  UpsertEventInput, upsert_event, delete_where, delete_events_not_in_uids, delete_event_by_uid,
}
use dankcalendar.Repo.Events.View.{
  Keys, Holds, key, with_key, without_key, only_uids, stored-without, stored-not_in,
  upsert_event-Holds,
}

-- The deletions take away the keys that they name, and no others.
pub delete_event_by_uid-Holds :
    (F : List CalendarRow → Type 0) (v : Keys) (c u : String)
    → Triple (Holds F v) (delete_event_by_uid c u) (λ n. Holds F (without_key c u v)) Any
unfolding delete_event_by_uid delete_where
delete_event_by_uid-Holds F v c u =
    update-Triple (Holds F v) _ Any _
      (λ t n h e. (
        h.0,
        λ c' u'. stored-without c u c' u' t.events ∙ ap (◌&&◌ (not (key c u c' u'))) (h.1 c' u'),
      ))
      (λ t e h x. tt) (λ t text h. tt)

pub delete_events_not_in_uids-Holds :
    (F : List CalendarRow → Type 0) (v : Keys) (c : String) (uids : List String)
    → Triple (Holds F v) (delete_events_not_in_uids c uids) (λ n. Holds F (only_uids c uids v)) Any
unfolding delete_events_not_in_uids delete_where
delete_events_not_in_uids-Holds F v c uids =
    update-Triple (Holds F v) _ Any _
      (λ t n h e. (
        h.0,
        λ c' u'.
            stored-not_in c uids c' u' t.events
            ∙ ap (λ b. b && not (c == c' && not (contains uids u'))) (h.1 c' u'),
      ))
      (λ t e h x. tt) (λ t text h. tt)

-- While no other process writes, the mutations act on the set of stored keys, and leave the calendars
-- alone: an upsert that succeeds adds its key, whether it finds a row, inserts one, or falls back to
-- an update; a deletion takes away its key; and the pruning of a calendar takes away the keys of that
-- calendar that are not listed. No other key comes or goes.
pub mutations_as_sets :
    (F : List CalendarRow → Type 0) (v : Keys) (input : UpsertEventInput) (c u : String)
    (uids : List String) (w : World)
    → Calm w.incidents
    → Holds F v w.tables
    → Post (λ r. Holds F (with_key input.calendar_id input.uid v)) Any (upsert_event input w)
      × Post (λ n. Holds F (without_key c u v)) Any (delete_event_by_uid c u w)
      × Post (λ n. Holds F (only_uids c uids v)) Any (delete_events_not_in_uids c uids w)
mutations_as_sets F v input c u uids w calm h = (
  upsert_event-Holds F v input w calm h,
  delete_event_by_uid-Holds F v c u w calm h,
  delete_events_not_in_uids-Holds F v c uids w calm h,
)
