-- ===== src/Repo/Events/Upserts.antt =====
-- A rule for what `UpsertEvent` of core/repo/events_mutations.go makes of the tables where it succeeds.
use dankcalendar.Base.{String, suc, ◌≡◌, inl, inr, Bool-cases, ◌==◌, string_eq, arith}
use dankcalendar.Repo.Store.{Error, Result, ok, err, EventRow, Tables, attempt, update, only}
use dankcalendar.Repo.Post.{
  Either, Any, Triple, update-Triple, query-Triple, attempt-Triple, bind-Triple,
}
use dankcalendar.Repo.Events.{
  UpsertEventInput, set_fields, blank_event, select, has_key, find_event_by_uid, update_rows,
  apply_event_update, insert_event, choose_id, is_constraint, settle_found, settle, create_event,
  is_not_found, after_find, upsert_event,
}

insert-err :
    (x : EventRow) (t : Tables) (y : Error)
    → (insert_event x t).0 ≡ err y
    → (insert_event x t).1 ≡ t
unfolding insert_event
insert-err x t y e = ground arith

-- From `P` to `Q`, where `Found` is what the search leaves known of the row that it finds.
module _ (P Q : Tables → Type 0) (Found : EventRow → Tables → Type 0) (input : UpsertEventInput)
    (finds : (t : Tables) (r : EventRow)
      → P t
      → only (select (has_key input.calendar_id input.uid) t.events) ≡ ok r
      → Found r t)
    (updates : (t : Tables) (r : EventRow)
      → Found r t
      → Q (record t { events = update_rows r.id (set_fields input) t.events }))
    (inserts : (id : String) (t : Tables) (r : EventRow)
      → P t
      → (insert_event (set_fields input (blank_event id input.calendar_id input.uid)) t).0 ≡ ok r
      → Q (insert_event (set_fields input (blank_event id input.calendar_id input.uid)) t).1)
    (draws : (t : Tables) → P t → P (record t { drawn = suc t.drawn })) where
  find-Triple : Triple P (find_event_by_uid input.calendar_id input.uid) Found (λ e. P)
  unfolding find_event_by_uid
  find-Triple = query-Triple P Found (λ e. P) _ (λ t r h e. finds t r h e) (λ t e h. h)

  apply-Triple : (r : EventRow) → Triple (Found r) (apply_event_update r.id input) (λ a. Q) Any
  unfolding apply_event_update
  apply-Triple r =
      update-Triple (Found r) (λ a. Q) Any _ (λ t a h e. updates t r h) (λ t e h x. tt)
        (λ t text h. tt)

  insert-Triple :
      (id : String)
      → Triple P
          (update (insert_event (set_fields input (blank_event id input.calendar_id input.uid))))
          (λ r. Q)
          (λ e. P)
  insert-Triple id =
      update-Triple P (λ r. Q) (λ e. P) _ (λ t r h e. inserts id t r h e)
        (λ t e h x. rw (insert-err _ t e x) h) (λ t text h. h)

  choose_id-Triple : Triple P (choose_id input.id) (λ id. P) Any
  unfolding choose_id
  choose_id-Triple w c h = elim (Bool-cases (input.id == "")) [
    | inl e ↦ rw e (c, draws w.tables h)
    | inr e ↦ rw e (c, h)
  ]

  settle_found-Triple :
      (e : Error) (found : Result EventRow)
      → Triple (Either Found (λ e'. P) found) (settle_found input e found) (λ r. Q) Any
  unfolding settle_found
  settle_found-Triple e (ok r) w c h = apply-Triple r w c h
  settle_found-Triple e (err e') w c h = (c, tt)

  settle-Triple :
      (made : Result EventRow)
      → Triple (Either (λ r. Q) (λ e. P) made) (settle input made) (λ r. Q) Any
  unfolding settle
  settle-Triple (ok r) w c h = (c, h)
  settle-Triple (err e) w c h = elim (Bool-cases (is_constraint e)) [
    | inl k ↦ rw k (
        bind-Triple P (Either Found (λ e'. P)) Any (λ r. Q)
          (attempt (find_event_by_uid input.calendar_id input.uid)) (settle_found input e)
          (attempt-Triple P _ _ Any _ find-Triple) (settle_found-Triple e) w c h)
    | inr k ↦ rw k (c, tt)
  ]

  create-Triple : Triple P (create_event input) (λ r. Q) Any
  unfolding create_event
  create-Triple =
      bind-Triple P (λ id. P) Any (λ r. Q) (choose_id input.id) _ choose_id-Triple
        λ id.
          bind-Triple P (Either (λ r. Q) (λ e. P)) Any (λ r. Q) (attempt _) (settle input)
            (attempt-Triple P (λ r. Q) (λ e. P) Any _ (insert-Triple id)) settle-Triple

  after_find-Triple :
      (found : Result EventRow)
      → Triple (Either Found (λ e. P) found) (after_find input found) (λ r. Q) Any
  unfolding after_find
  after_find-Triple (ok r) w c h = apply-Triple r w c h
  after_find-Triple (err e) w c h = elim (Bool-cases (is_not_found e)) [
    | inl k ↦ rw k (create-Triple w c h)
    | inr k ↦ rw k (c, tt)
  ]

  pub upsert_event-Triple : Triple P (upsert_event input) (λ r. Q) Any
  unfolding upsert_event
  upsert_event-Triple =
      bind-Triple P (Either Found (λ e. P)) Any (λ r. Q)
        (attempt (find_event_by_uid input.calendar_id input.uid)) (after_find input)
        (attempt-Triple P _ _ Any _ find-Triple) after_find-Triple
