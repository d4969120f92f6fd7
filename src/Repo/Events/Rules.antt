-- ===== src/Repo/Events/Rules.antt =====
-- A rule for `UpsertEvent`: what its three writes keep, it keeps.
use dankcalendar.Base.{String, suc, inl, inr, Bool-cases, ◌==◌, string_eq}
use dankcalendar.Repo.Store.{Error, Result, ok, err, EventRow, Tables, attempt}
use dankcalendar.Repo.Keeps.{Keeps, query-Keeps, update-Keeps, bind-Keeps}
use dankcalendar.Repo.Events.{
  UpsertEventInput, set_fields, blank_event, find_event_by_uid, update_rows, apply_event_update,
  insert_event, choose_id, is_constraint, settle_found, settle, create_event, is_not_found,
  after_find, upsert_event,
}

module _ {ℓ} (P : Tables → Type ℓ) (input : UpsertEventInput)
    (updates : (id : String) (t : Tables)
      → P t
      → P (record t { events = update_rows id (set_fields input) t.events }))
    (inserts : (id : String) (t : Tables)
      → P t
      → P (insert_event (set_fields input (blank_event id input.calendar_id input.uid)) t).1)
    (draws : (t : Tables) → P t → P (record t { drawn = suc t.drawn })) where
  apply-Keeps : (id : String) → Keeps P (apply_event_update id input)
  unfolding apply_event_update
  apply-Keeps id = update-Keeps P _ (updates id)

  find-Keeps : Keeps P (find_event_by_uid input.calendar_id input.uid)
  unfolding find_event_by_uid
  find-Keeps = query-Keeps P _

  choose_id-Keeps : Keeps P (choose_id input.id)
  unfolding choose_id
  choose_id-Keeps w s = elim (Bool-cases (input.id == "")) [
    | inl e ↦ rw e (record { holds = draws w.tables s.holds; safe = s.safe })
    | inr e ↦ rw e s
  ]

  settle_found-Keeps : (e : Error) (found : Result EventRow) → Keeps P (settle_found input e found)
  unfolding settle_found
  settle_found-Keeps e (ok r) = apply-Keeps r.id
  settle_found-Keeps e (err e') = λ w s. s

  settle-Keeps : (made : Result EventRow) → Keeps P (settle input made)
  unfolding settle
  settle-Keeps (ok r) w s = s
  settle-Keeps (err e) w s = elim (Bool-cases (is_constraint e)) [
    | inl c ↦ rw c (
        bind-Keeps P (attempt (find_event_by_uid input.calendar_id input.uid))
          (settle_found input e) find-Keeps (settle_found-Keeps e) w s)
    | inr c ↦ rw c s
  ]

  create_event-Keeps : Keeps P (create_event input)
  unfolding create_event
  create_event-Keeps =
      bind-Keeps P (choose_id input.id) _ choose_id-Keeps
        λ id. bind-Keeps P (attempt _) (settle input) (update-Keeps P _ (inserts id)) settle-Keeps

  after_find-Keeps : (found : Result EventRow) → Keeps P (after_find input found)
  unfolding after_find
  after_find-Keeps (ok r) w s = apply-Keeps r.id w s
  after_find-Keeps (err e) w s = elim (Bool-cases (is_not_found e)) [
    | inl c ↦ rw c (create_event-Keeps w s)
    | inr c ↦ rw c s
  ]

  pub upsert_event-rule : Keeps P (upsert_event input)
  unfolding upsert_event
  upsert_event-rule =
      bind-Keeps P (attempt (find_event_by_uid input.calendar_id input.uid)) (after_find input)
        find-Keeps after_find-Keeps
