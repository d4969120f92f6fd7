-- ===== src/Repo/Events/Rows.antt =====
-- The events table as the rows of its (calendar, uid) keys, and core/repo/events_mutations.go as
-- operations on them.
use dankcalendar.Base.{
  String, Bool, true, false, not, ◌&&◌, List, [], ◌∷◌, Option, none, some, ◌≡◌, refl, sym, ap, ◌∙◌,
  subst, arith, ◌==◌, contains, string_eq, if◌then◌else◌, inl, inr, Bool-cases,
}
use dankcalendar.Repo.Store.{ok, EventRow, CalendarRow, Tables, only}
use dankcalendar.Repo.Post.{Any, Triple, update-Triple, ok-inj}
use dankcalendar.Repo.Events.{
  UpsertEventInput, set_fields, blank_event, select, has_key, in_calendar, update_rows,
  insert_event, upsert_event, uid_not_in, delete_where, delete_event_by_uid,
  delete_events_not_in_uids,
}
use dankcalendar.Repo.Events.Keys.{
  clash, Distinct, UniqueKeys, select-Distinct, update_rows-Distinct, insert_event-UniqueKeys,
}
use dankcalendar.Repo.Events.Upserts.{upsert_event-Triple}

-- A row but for its identifier, which an insertion draws.
abbrev pub content : EventRow → EventRow
content r = record r { id = "" }

unfoldable pub row_at : String → String → List EventRow → Option EventRow
row_at c u [] = none
row_at c u (r ∷ rs) = let rest = row_at c u rs in if has_key c u r then some (content r) else rest

-- What a table has under each key, and the tables that have it, with calendars as in `F`.
abbrev pub Rows : Type 0
Rows = String → String → Option EventRow

abbrev pub HoldsRows : (List CalendarRow → Type 0) → Rows → Tables → Type 0
HoldsRows F v t = F t.calendars × UniqueKeys t × ((c u : String) → row_at c u t.events ≡ v c u)

abbrev pub same_key : String → String → String → String → Bool
same_key c u c' u' = c == c' && u == u'

-- What an upsert makes of a row, and of none.
abbrev pub upserted : UpsertEventInput → Option EventRow → EventRow
upserted input none = set_fields input (blank_event "" input.calendar_id input.uid)
upserted input (some r) = record (set_fields input r) {
  id = "";
  calendar_id = input.calendar_id;
  uid = input.uid;
}

abbrev pub with_upsert : UpsertEventInput → Rows → Rows
with_upsert input v c u =
    if same_key input.calendar_id input.uid c u
    then some (upserted input (v input.calendar_id input.uid))
    else v c u

abbrev pub without_row : String → String → Rows → Rows
without_row c u v c' u' = if same_key c u c' u' then none else v c' u'

-- The rows of the calendar that are not listed go.
abbrev pub only_listed : String → List String → Rows → Rows
only_listed c uids v c' u' = if c == c' && not (contains uids u') then none else v c' u'

row_at-without :
    (c u c' u' : String) (rs : List EventRow)
    → row_at c' u' (select (λ r. not (has_key c u r)) rs)
      ≡ (if same_key c u c' u' then none else row_at c' u' rs)
unfolding row_at select
row_at-without c u c' u' [] = ground arith
row_at-without c u c' u' (r ∷ rs) = ground (arith, row_at-without c u c' u' rs)

uid_not_in_lem : (uids : List String) (r : EventRow) → uid_not_in uids r ≡ not (contains uids r.uid)
uid_not_in_lem [] r = refl
uid_not_in_lem (u ∷ us) r = refl

row_at-not_in :
    (c : String) (uids : List String) (c' u' : String) (rs : List EventRow)
    → row_at c' u' (select (λ r. not (in_calendar c r && uid_not_in uids r)) rs)
      ≡ (if c == c' && not (contains uids u') then none else row_at c' u' rs)
unfolding row_at select
row_at-not_in c uids c' u' [] = ground arith
row_at-not_in c uids c' u' (r ∷ rs) =
    ground (arith, uid_not_in_lem uids r, row_at-not_in c uids c' u' rs)

-- No row clashes, so none has the key.
row_at-unclashed :
    (x : EventRow) (rs : List EventRow)
    → select (clash x) rs ≡ []
    → row_at x.calendar_id x.uid rs ≡ none
unfolding row_at select
row_at-unclashed x [] h = refl
row_at-unclashed x (r ∷ rs) h = ground (arith, row_at-unclashed x rs)

-- Rows with other identifiers are not updated.
update_rows-unclashed :
    (r : EventRow) (f : EventRow → EventRow) (rs : List EventRow)
    → select (clash r) rs ≡ []
    → update_rows r.id f rs ≡ rs
unfolding update_rows select
update_rows-unclashed r f [] h = refl
update_rows-unclashed r f (x ∷ rs) h = ground (arith, update_rows-unclashed r f rs)

other_id :
    (c u : String) (x r : EventRow) (rs : List EventRow)
    → select (clash x) rs ≡ []
    → only (select (has_key c u) rs) ≡ ok r
    → (x.id == r.id) ≡ false
unfolding select
other_id c u x r [] h e = absurd (ground arith)
other_id c u x r (y ∷ rs) h e = ground (arith, other_id c u x r rs)

row_at-found :
    (c u : String) (r : EventRow) (rs : List EventRow)
    → only (select (has_key c u) rs) ≡ ok r
    → row_at c u rs ≡ some (content r)
unfolding row_at select
row_at-found c u r [] h = absurd (ground arith)
row_at-found c u r (x ∷ rs) h = ground (arith, row_at-found c u r rs)

the_one : (x r : EventRow) (rs : List EventRow) → only (x ∷ rs) ≡ ok r → x ≡ r
the_one x r [] h = ok-inj x r h
the_one x r (y ∷ rs) h = absurd (ground arith)

key_named :
    (c u c' u' : String) (x : EventRow)
    → has_key c u x ≡ true
    → has_key c' u' x ≡ same_key c u c' u'
key_named c u c' u' x h = ground arith

id_same : (s : String) → (s == s) ≡ true
id_same s = ground arith

module _ (input : UpsertEventInput) (c u c' u' : String) where
  row_at-head :
      (x : EventRow) (rs : List EventRow)
      → has_key c u x ≡ true
      → select (clash x) rs ≡ []
      → row_at c' u' (update_rows x.id (set_fields input) (x ∷ rs)) ≡ (
          if same_key c u c' u' then some (set_fields input (content x)) else row_at c' u' (x ∷ rs))
  unfolding row_at update_rows set_fields
  row_at-head x rs k d =
      rw
        (
          id_same x.id,
          update_rows-unclashed x (set_fields input) rs d,
          sym (key_named c u c' u' x k),
        )
        (elim (Bool-cases (has_key c' u' x)) [ inl e ↦ rw e refl | inr e ↦ rw e refl ])

  row_at-later :
      (r x : EventRow) (rs rs' : List EventRow)
      → has_key c u x ≡ false
      → (x.id == r.id) ≡ false
      → row_at c' u' rs'
        ≡ (if same_key c u c' u' then some (set_fields input (content r)) else row_at c' u' rs)
      → row_at c' u' ((if x.id == r.id then set_fields input x else x) ∷ rs') ≡ (
          if same_key c u c' u' then some (set_fields input (content r)) else row_at c' u' (x ∷ rs))
  unfolding row_at
  row_at-later r x rs rs' k i h = rw i (ground arith)

  -- An update of the row with the key writes that row, and no other.
  row_at-updated :
      (r : EventRow) (rs : List EventRow)
      → Distinct rs
      → only (select (has_key c u) rs) ≡ ok r
      → row_at c' u' (update_rows r.id (set_fields input) rs)
        ≡ (if same_key c u c' u' then some (set_fields input (content r)) else row_at c' u' rs)
  unfolding select update_rows
  row_at-updated r [] d h = absurd (ground arith)
  row_at-updated r (x ∷ rs) d h = elim (Bool-cases (has_key c u x)) [
    | inl k ↦
        let same : x ≡ r = the_one x r (select (has_key c u) rs) (rw k at h) in
        subst
          (λ y. row_at c' u' (update_rows y.id (set_fields input) (x ∷ rs)) ≡ (
            if same_key c u c' u'
            then some (set_fields input (content y))
            else row_at c' u' (x ∷ rs)))
          same (row_at-head x rs k d.0)
    | inr k ↦
        let rest : only (select (has_key c u) rs) ≡ ok r = rw k at h in
        row_at-later r x rs (update_rows r.id (set_fields input) rs) k
          (other_id c u x r rs d.0 rest) (row_at-updated r rs d.1 rest)
  ]

row_at-inserted :
    (x : EventRow) (t : Tables) (r : EventRow)
    → (insert_event x t).0 ≡ ok r
    → (row_at x.calendar_id x.uid t.events ≡ none)
      × ((c u : String)
          → row_at c u (insert_event x t).1.events
            ≡ (if same_key x.calendar_id x.uid c u then some (content x) else row_at c u t.events))
unfolding insert_event row_at
row_at-inserted x t r e = (ground (arith, row_at-unclashed x t.events), λ c u. ground arith)

insert-calendars : (x : EventRow) (t : Tables) → (insert_event x t).1.calendars ≡ t.calendars
unfolding insert_event
insert-calendars x t = ground arith

found_key :
    (c u : String) (r : EventRow) (rs : List EventRow)
    → only (select (has_key c u) rs) ≡ ok r
    → (r.calendar_id ≡ c) × (r.uid ≡ u)
unfolding select
found_key c u r [] h = absurd (ground arith)
found_key c u r (x ∷ rs) h = ground (arith, found_key c u r rs)

upserted-content :
    (input : UpsertEventInput) (r : EventRow)
    → (r.calendar_id ≡ input.calendar_id) × (r.uid ≡ input.uid)
    → set_fields input (content r) ≡ upserted input (some (content r))
unfolding set_fields
upserted-content input r (a, b) = rw (a, b) refl

written_as :
    (input : UpsertEventInput) (b : Bool) (o o' prev prev' : Option EventRow)
    → o ≡ o'
    → prev ≡ prev'
    → (if b then some (upserted input o) else prev)
      ≡ (if b then some (upserted input o') else prev')
written_as input b o o' prev prev' e e' = rw (e, e') refl

-- An upsert that succeeds writes the row under its key, whether it finds one, inserts one, or falls
-- back to an update; and every other row stays as it is.
pub upsert_event-HoldsRows :
    (F : List CalendarRow → Type 0) (v : Rows) (input : UpsertEventInput)
    → Triple (HoldsRows F v) (upsert_event input) (λ r. HoldsRows F (with_upsert input v)) Any
unfolding set_fields
upsert_event-HoldsRows F v input =
    upsert_event-Triple (HoldsRows F v) (HoldsRows F (with_upsert input v))
      (λ r t.
        HoldsRows F v t × (only (select (has_key input.calendar_id input.uid) t.events) ≡ ok r))
      input (λ t r h e. (h, e))
      (λ t r h. (
        h.0.0,
        update_rows-Distinct r.id input t.events h.0.1,
        λ c u.
            row_at-updated input input.calendar_id input.uid c u r t.events h.0.1 h.1
            ∙ ap
                (λ x.
                  if same_key input.calendar_id input.uid c u then some x else row_at c u t.events)
                (upserted-content input r (found_key input.calendar_id input.uid r t.events h.1))
            ∙ written_as input _ (some (content r)) _ _ _
                (sym (row_at-found input.calendar_id input.uid r t.events h.1)
                  ∙ h.0.2 input.calendar_id input.uid)
                (h.0.2 c u),
      ))
      (λ id t r h e. (
        rw (insert-calendars _ t) h.0,
        insert_event-UniqueKeys _ t h.1,
        λ c u.
            (row_at-inserted _ t r e).1 c u
            ∙ written_as input _ none _ _ _
                (sym (row_at-inserted _ t r e).0 ∙ h.2 input.calendar_id input.uid) (h.2 c u),
      ))
      (λ t h. h)

pub delete_event_by_uid-HoldsRows :
    (F : List CalendarRow → Type 0) (v : Rows) (c u : String)
    → Triple (HoldsRows F v) (delete_event_by_uid c u) (λ n. HoldsRows F (without_row c u v)) Any
unfolding delete_event_by_uid delete_where
delete_event_by_uid-HoldsRows F v c u =
    update-Triple (HoldsRows F v) _ Any _
      (λ t n h e. (
        h.0,
        select-Distinct _ t.events h.1,
        λ c' u'.
            row_at-without c u c' u' t.events
            ∙ ap (λ o. if same_key c u c' u' then none else o) (h.2 c' u'),
      ))
      (λ t e h x. tt) (λ t text h. tt)

pub delete_events_not_in_uids-HoldsRows :
    (F : List CalendarRow → Type 0) (v : Rows) (c : String) (uids : List String)
    → Triple
        (HoldsRows F v)
        (delete_events_not_in_uids c uids)
        (λ n. HoldsRows F (only_listed c uids v))
        Any
unfolding delete_events_not_in_uids delete_where
delete_events_not_in_uids-HoldsRows F v c uids =
    update-Triple (HoldsRows F v) _ Any _
      (λ t n h e. (
        h.0,
        select-Distinct _ t.events h.1,
        λ c' u'.
            row_at-not_in c uids c' u' t.events
            ∙ ap (λ o. if c == c' && not (contains uids u') then none else o) (h.2 c' u'),
      ))
      (λ t e h x. tt) (λ t text h. tt)
