-- ===== src/Repo/Events/Stored.antt =====
-- The row that `UpsertEvent` of core/repo/events_mutations.go returns.
use mathlib.Core.List.Memᴰ
use mathlib.Core.Logic.{ite}
use dankcalendar.Base.{
  String, suc, Bool, true, false, ◌||◌, List, [], ◌∷◌, Memᴰ, ◌==◌, string_eq, if◌then◌else◌, ◌≡◌,
  ◌⊎◌, refl, sym, ap, ◌∙◌, subst, inl, inr, Bool-cases, arith,
}
use dankcalendar.Repo.Store.{
  not_found, constraint, Result, ok, err, EventRow, Tables, World, only, query, update,
}
use dankcalendar.Repo.Post.{still, ok-inj}
use dankcalendar.Repo.Events.{
  UpsertEventInput, set_fields, blank_event, select, has_key, find_event_by_uid, update_rows,
  with_id, apply_event_update, insert_event, choose_id, settle_found, settle, create_event,
  after_find, upsert_event,
}
use dankcalendar.Repo.Events.Members.{Memᴰ-select, Memᴰ-of_select}

-- The row is in the table, made by the input from a row with the key of the input.
pub record StoredAs (input : UpsertEventInput) (r : EventRow) (t : Tables) : Type 0 where
  pub old : EventRow
  pub same : r ≡ set_fields input old
  pub key : (old.calendar_id ≡ input.calendar_id) × (old.uid ≡ input.uid)
  pub member : Memᴰ r t.events

only-ok : {A : Type 0} (xs : List A) (x : A) → only xs ≡ ok x → xs ≡ x ∷ []
only-ok [] x h = absurd (ground arith)
only-ok (y ∷ []) x h = ap (λ z. z ∷ []) (ground arith)
only-ok (y ∷ z ∷ rest) x h = absurd (ground arith)

of_one : {A : Type 0} {x y : A} → Memᴰ x (y ∷ []) → x ≡ y
of_one m = elim (Memᴰ.cases_cons m) [ inl e ↦ e | inr n ↦ absurd (Memᴰ.not-nil n) ]

if_true : {A : Type 0} (b : Bool) (x y : A) → b ≡ true → (if b then x else y) ≡ x
if_true true x y h = refl
if_true false x y h = absurd (ground arith)

id_same : (s : String) → (s == s) ≡ true
id_same s = elim (string_eq.dec s s) as (λ d. ite d true false ≡ true) [
  | yes e ↦ refl
  | no e ↦ absurd (e refl)
]

Memᴰ-update_rows :
    {r : EventRow} {rows : List EventRow} (id : String) (f : EventRow → EventRow)
    → (r.id == id) ≡ true
    → Memᴰ r rows
    → Memᴰ (f r) (update_rows id f rows)
unfolding update_rows
Memᴰ-update_rows {r} id f h (Memᴰ.head {x} {xs} e) =
    Memᴰ.head (ap f e ∙ sym (if_true (x.id == id) (f x) x (sym (ap (λ y. y.id == id) e) ∙ h)))
Memᴰ-update_rows {r} id f h (Memᴰ.tail {x} {xs} m) = Memᴰ.tail (Memᴰ-update_rows id f h m)

module _ (input : UpsertEventInput) where
  of_update :
      (r0 r : EventRow) (t : Tables)
      → Memᴰ r0 t.events
      → has_key input.calendar_id input.uid r0 ≡ true
      → (apply_event_update r0.id input (still t)).0 ≡ ok r
      → StoredAs input r (apply_event_update r0.id input (still t)).1.tables
  unfolding apply_event_update update set_fields
  of_update r0 r t m k h =
      let rows = update_rows r0.id (set_fields input) t.events in
      let one : select (with_id r0.id) rows ≡ r ∷ [] = only-ok _ r h in
      let mine =
        Memᴰ-select (with_id r0.id) (id_same r0.id)
          (Memᴰ-update_rows r0.id (set_fields input) (id_same r0.id) m) in
      record {
        old = r0;
        same = sym (of_one (subst (Memᴰ (set_fields input r0)) one mine));
        key = (ground arith, ground arith);
        member =
            (Memᴰ-of_select (with_id r0.id) rows (subst (Memᴰ r) (sym one) (Memᴰ.head refl))).0;
      }

  none_found :
      (t : Tables)
      → select (has_key input.calendar_id input.uid) t.events ≡ []
      → (find_event_by_uid input.calendar_id input.uid (still t)) ≡ (err not_found, still t)
  unfolding find_event_by_uid query
  none_found t h = rw h refl

  abbrev settled : Result EventRow × Tables → Result EventRow × World
  settled (made, t) = settle input made (still t)

  abbrev Settles : EventRow → Result EventRow × Tables → Type 0
  Settles r p = (settled p).0 ≡ ok r → StoredAs input r (settled p).1.tables

  clashing :
      (r : EventRow) (t : Tables)
      → select (has_key input.calendar_id input.uid) t.events ≡ []
      → Settles r (err constraint, t)
  unfolding settle settle_found
  clashing r t e h = absurd (ground (arith, none_found t e, h))

  abbrev fresh : String → EventRow
  fresh id = set_fields input (blank_event id input.calendar_id input.uid)

  inserted :
      (row : EventRow) (t : Tables) (clash : List EventRow)
      → select (λ x. x.id == row.id || has_key row.calendar_id row.uid x) t.events ≡ clash
      → (insert_event row t ≡ (ok row, record t { events = row ∷ t.events }))
        ⊎ (insert_event row t ≡ (err constraint, t))
  unfolding insert_event
  inserted row t [] e = inl (rw (e, insert_event) refl)
  inserted row t (c ∷ cs) e = inr (rw (e, insert_event) refl)

  free :
      (id : String) (r : EventRow) (t : Tables)
      → Settles r (ok (fresh id), record t { events = fresh id ∷ t.events })
  unfolding settle set_fields
  free id r t h = record {
    old = blank_event id input.calendar_id input.uid;
    same = sym (ok-inj _ r h);
    key = (refl, refl);
    member = Memᴰ.head (sym (ok-inj _ r h));
  }

  of_insert :
      (id : String) (r : EventRow) (t : Tables)
      → select (has_key input.calendar_id input.uid) t.events ≡ []
      → Settles r (insert_event (fresh id) t)
  of_insert id r t none_there = elim (inserted (fresh id) t _ refl) [
    | inl e ↦ subst (Settles r) (sym e) (free id r t)
    | inr e ↦ subst (Settles r) (sym e) (clashing r t none_there)
  ]

  of_create :
      (r : EventRow) (t : Tables)
      → select (has_key input.calendar_id input.uid) t.events ≡ []
      → (create_event input (still t)).0 ≡ ok r
      → StoredAs input r (create_event input (still t)).1.tables
  unfolding create_event choose_id update
  of_create r t e = elim (Bool-cases (input.id == "")) [
    | inl h ↦ rw h (of_insert (t.new_ids t.drawn) r (record t { drawn = suc t.drawn }) e)
    | inr h ↦ rw h (of_insert input.id r t e)
  ]

  of_found :
      (r : EventRow) (t : Tables) (found : List EventRow)
      → select (has_key input.calendar_id input.uid) t.events ≡ found
      → (after_find input (only found) (still t)).0 ≡ ok r
      → StoredAs input r (after_find input (only found) (still t)).1.tables
  unfolding after_find
  of_found r t [] e h = of_create r t e h
  of_found r t (r0 ∷ []) e h =
      let (there, keyed) =
        Memᴰ-of_select (has_key input.calendar_id input.uid) t.events
          (subst (Memᴰ r0) (sym e) (Memᴰ.head refl)) in
      of_update r0 r t there keyed h
  of_found r t (r0 ∷ r1 ∷ rest) e h = absurd (ground arith)

-- In a world without failures and other processes, the row that `UpsertEvent` returns is stored, and was
-- made by its input from a row with the key of the input.
pub upsert_event-StoredAs :
    (input : UpsertEventInput) (t : Tables) (r : EventRow)
    → (upsert_event input (still t)).0 ≡ ok r
    → StoredAs input r (upsert_event input (still t)).1.tables
unfolding upsert_event find_event_by_uid query
upsert_event-StoredAs input t r h = of_found input r t _ refl h
