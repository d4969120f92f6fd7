-- ===== src/Ipc/Events/Exclusion.antt =====
-- What the deletion of one occurrence (core/internal/ipc/events_write.go) sends and stores of the series.
use mathlib.Core.Option
use dankcalendar.Base.{
  ℤ, String, List, [], ◌∷◌, ◌++◌, Option, none, some, string_eq, int_eq, if◌then◌else◌, ◌≡◌, refl,
  sym, ap, ◌∙◌, inl, inr, Bool-cases, arith,
}
use dankcalendar.Calendar.Types.{Recurrence, Event}
use dankcalendar.Calendar.Json.{JsonMap, get}
use dankcalendar.Calendar.Convert.{recurrence_from_map, recurrence_to_map, string_slice}
use dankcalendar.Calendar.Convert.RoundTrip.{IsJsonColumn, columns_round_trip}
use dankcalendar.Conv.Events.{event_upsert_input}
use dankcalendar.Conv.Events.RoundTrip.{reread}
use dankcalendar.Repo.Store.{Error, ok, err, EventRow}
use dankcalendar.Repo.Post.{ok-inj}
use dankcalendar.Repo.Events.{set_fields, or_kept}
use dankcalendar.Repo.Queries.{recurrence_strings}
use dankcalendar.Ipc.Params.{Wire, exdate_value}
use dankcalendar.Ipc.Events.{domain_event_from_ent, repeats, plus_exdate, without_occurrence}

abbrev exdates_or : List String → Option Recurrence → List String
exdates_or other none = other
exdates_or other (some r) = r.exdate

of_lists :
    (xs : List String) (r rec : Recurrence)
    → (elim xs as (λ x. Option Recurrence) [ [] ↦ none | _ ∷ _ ↦ some r ]) ≡ some rec
    → r.exdate ≡ rec.exdate
of_lists [] r rec h = absurd (ground arith)
of_lists (x ∷ xs) r rec h = ap (exdates_or []) h

-- The texts under "exdate" of a map from which a recurrence is read.
exdates_of :
    (m : JsonMap) (rec : Recurrence)
    → recurrence_from_map (some m) ≡ some rec
    → string_slice (get m "exdate") ≡ rec.exdate
unfolding recurrence_from_map
exdates_of [] rec h = absurd (ground arith)
exdates_of (e ∷ m) rec h = of_lists _ _ rec h

pub not_empty-last :
    (a b c : List String) (x : String) (r : Recurrence)
    → (elim (a ++ (b ++ (c ++ (x ∷ [])))) as (λ x. Option Recurrence) [
      | [] ↦ none
      | _ ∷ _ ↦ some r
    ])
      ≡ some r
not_empty-last [] [] [] x r = refl
not_empty-last [] [] (y ∷ c) x r = refl
not_empty-last [] (y ∷ b) c x r = refl
not_empty-last (y ∷ a) b c x r = refl

module _ (column : JsonMap → JsonMap) (law : IsJsonColumn column) where
  column_exdates :
      (o old : Option JsonMap) (rec : Recurrence)
      → recurrence_from_map (Option.map column o) ≡ some rec
      → recurrence_strings (Option.map column (or_kept o old)) "exdate" ≡ rec.exdate
  unfolding recurrence_strings recurrence_from_map
  column_exdates none old rec h = absurd (ground arith)
  column_exdates (some m) old rec h = exdates_of (column m) rec h

  -- The exclusions of the stored row.
  pub stored_exdates :
      (calendar_id value : String) (ev : Event) (old : EventRow) (r : Recurrence)
      → ev.recurrence ≡ plus_exdate value (some r)
      → recurrence_strings
          (reread column (set_fields (event_upsert_input calendar_id ev) old)).recurrence
          "exdate"
        ≡ r.exdate ++ (value ∷ [])
  unfolding set_fields event_upsert_input
  stored_exdates calendar_id value ev old r h =
      let rec : Recurrence = record r { exdate = r.exdate ++ (value ∷ []) } in
      let through = (columns_round_trip column law [] [] rec).2 in
      rw h (
        column_exdates (recurrence_to_map (some rec)) old.recurrence rec
          (through ∙ not_empty-last r.rrule r.rdate r.exdate value rec))

abbrev excluded_from : Wire → EventRow → ℤ → Recurrence → Event
excluded_from w row start r = record (domain_event_from_ent row) {
  recurrence = plus_exdate (exdate_value w start row.all_day) (some r);
}

-- The event that is sent excludes the occurrence, and is otherwise that of the row.
pub record Sent (w : Wire) (row : EventRow) (start : ℤ) (ev : Event) : Type 0 where
  pub recurrence : Recurrence
  pub same : ev ≡ excluded_from w row start recurrence

repeating-Sent :
    (w : Wire) (row : EventRow) (start : ℤ) (ev : Event) (o : Option Recurrence) (e : Error)
    → (if repeats o
        then ok (record (domain_event_from_ent row) {
          recurrence = plus_exdate (exdate_value w start row.all_day) o;
        })
        else err e)
      ≡ ok ev
    → Sent w row start ev
repeating-Sent w row start ev none e h = absurd (ground arith)
repeating-Sent w row start ev (some rec) e h = elim (Bool-cases (repeats (some rec))) [
  | inl k ↦ record { recurrence = rec; same = sym (ok-inj _ ev (rw k at h)) }
  | inr k ↦ absurd (ground arith)
]

pub without_occurrence-Sent :
    (w : Wire) (row : EventRow) (start : ℤ) (ev : Event)
    → without_occurrence w row start ≡ ok ev
    → Sent w row start ev
unfolding without_occurrence domain_event_from_ent
without_occurrence-Sent w row start ev h =
    repeating-Sent w row start ev (recurrence_from_map row.recurrence) _ h
