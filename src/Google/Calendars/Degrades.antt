-- ===== src/Google/Calendars/Degrades.antt =====
-- What becomes of the listing in core/internal/providers/google/provider.go where one of Google's two
-- services fails.
use dankcalendar.Base.{
  String, Bool, true, false, not, ◌&&◌, ◌||◌, List, [], ◌++◌, ++-nil, contains, string_eq,
  if◌then◌else◌, ◌≡◌, refl, sym, arith, inl, inr, Bool-cases,
}
use dankcalendar.Calendar.Types.{Calendar}
use dankcalendar.Google.Quota.Errors.{Err}
use dankcalendar.Google.Quota.Calls.{quota_limited}
use dankcalendar.Google.Calendars.{
  CalendarEntry, TaskList, Reply, items, failure, Listing, listed, refused,
  notice_tasks_unavailable, notice_calendars_unavailable, is_service_disabled,
  is_optional_service_unavailable, list_event_calendars, list_task_lists, merge_listings,
  list_calendars,
}

abbrev pub fetched : {A : Type 0} → Reply A → Bool
fetched (items xs) = true
fetched (failure e) = false

abbrev fails_with : {A : Type 0} → (Err → Bool) → Reply A → Bool
fails_with test (items xs) = false
fails_with test (failure e) = test e

abbrev of_reply : {A : Type 0} → Reply A → List A
of_reply (items xs) = xs
of_reply (failure e) = []

abbrev pub succeeds : Listing → Bool
succeeds (listed cs ns) = true
succeeds (refused e) = false

abbrev calendars_in : Listing → List Calendar
calendars_in (listed cs ns) = cs
calendars_in (refused e) = []

abbrev notices_in : Listing → List String
notices_in (listed cs ns) = ns
notices_in (refused e) = []

-- What a listing gives for the replies of the two services.
pub record Degrades (disabled unavailable : Err → Bool) (events lists : Reply Calendar)
    (l : Listing) : Type 0 where
  -- One service at least has to answer, and the other may fail only in a way that is let pass.
  pub survives : succeeds l ≡ (
      (fetched events || fails_with disabled events)
      && ((fetched lists || (fails_with unavailable lists || fails_with quota_limited lists))
          && (fetched events || fetched lists)))
  -- Nothing is lost of what was answered.
  pub whole : calendars_in l ≡ (if succeeds l then of_reply events ++ of_reply lists else [])
  -- A service that is switched off is told, and one that has run out of its quota is not.
  pub told_calendars :
      contains (notices_in l) notice_calendars_unavailable ≡ (succeeds l && not (fetched events))
  pub told_tasks :
      contains (notices_in l) notice_tasks_unavailable
      ≡ (succeeds l && fails_with unavailable lists)

module _ (has_text : String → String → Bool) (to_lower : String → String) (classify : Err → Err)
    (join : Err → Err → Err) where
  abbrev Told : Reply Calendar → Reply Calendar → Type 0
  Told events lists =
      Degrades (is_service_disabled has_text) (is_optional_service_unavailable has_text to_lower)
        events lists (merge_listings has_text to_lower classify join events lists)

  without_calendars : (lists : List Calendar) (e : Err) → Told (failure e) (items lists)
  unfolding merge_listings string_eq
  without_calendars lists e = elim (Bool-cases (is_service_disabled has_text e)) [
    | inl h ↦ record {
      survives = rw h refl;
      whole = rw h refl;
      told_calendars = rw h refl;
      told_tasks = rw h refl;
    }
    | inr h ↦ record {
      survives = rw h refl;
      whole = rw h refl;
      told_calendars = rw h refl;
      told_tasks = rw h refl;
    }
  ]

  without_lists : (calendars : List Calendar) (e : Err) → Told (items calendars) (failure e)
  unfolding merge_listings string_eq
  without_lists calendars e =
      elim (Bool-cases (is_optional_service_unavailable has_text to_lower e)) [
        | inl h ↦ record {
          survives = rw h refl;
          whole = rw h (sym (++-nil calendars));
          told_calendars = rw h refl;
          told_tasks = rw h refl;
        }
        | inr h ↦ elim (Bool-cases (quota_limited e)) [
          | inl k ↦ record {
            survives = rw (h, k) refl;
            whole = rw (h, k) (sym (++-nil calendars));
            told_calendars = rw (h, k) refl;
            told_tasks = rw (h, k) refl;
          }
          | inr k ↦ record {
            survives = rw (h, k) refl;
            whole = rw (h, k) refl;
            told_calendars = rw (h, k) refl;
            told_tasks = rw (h, k) refl;
          }
        ]
      ]

  without_both : (e e' : Err) → Told (failure e) (failure e')
  unfolding merge_listings string_eq
  without_both e e' = record {
    survives = ground arith;
    whole = refl;
    told_calendars = refl;
    told_tasks = refl;
  }

  merge_listings-Degrades : (events lists : Reply Calendar) → Told events lists
  unfolding merge_listings string_eq
  merge_listings-Degrades (items xs) (items ys) = record {
    survives = refl;
    whole = refl;
    told_calendars = refl;
    told_tasks = refl;
  }
  merge_listings-Degrades (failure e) (items ys) = without_calendars ys e
  merge_listings-Degrades (items xs) (failure e) = without_lists xs e
  merge_listings-Degrades (failure e) (failure e') = without_both e e'

  -- An account's listing succeeds exactly if one of Google's two services answers, and the other answers
  -- or fails because it is not enabled, the tasks also for want of the scope or of quota. It then has all
  -- calendars and task lists that were answered, and a notice for each service that is not available; a
  -- service that is only out of its quota gets none.
  pub list_calendars-Degrades :
      (account_id : String) (events : Reply CalendarEntry) (lists : Reply TaskList)
      → Degrades
          (is_service_disabled has_text)
          (is_optional_service_unavailable has_text to_lower)
          (list_event_calendars account_id events)
          (list_task_lists classify account_id lists)
          (list_calendars has_text to_lower classify join account_id events lists)
  unfolding list_calendars
  list_calendars-Degrades account_id events lists = merge_listings-Degrades _ _
