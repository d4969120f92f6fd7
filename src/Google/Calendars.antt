-- ===== src/Google/Calendars.antt =====
-- core/internal/providers/google/provider.go and task.go: the calendars and task lists of an account.
pub mod Degrades
use Prim.Native.String as Text
use dankcalendar.Base.{
  ℕ, String, Bool, true, false, not, ◌&&◌, ◌||◌, List, [], ◌∷◌, ◌++◌, map, Option, none, some, ◌==◌,
  contains, string_eq, nat_eq, if◌then◌else◌,
}
use dankcalendar.Calendar.Types.{Calendar, component_vtodo}
use dankcalendar.Google.Quota.Errors.{Err, wrapped, ApiError, as_api}
use dankcalendar.Google.Quota.Calls.{quota_limited}

-- `calendar.CalendarListEntry`
pub record CalendarEntry : Type 0 where
  pub id : String
  pub summary : String
  pub description : String
  pub background_color : String
  pub time_zone : String
  pub access_role : String

-- `tasks.TaskList`
pub record TaskList : Type 0 where
  pub id : String
  pub title : String

-- What a request is answered with.
pub data Reply (A : Type 0) : Type 0 where
  items : List A → Reply A
  failure : Err → Reply A

-- The calendars with the notices, or an error.
pub data Listing : Type 0 where
  listed : List Calendar → List String → Listing
  refused : Err → Listing

abbrev pub notice_tasks_unavailable : String
notice_tasks_unavailable = "tasks_unavailable"

abbrev pub notice_calendars_unavailable : String
notice_calendars_unavailable = "calendars_unavailable"

abbrev calendar_of_entry : String → CalendarEntry → Calendar
calendar_of_entry account_id item = record {
  id = "";
  account_id = account_id;
  remote_id = item.id;
  name = item.summary;
  description = item.description;
  color = item.background_color;
  time_zone = item.time_zone;
  read_only = item.access_role == "reader" || item.access_role == "freeBusyReader";
  hidden = false;
  sync_token = "";
  supported_components = [];
}

abbrev calendar_of_list : String → TaskList → Calendar
calendar_of_list account_id item = record {
  id = "";
  account_id = account_id;
  remote_id = Text.◌++◌ "tasklist:" item.id;
  name = item.title;
  description = "";
  color = "";
  time_zone = "";
  read_only = false;
  hidden = false;
  sync_token = "";
  supported_components = component_vtodo ∷ [];
}

unfoldable pub list_event_calendars : String → Reply CalendarEntry → Reply Calendar
list_event_calendars account_id (items xs) = items (map (calendar_of_entry account_id) xs)
list_event_calendars account_id (failure e) = failure e

-- `classify` is `classifyAuthErr`, here and below.
unfoldable pub list_task_lists : (Err → Err) → String → Reply TaskList → Reply Calendar
list_task_lists classify account_id (items xs) = items (map (calendar_of_list account_id) xs)
list_task_lists classify account_id (failure e) =
    failure (wrapped "list google task lists" (classify e))

-- `has_text` is `strings.Contains`.
module _ (has_text : String → String → Bool) where
  abbrev not_configured : ApiError → Bool
  not_configured e =
      (e.code == 403)
      && (contains e.reasons "accessNotConfigured"
          || (has_text e.message "has not been used in project"
              || has_text e.message "it is disabled"))

  abbrev if_api : (ApiError → Bool) → Option ApiError → Bool
  if_api test none = false
  if_api test (some e) = test e

  unfoldable pub is_service_disabled : Err → Bool
  is_service_disabled e = if_api not_configured (as_api e)

  abbrev lacks_scope : (String → String) → ApiError → Bool
  lacks_scope to_lower e =
      (e.code == 403)
      && (contains e.reasons "insufficientPermissions"
          || has_text (to_lower e.message) "insufficient authentication scopes")

  unfoldable pub is_optional_service_unavailable : (String → String) → Err → Bool
  is_optional_service_unavailable to_lower e =
      is_service_disabled e || if_api (lacks_scope to_lower) (as_api e)

-- `join` is `errors.Join`.
module _ (has_text : String → String → Bool) (to_lower : String → String) (classify : Err → Err)
    (join : Err → Err → Err) where
  -- The switch on the two errors.
  unfoldable pub merge_listings : Reply Calendar → Reply Calendar → Listing
  merge_listings (failure e) (failure e') =
      refused (wrapped "list google calendars" (classify (join e e')))
  merge_listings (failure e) (items lists) =
      if is_service_disabled has_text e
      then listed lists (notice_calendars_unavailable ∷ [])
      else refused (wrapped "list google calendars" (classify e))
  merge_listings (items calendars) (failure e) =
      if is_optional_service_unavailable has_text to_lower e
      then listed calendars (notice_tasks_unavailable ∷ [])
      else if quota_limited e
      then listed calendars []
      else refused (wrapped "list google task lists" (classify e))
  merge_listings (items calendars) (items lists) = listed (calendars ++ lists) []

  -- `ListCalendars`, over the answers to the two requests.
  unfoldable pub list_calendars : String → Reply CalendarEntry → Reply TaskList → Listing
  list_calendars account_id events tasks =
      merge_listings (list_event_calendars account_id events)
        (list_task_lists classify account_id tasks)
