-- ===== src/Tests/Requests.antt =====
-- The requests of core/internal/ipc on small inputs.
use dankcalendar.Base.{
  ℤ, pos, String, true, false, List, [], ◌∷◌, Option, none, some, ◌==◌, string_eq, int_eq, contains,
  lookup, if◌then◌else◌, ◌≡◌, refl, sym, ap, subst, arith,
}
use dankcalendar.Calendar.Types.{Event}
use dankcalendar.Calendar.Json.{Json, text}
use dankcalendar.Calendar.Rsvp.{Account}
use dankcalendar.Conv.Events.{event_upsert_input}
use dankcalendar.Recurrence.Excluded.{Excludes, Reads}
use dankcalendar.Repo.Store.{Result, ok, err, EventRow, Tables, World, quiet, broken, query}
use dankcalendar.Repo.Post.{still, ok-inj}
use dankcalendar.Repo.Queries.Expanded.{Env}
use dankcalendar.Repo.Queries.{get_event}
use dankcalendar.Repo.Events.{select, set_fields, blank_event}
use dankcalendar.Ipc.Params.{Param, value, Params, Wire, exdate_value, parse_occurrence_start}
use dankcalendar.Ipc.Handler.{Provider, was_deleted}
use dankcalendar.Ipc.Events.{
  handle_event_delete, handle_event_create, handle_event_update, handle_event_rsvp,
  domain_event_from_ent, updated_event, without_occurrence,
}
use dankcalendar.Ipc.Events.Excluded.{KeepsSeries, Gone, deleted_occurrence-Gone}
use dankcalendar.Ipc.Handler as Handler
use dankcalendar.Ipc.Events as Events
use dankcalendar.Calendar.Convert as Convert
use dankcalendar.Calendar.Json as Json
use dankcalendar.Rsvp as Rsvp
use dankcalendar.Repo.Events as Repo
use dankcalendar.Repo.Store as Store
use dankcalendar.Tests.Data.{decode_all, law, tables, meeting}
use dankcalendar.Tests.Accounts.{account, calendar}
use dankcalendar.Tests.Queries.{env}

abbrev pub text_of : Option Param → String
text_of none = ""
text_of (some (value (text s))) = s
text_of (some p) = ""

abbrev pub wire : Wire
wire = record {
  param_string = λ p key. text_of (lookup key p);
  param_bool = λ p key. false;
  param_int = λ p key. pos 0;
  parse_rfc3339 = λ s.
      if s == "first"
      then some (record { at = pos 1000; date = pos 0 })
      else if s == "second"
      then some (record { at = pos 1500; date = pos 0 })
      else none;
  format_date = λ t. "day";
  format_time = λ t. if t == pos 1000 then "first" else "second";
  trim_space = λ s. s;
  to_lower = λ s. s;
  local_name = "UTC";
  end_first = true;
}

-- A provider that stores what it is sent.
abbrev pub echo : Provider
echo = record {
  create_event = λ c ev. ok ev;
  update_event = λ c ev. ok ev;
  delete_event = λ c ev. ok tt;
  respond = none;
  task_writer = none;
}

abbrev pub build : Account → Result Provider
build a = ok echo

abbrev pub stored : Tables
stored = record tables { calendars = calendar ∷ []; accounts = account ∷ [] }

pub without : List ℤ → List ℤ → List ℤ
without xs [] = []
without xs (t ∷ ts) = let rest = without xs ts in if contains xs t then rest else t ∷ rest

without-gone : (xs ts : List ℤ) (t : ℤ) → contains xs t ≡ true → contains (without xs ts) t ≡ false
unfolding without
without-gone xs [] t h = refl
without-gone xs (u ∷ ts) t h = ground (arith, without-gone xs ts t h)

-- The rules of a library that follows the exclusions.
abbrev pub strict : Env
strict = record env {
  lib = record env.lib {
    has_suffix = λ s suffix. true;
    parse_in_location = λ layout raw loc. if raw == "first" then some (pos 1000) else none;
    between = λ s from to. without s.excluded (s.start ∷ []);
  };
}

strict-Excludes : Excludes strict.lib
strict-Excludes = record {
  between-excluded = λ s from to t h. without-gone s.excluded (s.start ∷ []) t h;
}

abbrev pub row : EventRow
row = set_fields (event_upsert_input "c1" meeting) (blank_event "id1" "c1" "u1")

abbrev one_occurrence : Params
one_occurrence = ("id", value (text "id1")) ∷ ("occurrenceStart", value (text "first")) ∷ []

reads : Reads strict.lib row.all_day (exdate_value wire (pos 1000) row.all_day) (pos 1000)
unfolding exdate_value set_fields event_upsert_input string_eq int_eq
reads = record {
  alone = refl;
  trimmed = refl;
  filled = refl;
  timed = λ e. (refl, refl);
  dated = λ e. absurd (ground arith);
}

echo-KeepsSeries : KeepsSeries wire row (pos 1000) echo
echo-KeepsSeries c ev ev' made h =
    let e = ok-inj ev ev' h in
    (
      ap (λ (x : Event). x.recurrence) (sym e),
      ap (λ (x : Event). x.all_day) (sym e),
      ap (λ (x : Event). x.uid) (sym e),
    )

found : (get_event (wire.param_string one_occurrence "id") (still stored)).0 ≡ ok row
unfolding get_event query select set_fields event_upsert_input string_eq lookup
found = refl

read : parse_occurrence_start wire "first" false ≡ ok (pos 1000)
unfolding parse_occurrence_start string_eq
read = refl

answered : (handle_event_delete wire build one_occurrence (still stored)).result ≡ ok was_deleted
unfolding handle_event_delete get_event string_eq lookup Handler.◌>>=◌ Handler.run_repo query select
    set_fields Events.delete_row parse_occurrence_start Events.delete_event_occurrence
    Events.without_occurrence Events.domain_event_from_ent Convert.recurrence_from_map
    event_upsert_input Convert.recurrence_to_map Handler.provider_for_calendar
    Rsvp.get_calendar_with_account Handler.provider_of Events.delete_occurrence_by
    Convert.string_slice Convert.write_texts Convert.only_texts Json.as_text Json.get
    Events.persist_event Events.publish_events_changed Handler.call_provider Handler.publish
    Handler.◌>>◌ Repo.after_find Repo.apply_event_update Repo.find_event_by_uid Repo.update_rows
    Repo.upsert_event Store.update
answered = refl

deleted_occurrence-Gone_example :
    Gone strict decode_all
      (calendar ∷ [])
      (pos 0)
      (pos 5000)
      row
      (pos 1000)
      (handle_event_delete wire build one_occurrence (still stored)).world.tables
unfolding string_eq lookup set_fields event_upsert_input
deleted_occurrence-Gone_example =
    deleted_occurrence-Gone strict wire build stored one_occurrence row (pos 1000) was_deleted
      decode_all (calendar ∷ []) (pos 0) (pos 5000) law strict-Excludes
      (λ a q e. subst (KeepsSeries wire row (pos 1000)) (ok-inj echo q e) echo-KeepsSeries) found
      refl read reads answered
