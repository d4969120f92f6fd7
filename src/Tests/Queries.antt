-- ===== src/Tests/Queries.antt =====
-- The listings of core/repo and the recurrences of core/internal/recurrence on small inputs.
use mathlib.Core.List.Permᴰ
use dankcalendar.Base.{
  ℤ, pos, ◌+ℤ◌, ◌-ℤ◌, leb_ℤ, String, true, false, List, [], ◌∷◌, length, Memᴰ, Permᴰ, none, some,
  ◌≡◌, ◌≢◌, ◌↔◌, refl, ◌==◌, string_eq, int_eq, ℤ-discrete, if◌then◌else◌, Bool-cases, inl, inr,
}
use dankcalendar.Calendar.Types.{is_zero}
use dankcalendar.Repo.Store.{ok, EventRow}
use dankcalendar.Recurrence.{Library, Series, expand, advance, location, kept_lines, decremented}
use dankcalendar.Recurrence.Lines.{only_readable, Kept, expand_readable, advance_rules}
use dankcalendar.Repo.Queries.{ListEventsParams, sql_page}
use dankcalendar.Repo.Queries.Expanded.{Env, list_events}
use dankcalendar.Repo.Queries.Expanded.Listed.{Listed}
use dankcalendar.Repo.Queries.Expanded.Window.{settled, expanded_listing}
use dankcalendar.Tests.Data.{tables}

-- Sorting by start.
insert : EventRow → List EventRow → List EventRow
insert r [] = r ∷ []
insert r (x ∷ xs) =
    let later = insert r xs in if leb_ℤ r.start x.start then r ∷ x ∷ xs else x ∷ later

by_start : List EventRow → List EventRow
by_start [] = []
by_start (r ∷ rs) = insert r (by_start rs)

insert_perm : (r : EventRow) (xs : List EventRow) → Permᴰ (r ∷ xs) (insert r xs)
unfolding insert
insert_perm r [] = Permᴰ.refl (r ∷ [])
insert_perm r (x ∷ xs) = elim (Bool-cases (leb_ℤ r.start x.start)) [
  | inl e ↦ rw e (Permᴰ.refl (r ∷ x ∷ xs))
  | inr e ↦ rw e (Permᴰ.trans (Permᴰ.swap refl refl) (Permᴰ.cons refl (insert_perm r xs)))
]

by_start_perm : (xs : List EventRow) → Permᴰ xs (by_start xs)
unfolding by_start
by_start_perm [] = Permᴰ.nil
by_start_perm (r ∷ rs) =
    Permᴰ.trans (Permᴰ.cons refl (by_start_perm rs)) (insert_perm r (by_start rs))

-- A library of weekly rules; the options are the COUNT of a rule.
abbrev week : ℤ
week = pos 604800000000000

abbrev lib : Library
lib = record {
  Location = Unit;
  utc = tt;
  load = λ name. none;
  parse_in_location = λ layout raw loc. none;
  split_commas = λ s. s ∷ [];
  trim_space = λ s. s;
  has_suffix = λ s suffix. false;
  byte_length = λ s. 8;
  Options = ℤ;
  parse_options = λ line loc.
      if line == "FREQ=WEEKLY"
      then some (pos 0)
      else if line == "FREQ=WEEKLY;COUNT=1"
      then some (pos 1)
      else none;
  with_dtstart = λ t loc o. o;
  until = λ o. pos 0;
  with_until = λ t o. o;
  count = λ o. o;
  with_count = λ n o. n;
  rule_text = λ o. if o == pos 0 then "FREQ=WEEKLY" else "FREQ=WEEKLY;COUNT=1";
  Rule = ℤ;
  new_rule = λ o. some o;
  between = λ s from to. s.start ∷ (s.start +ℤ week) ∷ [];
  after = λ s t. s.start +ℤ week;
}

abbrev pub env : Env
env = record {
  contains_fold = λ s query. s == query;
  rfc3339 = λ t. if t == pos 1000 then "first" else "later";
  lib = lib;
  row_zone = tt;
}

abbrev params : ListEventsParams
params = record {
  filter = record {
    calendar_ids = [];
    from = some (pos 0);
    to = some (pos 5000);
    query = "";
    include_recurring = true;
  };
  limit = pos 1;
  offset = pos 0;
}

expanded_listing_example :
    (rows : List EventRow) × (list_events env by_start by_start params (settled tables)
      ≡ (ok (sql_page (pos 1) (pos 0) rows, length rows), settled tables))
    × ((r : EventRow) → Memᴰ r rows ↔ Listed env params.filter (pos 0) (pos 5000) tables r)
expanded_listing_example =
    expanded_listing env (pos 0) (pos 5000) tables params by_start by_start by_start_perm refl refl
      refl

abbrev series : List String → Series lib
series lines = record {
  start = pos 1000;
  start_location = tt;
  all_day = false;
  time_zone = "";
  rrule = lines;
  rdate = [];
  exdate = [];
}

expand_readable_example :
    expand lib
      (only_readable lib (series ("FREQ=NEVER" ∷ "FREQ=WEEKLY" ∷ [])) (pos 5000))
      (pos 0)
      (pos 5000)
    ≡ expand lib (series ("FREQ=NEVER" ∷ "FREQ=WEEKLY" ∷ [])) (pos 0) (pos 5000)
expand_readable_example =
    expand_readable lib (series ("FREQ=NEVER" ∷ "FREQ=WEEKLY" ∷ [])) (pos 0) (pos 5000)

abbrev last_rule : Series lib
last_rule = series ("FREQ=WEEKLY;COUNT=1" ∷ [])

abbrev next_start : ℤ
next_start = pos 604800000001000

abbrev weekly_line : List String
weekly_line = "FREQ=WEEKLY" ∷ []

advance_rules_example :
    (weekly_line ≢ [])
    × (is_zero next_start ≡ false)
    × ((text : String) → Memᴰ text weekly_line ↔ Kept lib last_rule text)
unfolding advance location kept_lines decremented is_zero string_eq int_eq ℤ-discrete ◌+ℤ◌ ◌-ℤ◌
advance_rules_example = advance_rules lib last_rule next_start weekly_line refl
