-- ===== src/Recurrence.antt =====
-- core/internal/recurrence/expand.go and advance.go: the occurrences of a recurring series.
pub mod Lines
pub mod Excluded
use dankcalendar.Base.{
  ℤ, pos, negsuc, ◌-ℤ◌, ltb_ℤ, ℕ, String, Bool, not, ◌&&◌, List, [], ◌∷◌, ◌++◌, is_empty, Option,
  none, some, ◌==◌, string_eq, nat_eq, if◌then◌else◌,
}
use dankcalendar.Calendar.Types.{is_zero}

-- `rrule.Set`, by the calls that build it.
pub record RuleSet (Rule : Type 0) : Type 0 where
  pub start : ℤ
  pub rules : List Rule
  pub dates : List ℤ
  pub excluded : List ℤ

-- What the code calls of Go's libraries and of rrule-go; the zero time stands for no occurrence.
pub record Library : Type 1 where
  -- `*time.Location`
  pub Location : Type 0
  pub utc : Location
  -- `tzcache.Load`, a memo of `time.LoadLocation`
  pub load : String → Option Location
  -- `time.ParseInLocation`
  pub parse_in_location : String → String → Location → Option ℤ
  -- `strings.SplitSeq(value, ",")`, `strings.TrimSpace`, `strings.HasSuffix` and `len`
  pub split_commas : String → List String
  pub trim_space : String → String
  pub has_suffix : String → String → Bool
  pub byte_length : String → ℕ
  -- `rrule.ROption`
  pub Options : Type 0
  pub parse_options : String → Location → Option Options
  pub with_dtstart : ℤ → Location → Options → Options
  pub until : Options → ℤ
  pub with_until : ℤ → Options → Options
  pub count : Options → ℤ
  pub with_count : ℤ → Options → Options
  pub rule_text : Options → String
  -- `rrule.RRule`
  pub Rule : Type 0
  pub new_rule : Options → Option Rule
  -- `Set.Between(from, to, true)` and `Set.After(t, false)`
  pub between : RuleSet Rule → ℤ → ℤ → List ℤ
  pub after : RuleSet Rule → ℤ → ℤ

module _ (lib : Library) where
  pub record Series : Type 0 where
    pub start : ℤ
    -- `Start.Location()`
    pub start_location : lib.Location
    pub all_day : Bool
    pub time_zone : String
    pub rrule : List String
    pub rdate : List String
    pub exdate : List String

  abbrev or_location : Option lib.Location → lib.Location → lib.Location
  or_location none other = other
  or_location (some loc) other = loc

  unfoldable pub location : Series → lib.Location
  location s =
      if s.all_day
      then lib.utc
      else if s.time_zone == ""
      then s.start_location
      else or_location (lib.load s.time_zone) s.start_location

  unfoldable pub parse_date_time : String → lib.Location → Option ℤ
  parse_date_time raw loc =
      if lib.has_suffix raw "Z"
      then lib.parse_in_location "20060102T150405Z" raw lib.utc
      else if lib.byte_length raw == 8
      then lib.parse_in_location "20060102" raw loc
      else lib.parse_in_location "20060102T150405" raw loc

  abbrev cons_some : Option ℤ → List ℤ → List ℤ
  cons_some none ts = ts
  cons_some (some t) ts = t ∷ ts

  unfoldable pub parse_items : List String → lib.Location → List ℤ
  parse_items [] loc = []
  parse_items (raw ∷ raws) loc =
      let rest = parse_items raws loc in
      let item = lib.trim_space raw in
      if item == "" then rest else cons_some (parse_date_time item loc) rest

  unfoldable pub parse_dates : List String → lib.Location → List ℤ
  parse_dates [] loc = []
  parse_dates (value ∷ values) loc =
      parse_items (lib.split_commas value) loc ++ parse_dates values loc

  -- The options of a line, bounded by the end of the window.
  unfoldable pub bounded : ℤ → lib.Location → ℤ → lib.Options → lib.Options
  bounded dtstart loc to opt =
      let started = lib.with_dtstart dtstart loc opt in
      if is_zero (lib.until started) then lib.with_until to started else started

  abbrev pub rule_from : (lib.Options → lib.Options) → Option lib.Options → Option lib.Rule
  rule_from f none = none
  rule_from f (some opt) = lib.new_rule (f opt)

  abbrev pub add_rule : Option lib.Rule → List lib.Rule → List lib.Rule
  add_rule none rules = rules
  add_rule (some r) rules = r ∷ rules

  -- The loop over the lines.
  unfoldable pub rules_of : ℤ → lib.Location → ℤ → List String → List lib.Rule
  rules_of dtstart loc to [] = []
  rules_of dtstart loc to (line ∷ lines) =
      add_rule (rule_from (bounded dtstart loc to) (lib.parse_options line loc))
        (rules_of dtstart loc to lines)

  -- `none` is `ErrNoRule`.
  unfoldable pub expand : Series → ℤ → ℤ → Option (List ℤ)
  expand s from to =
      let loc = location s in
      let rules = rules_of s.start loc to s.rrule in
      let dates = parse_dates s.rdate loc in
      if is_empty s.rrule && is_empty s.rdate
      then none
      else if is_empty rules && is_empty dates
      then none
      else some (
          lib.between
            (record {
              start = s.start;
              rules = rules;
              dates = dates;
              excluded = parse_dates s.exdate loc;
            })
            from to)

  unfoldable pub decremented : lib.Options → lib.Options
  decremented opt =
      if ltb_ℤ (pos 0) (lib.count opt) then lib.with_count (lib.count opt -ℤ pos 1) opt else opt

  -- One line that `Advance` keeps: its rule, and its text with one occurrence less.
  abbrev pub kept_line : lib.Options → Option lib.Rule → Option (lib.Rule × String)
  kept_line opt none = none
  kept_line opt (some r) = some (r, lib.rule_text (decremented opt))

  abbrev pub line_of : ℤ → lib.Location → Option lib.Options → Option (lib.Rule × String)
  line_of dtstart loc none = none
  line_of dtstart loc (some opt) = kept_line opt (lib.new_rule (lib.with_dtstart dtstart loc opt))

  abbrev pub add_line :
      Option (lib.Rule × String) → List lib.Rule × List String → List lib.Rule × List String
  add_line none kept = kept
  add_line (some (r, text)) (rules, texts) = (r ∷ rules, text ∷ texts)

  unfoldable pub kept_lines : ℤ → lib.Location → List String → List lib.Rule × List String
  kept_lines dtstart loc [] = ([], [])
  kept_lines dtstart loc (line ∷ lines) =
      add_line (line_of dtstart loc (lib.parse_options line loc)) (kept_lines dtstart loc lines)

  -- The occurrence after the start, and the rules rebased onto it.
  unfoldable pub advance : Series → Option (ℤ × List String)
  advance s =
      let loc = location s in
      let kept = kept_lines s.start loc s.rrule in
      let next =
        lib.after
          (record {
            start = s.start;
            rules = kept.0;
            dates = [];
            excluded = parse_dates s.exdate loc;
          })
          s.start in
      if is_empty s.rrule
      then none
      else if is_empty kept.1
      then none
      else if is_zero next
      then none
      else some (next, kept.1)
