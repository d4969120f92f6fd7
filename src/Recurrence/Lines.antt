-- ===== src/Recurrence/Lines.antt =====
-- The lines of a recurring series, in core/internal/recurrence: which of them count, and what
-- `Advance` makes of them.
use mathlib.Core.List.Memᴰ
use dankcalendar.Base.{
  ℤ, String, Bool, true, false, ◌&&◌, List, [], ◌∷◌, is_empty, Memᴰ, Option, none, some, string_eq,
  int_eq, if◌then◌else◌, ◌≡◌, refl, sym, ap, ◌∙◌, ◌↔◌, ◌≢◌, ◌⊎◌, inl, inr, arith,
}
use dankcalendar.Calendar.Types.{is_zero}
use dankcalendar.Repo.Events.{select}
use dankcalendar.Recurrence.{
  Library, RuleSet, Series, location, parse_dates, bounded, rule_from, add_rule, rules_of, expand,
  decremented, kept_line, line_of, add_line, kept_lines, advance,
}

module _ (lib : Library) where
  -- A line of RRULE that gives a rule.
  abbrev is_rule : Option lib.Rule → Bool
  is_rule none = false
  is_rule (some r) = true

  abbrev readable : ℤ → lib.Location → ℤ → String → Bool
  readable dtstart loc to line =
      is_rule (rule_from lib (bounded lib dtstart loc to) (lib.parse_options line loc))

  rules_of-cons :
      (o : Option lib.Rule) (line : String) (lines good : List String) (dtstart : ℤ)
      (loc : lib.Location) (to : ℤ)
      → rule_from lib (bounded lib dtstart loc to) (lib.parse_options line loc) ≡ o
      → rules_of lib dtstart loc to good ≡ rules_of lib dtstart loc to lines
      → rules_of lib dtstart loc to (if is_rule o then line ∷ good else good)
        ≡ add_rule lib o (rules_of lib dtstart loc to lines)
  unfolding rules_of
  rules_of-cons none line lines good dtstart loc to e h = h
  rules_of-cons (some r) line lines good dtstart loc to e h = rw e (ap (λ rs. r ∷ rs) h)

  rules_of-readable :
      (dtstart : ℤ) (loc : lib.Location) (to : ℤ) (lines : List String)
      → rules_of lib dtstart loc to (select (readable dtstart loc to) lines)
        ≡ rules_of lib dtstart loc to lines
  unfolding rules_of select
  rules_of-readable dtstart loc to [] = refl
  rules_of-readable dtstart loc to (line ∷ lines) =
      rules_of-cons (rule_from lib (bounded lib dtstart loc to) (lib.parse_options line loc)) line
        lines (select (readable dtstart loc to) lines) dtstart loc to refl
        (rules_of-readable dtstart loc to lines)

  abbrev set_of : Series lib → ℤ → List lib.Rule → RuleSet lib.Rule
  set_of s to rules = record {
    start = s.start;
    rules = rules;
    dates = parse_dates lib s.rdate (location lib s);
    excluded = parse_dates lib s.exdate (location lib s);
  }

  abbrev answer : Series lib → ℤ → ℤ → List lib.Rule → Option (List ℤ)
  answer s from to rules =
      if is_empty rules && is_empty (parse_dates lib s.rdate (location lib s))
      then none
      else some (lib.between (set_of s to rules) from to)

  -- The first test of `Expand` is one case of the second.
  expand_lem :
      (s : Series lib) (from to : ℤ)
      → expand lib s from to ≡ answer s from to (rules_of lib s.start (location lib s) to s.rrule)
  unfolding expand rules_of parse_dates
  expand_lem s from to = go s.rrule s.rdate refl refl
    where
      go :
          (lines dates : List String)
          → s.rrule ≡ lines
          → s.rdate ≡ dates
          → expand lib s from to
            ≡ answer s from to (rules_of lib s.start (location lib s) to s.rrule)
      go [] [] a b = rw a (rw b refl)
      go [] (d ∷ ds) a b = rw a (rw b refl)
      go (l ∷ ls) ds a b = rw a refl

  abbrev pub only_readable : Series lib → ℤ → Series lib
  only_readable s to = record s { rrule = select (readable s.start (location lib s) to) s.rrule }

  -- The expansion of a series does not change if the lines of RRULE that give no rule are taken out: the
  -- start, the window, the further dates and the exceptions are as before, and a series of which no
  -- line and no date is left fails in both cases.
  pub expand_readable :
      (s : Series lib) (from to : ℤ)
      → expand lib (only_readable s to) from to ≡ expand lib s from to
  unfolding location
  expand_readable s from to =
      expand_lem (only_readable s to) from to
      ∙ ap (answer s from to) (rules_of-readable s.start (location lib s) to s.rrule)
      ∙ sym (expand_lem s from to)

  -- A line that `Advance` keeps, and the text that it makes of it.
  pub record Kept (s : Series lib) (text : String) : Type 0 where
    pub line : String
    pub options : lib.Options
    pub rule : lib.Rule
    pub stored : Memᴰ line s.rrule
    pub parsed : lib.parse_options line (location lib s) ≡ some options
    pub built : lib.new_rule (lib.with_dtstart s.start (location lib s) options) ≡ some rule
    pub written : text ≡ lib.rule_text (decremented lib options)

  abbrev kept_from : Series lib → List String → List lib.Rule × List String
  kept_from s lines = kept_lines lib s.start (location lib s) lines

  abbrev made : Series lib → String → lib.Options → Option (lib.Rule × String)
  made s line opt = kept_line lib opt (lib.new_rule (lib.with_dtstart s.start (location lib s) opt))

  Kept-add :
      (s : Series lib) (line text : String) (o : Option lib.Options) (lines : List String)
      → Memᴰ line s.rrule
      → lib.parse_options line (location lib s) ≡ o
      → Memᴰ text (add_line lib (line_of lib s.start (location lib s) o) (kept_from s lines)).1
      → Kept s text ⊎ Memᴰ text (kept_from s lines).1
  Kept-add s line text none lines m e k = inr k
  Kept-add s line text (some opt) lines m e k =
      built (lib.new_rule (lib.with_dtstart s.start (location lib s) opt)) refl k
    where
      built :
          (o : Option lib.Rule)
          → lib.new_rule (lib.with_dtstart s.start (location lib s) opt) ≡ o
          → Memᴰ text (add_line lib (kept_line lib opt o) (kept_from s lines)).1
          → Kept s text ⊎ Memᴰ text (kept_from s lines).1
      built none b i = inr i
      built (some r) b i = elim (Memᴰ.cases_cons i) [
        | inl q ↦ inl (record {
          line = line;
          options = opt;
          rule = r;
          stored = m;
          parsed = e;
          built = b;
          written = q;
        })
        | inr j ↦ inr j
      ]

  Kept-of :
      (s : Series lib) (text : String) (lines : List String)
      → ((line : String) → Memᴰ line lines → Memᴰ line s.rrule)
      → Memᴰ text (kept_from s lines).1
      → Kept s text
  unfolding kept_lines
  Kept-of s text [] within k = absurd (Memᴰ.not-nil k)
  Kept-of s text (line ∷ lines) within k =
      elim (Kept-add s line text (lib.parse_options line (location lib s)) lines
        (within line (Memᴰ.head refl)) refl k) [
          | inl kept ↦ kept
          | inr i ↦ Kept-of s text lines (λ l m. within l (Memᴰ.tail m)) i
        ]

  kept_of :
      (s : Series lib) (text : String) (h : Kept s text) (lines : List String)
      → Memᴰ h.line lines
      → Memᴰ text (kept_from s lines).1
  unfolding kept_lines
  kept_of s text h [] m = absurd (Memᴰ.not-nil m)
  kept_of s text h (line ∷ lines) m = elim (Memᴰ.cases_cons m) [
    | inl e ↦ rw (sym e) (rw h.parsed (rw h.built (Memᴰ.head h.written)))
    | inr i ↦
        let later = kept_of s text h lines i in
        elim (line_of lib s.start (location lib s) (lib.parse_options line (location lib s)))
          as (λ o. Memᴰ text (add_line lib o (kept_from s lines)).1) [
            | none ↦ later
            | some pair ↦ Memᴰ.tail later
          ]
  ]

  advance-some :
      (s : Series lib) (next : ℤ) (rules : List String)
      → advance lib s ≡ some (next, rules)
      → (is_empty rules ≡ false) × (is_zero next ≡ false) × (rules ≡ (kept_from s s.rrule).1)
  unfolding advance
  advance-some s next rules e = ground arith

  pub advance_rules :
      (s : Series lib) (next : ℤ) (rules : List String)
      → advance lib s ≡ some (next, rules)
      → (rules ≢ []) × (is_zero next ≡ false) × ((text : String) → Memᴰ text rules ↔ Kept s text)
  advance_rules s next rules e =
      let (some_rule, later, same) = advance-some s next rules e in
      (
        λ q. ground (arith, q),
        later,
        λ text.
            rw same
              (λ k. Kept-of s text s.rrule (λ l m. m) k, λ h. kept_of s text h s.rrule h.stored),
      )
