-- ===== src/Recurrence/Excluded.antt =====
-- That core/internal/recurrence/expand.go leaves out the dates that a series excludes.
use mathlib.Core.Logic.{ite}
use dankcalendar.Base.{
  ℤ, String, Bool, true, false, ◌||◌, List, [], ◌∷◌, ◌++◌, none, some, ◌==◌, contains, string_eq,
  nat_eq, int_eq, ℤ-discrete, ℕ_discrete, if◌then◌else◌, ◌≡◌, refl, sym, subst, inl, inr,
  Bool-cases, arith,
}
use dankcalendar.Recurrence.{
  RuleSet, Library, Series, location, parse_date_time, parse_items, parse_dates, expand,
}

-- `Set.Between` gives no date that is excluded.
pub record Excludes (lib : Library) : Type 0 where
  pub between-excluded :
      (s : RuleSet lib.Rule) (from to t : ℤ)
      → contains s.excluded t ≡ true
      → contains (lib.between s from to) t ≡ false

-- A text that is one item of a list, and that reads as a date or as a time of UTC.
pub record Reads (lib : Library) (all_day : Bool) (text : String) (t : ℤ) : Type 0 where
  pub alone : lib.split_commas text ≡ text ∷ []
  pub trimmed : lib.trim_space text ≡ text
  pub filled : (text == "") ≡ false
  pub timed :
      all_day ≡ false
      → (lib.has_suffix text "Z" ≡ true)
        × (lib.parse_in_location "20060102T150405Z" text lib.utc ≡ some t)
  pub dated :
      all_day ≡ true
      → (lib.has_suffix text "Z" ≡ false)
        × (lib.byte_length text ≡ 8)
        × (lib.parse_in_location "20060102" text lib.utc ≡ some t)

contains-right : (xs ys : List ℤ) (t : ℤ) → contains ys t ≡ true → contains (xs ++ ys) t ≡ true
contains-right [] ys t h = h
contains-right (x ∷ xs) ys t h = ground (arith, contains-right xs ys t h)

contains-left : (xs ys : List ℤ) (t : ℤ) → contains xs t ≡ true → contains (xs ++ ys) t ≡ true
contains-left [] ys t h = absurd (ground arith)
contains-left (x ∷ xs) ys t h = ground (arith, contains-left xs ys t)

contains-first : (t : ℤ) (ts : List ℤ) → contains (t ∷ ts) t ≡ true
unfolding int_eq
contains-first t ts = elim (ℤ-discrete t t) as (λ d. (ite d true false || contains ts t) ≡ true) [
  | yes e ↦ refl
  | no e ↦ absurd (e refl)
]

module _ (lib : Library) (s : Series lib) (text : String) (t : ℤ)
    (reads : Reads lib s.all_day text t) where
  location-all_day : s.all_day ≡ true → location lib s ≡ lib.utc
  unfolding location
  location-all_day e = rw e refl

  parse_date_time-text : parse_date_time lib text (location lib s) ≡ some t
  unfolding parse_date_time nat_eq ℕ_discrete
  parse_date_time-text = elim (Bool-cases s.all_day) [
    | inl e ↦
        let (suffix, length, read) = reads.dated e in rw (suffix, length, location-all_day e) read
    | inr e ↦ let (suffix, read) = reads.timed e in rw suffix read
  ]

  parse_items-text : contains (parse_items lib (text ∷ []) (location lib s)) t ≡ true
  unfolding parse_items
  parse_items-text = rw (reads.trimmed, reads.filled, parse_date_time-text) (contains-first t [])

  parse_dates-last :
      (values : List String)
      → contains (parse_dates lib (values ++ (text ∷ [])) (location lib s)) t ≡ true
  unfolding parse_dates
  parse_dates-last [] =
      rw reads.alone
        (contains-left (parse_items lib (text ∷ []) (location lib s)) [] t parse_items-text)
  parse_dates-last (v ∷ values) = contains-right _ _ t (parse_dates-last values)

past_empty :
    {A : Type 0} (a b : Bool) (x y : A)
    → (if a then none else if b then none else some x) ≡ some y
    → y ≡ x
past_empty true b x y h = absurd (ground arith)
past_empty false true x y h = absurd (ground arith)
past_empty false false x y h = ground arith

-- A series whose exclusions end with a text that reads as an instant does not occur at that instant.
pub expand-excluded :
    (lib : Library) (law : Excludes lib) (s : Series lib) (values : List String) (text : String)
    (t from to : ℤ) (starts : List ℤ)
    → s.exdate ≡ values ++ (text ∷ [])
    → Reads lib s.all_day text t
    → expand lib s from to ≡ some starts
    → contains starts t ≡ false
unfolding expand
expand-excluded lib law s values text t from to starts e reads h =
    let same = past_empty _ _ _ starts h in
    subst (λ xs. contains xs t ≡ false) (sym same)
      (law.between-excluded _ from to t (
        subst (λ xs. contains (parse_dates lib xs (location lib s)) t ≡ true) (sym e)
          (parse_dates-last lib s text t reads values)))
