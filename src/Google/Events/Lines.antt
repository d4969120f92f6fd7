-- ===== src/Google/Events/Lines.antt =====
-- The recurrence lines that core/internal/providers/google/provider.go sends to Google, and reads back.
use Prim.Native.String as Text
use dankcalendar.Base.{
  String, List, [], ◌∷◌, ◌++◌, ++-nil, map, none, some, ◌≡◌, refl, sym, ap, ◌∙◌, string_eq,
}
use dankcalendar.Calendar.Types.{Recurrence}
use dankcalendar.Calendar.Convert.{recurrence_or_none}
use dankcalendar.Google.Events.{Env, add_value, add_cut, lines_of, from_google_recurrence}

unfoldable pub to_rrule : String → String
to_rrule r = Text.◌++◌ "RRULE:" r

unfoldable pub to_rdate : String → String
to_rdate r = Text.◌++◌ "RDATE:" r

unfoldable pub to_exdate : String → String
to_exdate r = Text.◌++◌ "EXDATE:" r

-- The loops of `toGoogleEvent` over the recurrence.
unfoldable pub to_google_recurrence : Recurrence → List String
to_google_recurrence r = map to_rrule r.rrule ++ (map to_rdate r.rdate ++ map to_exdate r.exdate)

-- What `strings.Cut` and `strings.ToUpper` do to the lines that the code writes; a value without a
-- zone is left as it is by `normalizeDateValues`.
pub record CutsLines (env : Env) : Type 0 where
  pub rrule : (v : String) → env.cut (Text.◌++◌ "RRULE:" v) ":" ≡ some ("RRULE", v)
  pub rdate : (v : String) → env.cut (Text.◌++◌ "RDATE:" v) ":" ≡ some ("RDATE", v)
  pub exdate : (v : String) → env.cut (Text.◌++◌ "EXDATE:" v) ":" ≡ some ("EXDATE", v)
  pub plain_rrule : env.cut "RRULE" ";" ≡ none
  pub plain_rdate : env.cut "RDATE" ";" ≡ none
  pub plain_exdate : env.cut "EXDATE" ";" ≡ none
  pub upper_rrule : env.to_upper "RRULE" ≡ "RRULE"
  pub upper_rdate : env.to_upper "RDATE" ≡ "RDATE"
  pub upper_exdate : env.to_upper "EXDATE" ≡ "EXDATE"
  pub no_zone : (v : String) → env.normalize_date_values "" v ≡ v

module _ (env : Env) (law : CutsLines env) where
  rrule_line :
      (v : String) (rec : Recurrence)
      → add_cut env (env.cut (to_rrule v) ":") rec ≡ record rec { rrule = v ∷ rec.rrule }
  unfolding to_rrule add_value string_eq
  rrule_line v rec = rw (law.rrule v) (rw law.plain_rrule (rw law.upper_rrule refl))

  rdate_line :
      (v : String) (rec : Recurrence)
      → add_cut env (env.cut (to_rdate v) ":") rec ≡ record rec { rdate = v ∷ rec.rdate }
  unfolding to_rdate add_value string_eq
  rdate_line v rec =
      rw (law.rdate v) (rw law.plain_rdate (rw law.upper_rdate (rw (law.no_zone v) refl)))

  exdate_line :
      (v : String) (rec : Recurrence)
      → add_cut env (env.cut (to_exdate v) ":") rec ≡ record rec { exdate = v ∷ rec.exdate }
  unfolding to_exdate add_value string_eq
  exdate_line v rec =
      rw (law.exdate v) (rw law.plain_exdate (rw law.upper_exdate (rw (law.no_zone v) refl)))

  rrules_through :
      (vs : List String) (lines : List String)
      → lines_of env (map to_rrule vs ++ lines)
        ≡ record (lines_of env lines) { rrule = vs ++ (lines_of env lines).rrule }
  unfolding lines_of
  rrules_through [] lines = refl
  rrules_through (v ∷ vs) lines =
      rrule_line v (lines_of env (map to_rrule vs ++ lines))
      ∙ ap (λ (r : Recurrence). record r { rrule = v ∷ r.rrule }) (rrules_through vs lines)

  rdates_through :
      (vs : List String) (lines : List String)
      → lines_of env (map to_rdate vs ++ lines)
        ≡ record (lines_of env lines) { rdate = vs ++ (lines_of env lines).rdate }
  unfolding lines_of
  rdates_through [] lines = refl
  rdates_through (v ∷ vs) lines =
      rdate_line v (lines_of env (map to_rdate vs ++ lines))
      ∙ ap (λ (r : Recurrence). record r { rdate = v ∷ r.rdate }) (rdates_through vs lines)

  exdates_through :
      (vs : List String) (lines : List String)
      → lines_of env (map to_exdate vs ++ lines)
        ≡ record (lines_of env lines) { exdate = vs ++ (lines_of env lines).exdate }
  unfolding lines_of
  exdates_through [] lines = refl
  exdates_through (v ∷ vs) lines =
      exdate_line v (lines_of env (map to_exdate vs ++ lines))
      ∙ ap (λ (r : Recurrence). record r { exdate = v ∷ r.exdate }) (exdates_through vs lines)

  all_through : (r : Recurrence) → lines_of env (to_google_recurrence r) ≡ r
  unfolding to_google_recurrence lines_of
  all_through r =
      rrules_through r.rrule _
      ∙ ap (λ (x : Recurrence). record x { rrule = r.rrule ++ x.rrule })
          (rdates_through r.rdate _
            ∙ ap (λ (x : Recurrence). record x { rdate = r.rdate ++ x.rdate })
                (ap (lines_of env) (sym (++-nil (map to_exdate r.exdate)))
                  ∙ exdates_through r.exdate []))
      ∙ (λ i. record {
        rrule = ++-nil r.rrule i;
        rdate = ++-nil r.rdate i;
        exdate = ++-nil r.exdate i;
      })

  from_lines :
      (r : Recurrence) (lines : List String)
      → lines_of env lines ≡ r
      → from_google_recurrence env lines ≡ recurrence_or_none r
  unfolding from_google_recurrence lines_of
  from_lines r [] e = rw (sym e) refl
  from_lines r (l ∷ ls) e = rw e refl

  -- The recurrence that is read from the lines sent to Google is the one that was sent, and none where
  -- it has no value, if `strings.Cut` and `strings.ToUpper` treat those lines as documented.
  pub recurrence_lines_round_trip :
      (r : Recurrence) → from_google_recurrence env (to_google_recurrence r) ≡ recurrence_or_none r
  recurrence_lines_round_trip r = from_lines r (to_google_recurrence r) (all_through r)
