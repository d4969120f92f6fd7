-- ===== src/Repo/Keeps.antt =====
-- Invariants of the tables behind core/repo, carried through a chain of statements that may fail and
-- among which other processes may run.
use dankcalendar.Base.{String, List, [], ◌∷◌}
use dankcalendar.Repo.Store.{
  Result, ok, err, Tables, Incident, quiet, broken, meanwhile, World, M, ◌>>=◌, statement, continue,
  wrapping, wrap_error, query, update,
}

-- What another process does between two statements keeps the invariant too.
abbrev Safe {ℓ} : (Tables → Type ℓ) → Incident → Type ℓ
Safe P quiet = Unit
Safe P (broken text) = Unit
Safe P (meanwhile g) = (t : Tables) → P t → P (g t)

abbrev AllSafe {ℓ} : (Tables → Type ℓ) → List Incident → Type ℓ
AllSafe P [] = Unit
AllSafe P (i ∷ rest) = Safe P i × AllSafe P rest

pub record Sound {ℓ} (P : Tables → Type ℓ) (w : World) : Type ℓ where
  pub holds : P w.tables
  pub safe : AllSafe P w.incidents

abbrev pub Keeps {ℓ} : (Tables → Type ℓ) → {A : Type 0} → M A → Type ℓ
Keeps P m = (w : World) → Sound P w → Sound P (m w).1

statement-Sound {ℓ} :
    (P : Tables → Type ℓ) {A : Type 0} (f : Tables → Result A × Tables)
    → ((t : Tables) → P t → P (f t).1)
    → (is : List Incident) (t : Tables) → P t
    → AllSafe P is
    → Sound P (statement f is t).1
statement-Sound P f k [] t h s = record { holds = k t h; safe = tt }
statement-Sound P f k (quiet ∷ rest) t h s = record { holds = k t h; safe = s.1 }
statement-Sound P f k (broken text ∷ rest) t h s = record { holds = h; safe = s.1 }
statement-Sound P f k (meanwhile g ∷ rest) t h s = record { holds = k (g t) (s.0 t h); safe = s.1 }

continue-Sound {ℓ} :
    (P : Tables → Type ℓ) {A B : Type 0} (f : A → M B)
    → ((a : A) → Keeps P (f a))
    → (p : Result A × World) → Sound P p.1
    → Sound P (continue f p).1
continue-Sound P f h (ok a, w) s = h a w s
continue-Sound P f h (err e, w) s = s

wrapping-Sound {ℓ} :
    (P : Tables → Type ℓ) {A : Type 0} (text : String) (p : Result A × World)
    → Sound P p.1
    → Sound P (wrapping text p).1
wrapping-Sound P text (ok a, w) s = s
wrapping-Sound P text (err e, w) s = s

module _ {ℓ} (P : Tables → Type ℓ) where
  pub query-Keeps : {A : Type 0} (f : Tables → Result A) → Keeps P (query f)
  unfolding query
  query-Keeps f w s =
      statement-Sound P (λ t. (f t, t)) (λ t h. h) w.incidents w.tables s.holds s.safe

  pub update-Keeps :
      {A : Type 0} (f : Tables → Result A × Tables)
      → ((t : Tables) → P t → P (f t).1)
      → Keeps P (update f)
  unfolding update
  update-Keeps f k w s = statement-Sound P f k w.incidents w.tables s.holds s.safe

  pub bind-Keeps :
      {A B : Type 0} (m : M A) (f : A → M B)
      → Keeps P m
      → ((a : A) → Keeps P (f a))
      → Keeps P (m >>= f)
  bind-Keeps m f k h w s = continue-Sound P f h (m w) (k w s)

  pub wrap_error-Keeps :
      {A : Type 0} (text : String) (m : M A) → Keeps P m → Keeps P (wrap_error text m)
  wrap_error-Keeps text m k w s = wrapping-Sound P text (m w) (k w s)
