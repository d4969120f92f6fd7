-- ===== src/Ipc/Effects.antt =====
-- What goes out while a request of core/internal/ipc is handled.
use dankcalendar.Base.{
  ℕ, suc, ◌+◌, ◌≤◌, Bool, true, false, not, ◌&&◌, ◌||◌, List, [], ◌∷◌, ◌++◌, ◌≡◌, refl, arith,
}
use dankcalendar.Repo.Store.{Result, ok, err}
use dankcalendar.Ipc.Handler.{Effect, called, published, resync, Outcome}

abbrev pub publishes : List Effect → Bool
publishes [] = false
publishes (published topic type calendar_id ∷ es) = true
publishes (called c call ∷ es) = publishes es
publishes (resync account_id ∷ es) = publishes es

abbrev pub calls : List Effect → ℕ
calls [] = 0
calls (called c call ∷ es) = suc (calls es)
calls (published topic type calendar_id ∷ es) = calls es
calls (resync account_id ∷ es) = calls es

-- Every call is for a calendar that may be written.
abbrev pub all_writable : List Effect → Bool
all_writable [] = true
all_writable (called c call ∷ es) = not c.read_only && all_writable es
all_writable (published topic type calendar_id ∷ es) = all_writable es
all_writable (resync account_id ∷ es) = all_writable es

abbrev pub succeeds : {A : Type 0} → Result A → Bool
succeeds (ok a) = true
succeeds (err e) = false

-- A change is published exactly if the response is no error; the provider is called at most once, and
-- not for a calendar that is read-only.
pub record Proper {A : Type 0} (o : Outcome A) : Type 0 where
  pub announced : publishes o.effects ≡ succeeds o.result
  pub once : calls o.effects ≤ 1
  pub guarded : all_writable o.effects ≡ true

-- What comes before the call: nothing goes out, and what it gives has a property.
pub record Silent {A : Type 0} (Q : A → Type 0) (o : Outcome A) : Type 0 where
  pub effects_none : o.effects ≡ []
  pub gives : (a : A) → o.result ≡ ok a → Q a

-- What comes after it.
pub record Announced {A : Type 0} (o : Outcome A) : Type 0 where
  pub announced : publishes o.effects ≡ succeeds o.result
  pub uncalled : calls o.effects ≡ 0

pub publishes-++ : (xs ys : List Effect) → publishes (xs ++ ys) ≡ (publishes xs || publishes ys)
publishes-++ [] ys = refl
publishes-++ (published topic type calendar_id ∷ xs) ys = refl
publishes-++ (called c call ∷ xs) ys = publishes-++ xs ys
publishes-++ (resync account_id ∷ xs) ys = publishes-++ xs ys

pub calls-++ : (xs ys : List Effect) → calls (xs ++ ys) ≡ calls xs + calls ys
calls-++ [] ys = ground arith
calls-++ (called c call ∷ xs) ys = ground (arith, calls-++ xs ys)
calls-++ (published topic type calendar_id ∷ xs) ys = calls-++ xs ys
calls-++ (resync account_id ∷ xs) ys = calls-++ xs ys

pub all_writable-uncalled : (es : List Effect) → calls es ≡ 0 → all_writable es ≡ true
all_writable-uncalled [] h = refl
all_writable-uncalled (called c call ∷ es) h = absurd (ground arith)
all_writable-uncalled (published topic type calendar_id ∷ es) h = all_writable-uncalled es h
all_writable-uncalled (resync account_id ∷ es) h = all_writable-uncalled es h

pub Announced-Proper : {A : Type 0} {o : Outcome A} → Announced o → Proper o
Announced-Proper {A} {o} a = record {
  announced = a.announced;
  once = rw a.uncalled (omega arith);
  guarded = all_writable-uncalled o.effects a.uncalled;
}
