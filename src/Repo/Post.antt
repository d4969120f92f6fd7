-- ===== src/Repo/Post.antt =====
-- Postconditions of a chain of statements of core/repo while no other process writes: what holds of
-- the tables if the chain succeeds. A statement that fails ends the chain with an error.
use dankcalendar.Base.{String, List, [], ◌∷◌, ◌≡◌, refl, ap}
use dankcalendar.Repo.Store.{
  Error, database, Result, ok, err, Tables, Incident, quiet, broken, meanwhile, World, M, ◌>>=◌,
  attempt, wrap_error, query, update, statement, continue, wrapping,
}

abbrev pub Calm : List Incident → Type 0
Calm [] = Unit
Calm (quiet ∷ rest) = Calm rest
Calm (broken text ∷ rest) = Calm rest
Calm (meanwhile g ∷ rest) = ⊥

abbrev value_or : {A : Type 0} → A → Result A → A
value_or a (ok x) = x
value_or a (err e) = a

pub ok-inj : {A : Type 0} (x y : A) → ok x ≡ ok y → x ≡ y
ok-inj x y h = ap (value_or x) h

-- A world without failures and without other processes.
abbrev pub still : Tables → World
still t = record { tables = t; incidents = [] }

-- What holds of a result and the tables, by the two cases of the result.
abbrev pub Either {ℓ} :
    {A : Type 0} → (A → Tables → Type ℓ) → (Error → Tables → Type ℓ) → Result A → Tables → Type ℓ
Either Q E (ok a) t = Q a t
Either Q E (err e) t = E e t

-- `Q` of a result and the tables, `E` of an error and the tables.
abbrev pub Post {ℓ} :
    {A : Type 0} → (A → Tables → Type ℓ) → (Error → Tables → Type ℓ) → Result A × World → Type ℓ
Post Q E (ok a, w) = Calm w.incidents × Q a w.tables
Post Q E (err e, w) = Calm w.incidents × E e w.tables

abbrev pub Triple {ℓ} :
    {A : Type 0}
    → (Tables → Type ℓ)
    → M A
    → (A → Tables → Type ℓ)
    → (Error → Tables → Type ℓ)
    → Type ℓ
Triple P m Q E = (w : World) → Calm w.incidents → P w.tables → Post Q E (m w)

abbrev pub Any {ℓ} : Error → Tables → Type ℓ
Any e t = Unit

run-Post {ℓ} :
    {A : Type 0} (Q : A → Tables → Type ℓ) (E : Error → Tables → Type ℓ) (r : Result A) (t : Tables)
    (rest : List Incident)
    → Calm rest
    → ((a : A) → r ≡ ok a → Q a t)
    → ((e : Error) → r ≡ err e → E e t)
    → Post Q E (r, record { tables = t; incidents = rest })
run-Post Q E (ok a) t rest c q e = (c, q a refl)
run-Post Q E (err x) t rest c q e = (c, e x refl)

statement-Post {ℓ} :
    {A : Type 0} (Q : A → Tables → Type ℓ) (E : Error → Tables → Type ℓ)
    (f : Tables → Result A × Tables) (is : List Incident) (t : Tables)
    → Calm is
    → ((a : A) → (f t).0 ≡ ok a → Q a (f t).1)
    → ((e : Error) → (f t).0 ≡ err e → E e (f t).1)
    → ((text : String) → E (database text) t)
    → Post Q E (statement f is t)
statement-Post Q E f [] t c q e b = run-Post Q E (f t).0 (f t).1 [] tt q e
statement-Post Q E f (quiet ∷ rest) t c q e b = run-Post Q E (f t).0 (f t).1 rest c q e
statement-Post Q E f (broken text ∷ rest) t c q e b = (c, b text)
statement-Post Q E f (meanwhile g ∷ rest) t c q e b = absurd c

continue-Post {ℓ} :
    {A B : Type 0} (Q : A → Tables → Type ℓ) (R : B → Tables → Type ℓ) (E : Error → Tables → Type ℓ)
    (f : A → M B)
    → ((a : A) → Triple (Q a) (f a) R E)
    → (p : Result A × World) → Post Q E p
    → Post R E (continue f p)
continue-Post Q R E f k (ok a, w) (c, q) = k a w c q
continue-Post Q R E f k (err e, w) h = h

wrapping-Post {ℓ} :
    {A : Type 0} (Q : A → Tables → Type ℓ) (text : String) (p : Result A × World)
    → Post Q Any p
    → Post Q Any (wrapping text p)
wrapping-Post Q text (ok a, w) h = h
wrapping-Post Q text (err e, w) h = h

attempt-Post {ℓ} :
    {A : Type 0} (Q : A → Tables → Type ℓ) (E F : Error → Tables → Type ℓ) (p : Result A × World)
    → Post Q E p
    → Post (Either Q E) F (ok p.0, p.1)
attempt-Post Q E F (ok a, w) h = h
attempt-Post Q E F (err e, w) h = h

module _ {ℓ} {A : Type 0} (P : Tables → Type ℓ) (Q : A → Tables → Type ℓ)
    (E : Error → Tables → Type ℓ) where
  -- A statement that fails leaves the tables as they were.
  pub update-Triple :
      (f : Tables → Result A × Tables)
      → ((t : Tables) (a : A) → P t → (f t).0 ≡ ok a → Q a (f t).1)
      → ((t : Tables) (e : Error) → P t → (f t).0 ≡ err e → E e (f t).1)
      → ((t : Tables) (text : String) → P t → E (database text) t)
      → Triple P (update f) Q E
  unfolding update
  update-Triple f q e b w c h =
      statement-Post Q E f w.incidents w.tables c (λ a x. q w.tables a h x)
        (λ y x. e w.tables y h x) (λ text. b w.tables text h)

  pub query-Triple :
      (f : Tables → Result A)
      → ((t : Tables) (a : A) → P t → f t ≡ ok a → Q a t)
      → ((t : Tables) (e : Error) → P t → E e t)
      → Triple P (query f) Q E
  unfolding query
  query-Triple f q e w c h =
      statement-Post Q E (λ t. (f t, t)) w.incidents w.tables c (λ a x. q w.tables a h x)
        (λ y x. e w.tables y h) (λ text. e w.tables _ h)

  pub attempt-Triple :
      (F : Error → Tables → Type ℓ) (m : M A) → Triple P m Q E → Triple P (attempt m) (Either Q E) F
  attempt-Triple F m k w c h = attempt-Post Q E F (m w) (k w c h)

  pub bind-Triple :
      {B : Type 0} (R : B → Tables → Type ℓ) (m : M A) (f : A → M B)
      → Triple P m Q E
      → ((a : A) → Triple (Q a) (f a) R E)
      → Triple P (m >>= f) R E
  bind-Triple R m f k h w c p = continue-Post Q R E f h (m w) (k w c p)

  pub wrap_error-Triple :
      (text : String) (m : M A) → Triple P m Q Any → Triple P (wrap_error text m) Q Any
  wrap_error-Triple text m k w c h = wrapping-Post Q text (m w) (k w c h)
