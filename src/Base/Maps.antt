-- ===== src/Base/Maps.antt =====
-- Go's maps, as lists of entries with one entry for each key.
use mathlib.Core.Path.{◌≡◌, refl}
use mathlib.Core.Bool.{Bool}
use mathlib.Core.Option.{Option, none, some}
use mathlib.Core.List.{List, [], ◌∷◌}
use native.Mathlib.Omega.{arith}
use dankcalendar.Base.Test.{if◌then◌else◌, Eq, ◌==◌}

abbrev pub Dict {ℓ} : Type ℓ → Type ℓ → Type ℓ
Dict K A = List (K × A)

unfoldable pub lookup {ℓ} : {K A : Type ℓ} ⦃e : Eq K⦄ → K → Dict K A → Option A
lookup k [] = none
lookup k ((key, a) ∷ rest) = let later = lookup k rest in if key == k then some a else later

unfoldable pub put {ℓ} : {K A : Type ℓ} ⦃e : Eq K⦄ → K → A → Dict K A → Dict K A
put k a [] = (k, a) ∷ []
put k a ((key, b) ∷ rest) =
    let later = put k a rest in if key == k then (k, a) ∷ rest else (key, b) ∷ later

-- The entries whose key passes the test.
unfoldable pub keep {ℓ} : {K A : Type ℓ} → (K → Bool) → Dict K A → Dict K A
keep p [] = []
keep p ((key, a) ∷ rest) = let later = keep p rest in if p key then (key, a) ∷ later else later

module _ {ℓ} {K A : Type ℓ} ⦃e : Eq K⦄ where
  pub lookup-put :
      (k : K) (a : A) (k' : K) (d : Dict K A)
      → lookup k' (put k a d) ≡ (if k == k' then some a else lookup k' d)
  unfolding lookup put
  lookup-put k a k' [] = refl
  lookup-put k a k' ((key, b) ∷ rest) = ground (arith, lookup-put k a k' rest)

  pub lookup-keep :
      (p : K → Bool) (k : K) (d : Dict K A)
      → lookup k (keep p d) ≡ (if p k then lookup k d else none)
  unfolding lookup keep
  lookup-keep p k [] = ground arith
  lookup-keep p k ((key, b) ∷ rest) = ground (arith, lookup-keep p k rest)
