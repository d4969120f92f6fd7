-- ===== src/Base/Lists.antt =====
-- Lists under native indices, and membership as evidence.
use Prim.Native.Nat.{ℕ, zero, suc, ◌+◌, ◌≤◌}
use mathlib.Core.Path.{◌≡◌, refl, sym, ap, ◌∙◌}
use mathlib.Core.Logic.{◌⊎◌, inl, inr}
use mathlib.Core.Bool.{Bool, true, false}
use mathlib.Core.List.{List, [], ◌∷◌, ◌++◌, map, Memᴰ, Permᴰ}
use mathlib.Core.List.Memᴰ
use native.Mathlib.Omega.{arith}
use native.Mathlib.Numerals.{unary_clauses}
use dankcalendar.Base.Test.{Eq, contains}

pub ++-nil {ℓ} : {A : Type ℓ} (xs : List A) → xs ++ [] ≡ xs
++-nil [] = refl
++-nil (x ∷ xs) = ap (◌∷◌ x) (++-nil xs)

pub ++-assoc {ℓ} : {A : Type ℓ} (xs ys zs : List A) → (xs ++ ys) ++ zs ≡ xs ++ (ys ++ zs)
++-assoc [] ys zs = refl
++-assoc (x ∷ xs) ys zs = ap (◌∷◌ x) (++-assoc xs ys zs)

module _ {ℓ} {A : Type ℓ} where
  abbrev pub length : List A → ℕ
  length [] = 0
  length (_ ∷ xs) = suc (length xs)

  abbrev pub is_empty : List A → Bool
  is_empty [] = true
  is_empty (_ ∷ _) = false

  abbrev pub take : ℕ → List A → List A
  take zero xs = []
  take (suc n) [] = []
  take (suc n) (x ∷ xs) = x ∷ take n xs

  abbrev pub drop : ℕ → List A → List A
  drop zero xs = xs
  drop (suc n) [] = []
  drop (suc n) (x ∷ xs) = drop n xs

  pub take-add : (n m : ℕ) (xs : List A) → take (n + m) xs ≡ take n xs ++ take m (drop n xs)
  take-add zero m xs = ap (λ k. take k xs) (omega arith)
  take-add (suc n) zero [] = simp unary_clauses refl
  take-add (suc n) (suc m) [] = simp unary_clauses refl
  take-add (suc n) m (x ∷ xs) =
      let e : suc n + m ≡ suc (n + m) = omega arith in
      ap (λ k. take k (x ∷ xs)) e ∙ ap (λ ys. x ∷ ys) (take-add n m xs)

  pub drop-all : (n : ℕ) (xs : List A) → length xs ≤ n → drop n xs ≡ []
  drop-all zero [] h = refl
  drop-all zero (x ∷ xs) h = absurd (omega arith)
  drop-all (suc n) [] h = refl
  drop-all (suc n) (x ∷ xs) h = drop-all n xs (omega arith)

  pub take-all : (n : ℕ) (xs : List A) → length xs ≤ n → take n xs ≡ xs
  take-all zero [] h = refl
  take-all zero (x ∷ xs) h = absurd (omega arith)
  take-all (suc n) [] h = refl
  take-all (suc n) (x ∷ xs) h = ap (λ ys. x ∷ ys) (take-all n xs (omega arith))

  pub drop-add : (n m : ℕ) (xs : List A) → drop (n + m) xs ≡ drop m (drop n xs)
  drop-add zero m xs = ap (λ k. drop k xs) (omega arith)
  drop-add (suc n) zero [] = simp unary_clauses refl
  drop-add (suc n) (suc m) [] = simp unary_clauses refl
  drop-add (suc n) m (x ∷ xs) =
      let e : suc n + m ≡ suc (n + m) = omega arith in ap (λ k. drop k (x ∷ xs)) e ∙ drop-add n m xs

  pub Memᴰ-perm : {a : A} {xs ys : List A} → Permᴰ xs ys → Memᴰ a xs → Memᴰ a ys
  Memᴰ-perm Permᴰ.nil m = m
  Memᴰ-perm (Permᴰ.cons e d) m = elim (Memᴰ.cases_cons m) [
    | inl p ↦ Memᴰ.cast p (Memᴰ.head e)
    | inr r ↦ Memᴰ.tail (Memᴰ-perm d r)
  ]
  Memᴰ-perm (Permᴰ.swap e f) m = elim (Memᴰ.cases_cons m) [
    | inl p ↦ Memᴰ.tail (Memᴰ.cast p (Memᴰ.head e))
    | inr r ↦ elim (Memᴰ.cases_cons r) [
      | inl p ↦ Memᴰ.cast p (Memᴰ.head f)
      | inr s ↦ Memᴰ.tail (Memᴰ.tail s)
    ]
  ]
  Memᴰ-perm (Permᴰ.trans d e) m = Memᴰ-perm e (Memᴰ-perm d m)

  pub Memᴰ-cons : {a x : A} {xs : List A} → (a ≡ x) ⊎ Memᴰ a xs → Memᴰ a (x ∷ xs)
  Memᴰ-cons (inl e) = Memᴰ.head e
  Memᴰ-cons (inr m) = Memᴰ.tail m

module _ {ℓ κ} {A : Type ℓ} {B : Type κ} (f : A → B) where
  pub Memᴰ-map : {a : A} {xs : List A} → Memᴰ a xs → Memᴰ (f a) (map f xs)
  Memᴰ-map (Memᴰ.head e) = Memᴰ.head (ap f e)
  Memᴰ-map (Memᴰ.tail m) = Memᴰ.tail (Memᴰ-map m)

  pub Memᴰ-of_map : {b : B} (xs : List A) → Memᴰ b (map f xs) → (a : A) × Memᴰ a xs × (b ≡ f a)
  Memᴰ-of_map [] m = absurd (Memᴰ.not-nil m)
  Memᴰ-of_map (x ∷ xs) m = elim (Memᴰ.cases_cons m) [
    | inl e ↦ (x, Memᴰ.head refl, e)
    | inr r ↦ let (a, k, e) = Memᴰ-of_map xs r in (a, Memᴰ.tail k, e)
  ]

module _ {ℓ} {A : Type ℓ} ⦃e : Eq A⦄ where
  pub contains-Memᴰ : (xs : List A) (k : A) → contains xs k ≡ true → Memᴰ k xs
  contains-Memᴰ [] k h = absurd (ground arith)
  contains-Memᴰ (x ∷ xs) k h = elim (e.dec x k) [
    | yes p ↦ Memᴰ.head (sym p)
    | no p ↦ Memᴰ.tail (contains-Memᴰ xs k (ground arith))
  ]

  pub Memᴰ-contains : (xs : List A) (k : A) → Memᴰ k xs → contains xs k ≡ true
  Memᴰ-contains [] k m = absurd (Memᴰ.not-nil m)
  Memᴰ-contains (x ∷ xs) k m = elim (Memᴰ.cases_cons m) [
    | inl p ↦ ground arith
    | inr r ↦ ground (arith, Memᴰ-contains xs k r)
  ]
