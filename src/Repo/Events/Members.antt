-- ===== src/Repo/Events/Members.antt =====
-- Membership in the rows that a statement of core/repo selects.
use mathlib.Core.List.Memᴰ
use dankcalendar.Base.{Bool, true, List, [], ◌∷◌, Memᴰ, ◌≡◌, sym, ap, ◌∙◌, inl, inr, Bool-cases}
use dankcalendar.Repo.Events.{select}

module _ {ℓ} {A : Type ℓ} (p : A → Bool) where
  pub Memᴰ-select : {a : A} {xs : List A} → p a ≡ true → Memᴰ a xs → Memᴰ a (select p xs)
  unfolding select
  Memᴰ-select {a} h (Memᴰ.head {x} {xs} e) = rw (sym (ap p e) ∙ h) (Memᴰ.head e)
  Memᴰ-select {a} h (Memᴰ.tail {x} {xs} m) = elim (Bool-cases (p x)) [
    | inl e ↦ rw e (Memᴰ.tail (Memᴰ-select h m))
    | inr e ↦ rw e (Memᴰ-select h m)
  ]

  pub Memᴰ-of_select : {a : A} (xs : List A) → Memᴰ a (select p xs) → Memᴰ a xs × (p a ≡ true)
  unfolding select
  Memᴰ-of_select [] m = absurd (Memᴰ.not-nil m)
  Memᴰ-of_select (x ∷ xs) m = elim (Bool-cases (p x)) [
    | inl e ↦ elim (Memᴰ.cases_cons (rw e at m)) [
      | inl q ↦ (Memᴰ.head q, ap p q ∙ e)
      | inr r ↦ let (k, h) = Memᴰ-of_select xs r in (Memᴰ.tail k, h)
    ]
    | inr e ↦ let (k, h) = Memᴰ-of_select xs (rw e at m) in (Memᴰ.tail k, h)
  ]
