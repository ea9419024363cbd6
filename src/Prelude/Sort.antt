-- ===== src/Prelude/Sort.antt =====
-- A stable sort, as `Array.prototype.sort` is with a comparison: `le x y` is that `x` does not come after
-- `y`.
use mathlib.Core.Path.{◌≡◌}
use mathlib.Core.Logic.{inl, inr}
use mathlib.Core.Bool.{Bool, true, false}
use mathlib.Core.List.{List, [], ◌∷◌, Perm}
use mathlib.Core.List.Perm
use openers_performance_dash.Prelude.Tests.{if◌then◌else◌, Bool-cases}
use openers_performance_dash.Prelude.Lists.{All}

module _ {A : Type 0} where
  abbrev insert : (A → A → Bool) → A → List A → List A
  insert le x [] = x ∷ []
  insert le x (y ∷ ys) = let rest = insert le x ys in if le x y then x ∷ y ∷ ys else y ∷ rest

  unfoldable pub sort : (A → A → Bool) → List A → List A
  sort le [] = []
  sort le (x ∷ xs) = insert le x (sort le xs)

  -- No element comes after a later one.
  abbrev pub IsSorted : (A → A → Bool) → List A → Type 0
  IsSorted le [] = Unit
  IsSorted le (x ∷ xs) = All (λ y. le x y ≡ true) xs × IsSorted le xs

  -- Every element stands in a relation to every later one.
  abbrev pub Ordered : (A → A → Type 0) → List A → Type 0
  Ordered R [] = Unit
  Ordered R (x ∷ xs) = All (R x) xs × Ordered R xs

  All-weaken : (P Q : A → Type 0) → ((x : A) → P x → Q x) → (xs : List A) → All P xs → All Q xs
  All-weaken P Q w [] h = tt
  All-weaken P Q w (x ∷ xs) h = (w x h.0, All-weaken P Q w xs h.1)

  -- What a comparison means.
  pub IsSorted-Ordered :
      (le : A → A → Bool) (R : A → A → Type 0)
      → ((x y : A) → le x y ≡ true → R x y)
      → (xs : List A) → IsSorted le xs
      → Ordered R xs
  IsSorted-Ordered le R means [] h = tt
  IsSorted-Ordered le R means (x ∷ xs) h =
      (All-weaken (λ y. le x y ≡ true) (R x) (means x) xs h.0, IsSorted-Ordered le R means xs h.1)

  insert-Perm : (le : A → A → Bool) (x : A) (xs : List A) → Perm (insert le x xs) (x ∷ xs)
  insert-Perm le x [] = Perm.refl (x ∷ [])
  insert-Perm le x (y ∷ ys) = elim (Bool-cases (le x y)) [
    | inl t ↦ rw t (Perm.refl (x ∷ y ∷ ys))
    | inr f ↦ rw f (Perm.trans (Perm.cons y (insert-Perm le x ys)) (Perm.swap x y ys))
  ]

  -- A sort keeps what it sorts.
  pub sort-Perm : (le : A → A → Bool) (xs : List A) → Perm (sort le xs) xs
  unfolding sort
  sort-Perm le [] = Perm.refl []
  sort-Perm le (x ∷ xs) = Perm.trans (insert-Perm le x (sort le xs)) (Perm.cons x (sort-Perm le xs))

  module _ (le : A → A → Bool) (total : (x y : A) → le x y ≡ false → le y x ≡ true)
      (trans : (x y z : A) → le x y ≡ true → le y z ≡ true → le x z ≡ true) where
    le-All :
        (x y : A) (ys : List A)
        → le x y ≡ true
        → All (λ z. le y z ≡ true) ys
        → All (λ z. le x z ≡ true) ys
    le-All x y [] t h = tt
    le-All x y (z ∷ zs) t h = (trans x y z t h.0, le-All x y zs t h.1)

    insert-All :
        (z x : A) (xs : List A)
        → le z x ≡ true
        → All (λ y. le z y ≡ true) xs
        → All (λ y. le z y ≡ true) (insert le x xs)
    insert-All z x [] t h = (t, tt)
    insert-All z x (y ∷ ys) t h = elim (Bool-cases (le x y)) [
      | inl u ↦ rw u (t, h)
      | inr u ↦ rw u (h.0, insert-All z x ys t h.1)
    ]

    insert-IsSorted : (x : A) (xs : List A) → IsSorted le xs → IsSorted le (insert le x xs)
    insert-IsSorted x [] h = (tt, tt)
    insert-IsSorted x (y ∷ ys) h = elim (Bool-cases (le x y)) [
      | inl t ↦ rw t ((t, le-All x y ys t h.0), h)
      | inr f ↦ rw f (insert-All y x ys (total x y f) h.0, insert-IsSorted x ys h.1)
    ]

    -- A total order's sort is sorted.
    pub sort-IsSorted : (xs : List A) → IsSorted le (sort le xs)
    unfolding sort
    sort-IsSorted [] = tt
    sort-IsSorted (x ∷ xs) = insert-IsSorted x (sort le xs) (sort-IsSorted xs)
