-- ===== src/Prelude/Lists.antt =====
-- Lists measured by native numbers, and predicates on the members of a list.
use Prim.Native.Nat.{ℕ, suc, ◌+◌}
use mathlib.Core.Path.{◌≡◌, refl, ap}
use mathlib.Core.Logic.{◌⊎◌, inl, inr}
use mathlib.Core.Bool.{Bool, true, false, ◌&&◌, ◌||◌}
use mathlib.Core.List.{List, [], ◌∷◌, ◌++◌, map}
use native.Mathlib.Omega.{arith}

module _ {ℓ} {A : Type ℓ} where
  abbrev pub length : List A → ℕ
  length [] = 0
  length (x ∷ xs) = suc (length xs)

  -- `xs.some(p)` and `xs.every(p)`.
  abbrev pub any : (A → Bool) → List A → Bool
  any p [] = false
  any p (x ∷ xs) = p x || any p xs

  abbrev pub all : (A → Bool) → List A → Bool
  all p [] = true
  all p (x ∷ xs) = p x && all p xs

  pub length-append : (xs ys : List A) → length (xs ++ ys) ≡ length xs + length ys
  length-append [] ys = omega arith
  length-append (x ∷ xs) ys = omega (arith, length-append xs ys)

-- Membership that a proof can take apart.
abbrev pub In : {A : Type 0} → A → List A → Type 0
In x [] = ⊥
In x (y ∷ ys) = (x ≡ y) ⊎ In x ys

module _ {ℓ κ} {A : Type ℓ} where
  abbrev pub All : (A → Type κ) → List A → Type κ
  All P [] = Unit
  All P (x ∷ xs) = P x × All P xs

module _ {ℓ} {A : Type 0} where
  pub All-In : (P : A → Type ℓ) (x : A) (xs : List A) → All P xs → In x xs → P x
  All-In P x [] h m = elim m [ ]
  All-In P x (y ∷ ys) h (inl e) = rw e h.0
  All-In P x (y ∷ ys) h (inr m) = All-In P x ys h.1 m

  pub All-of_In : (P : A → Type ℓ) (xs : List A) → ((x : A) → In x xs → P x) → All P xs
  All-of_In P [] h = tt
  All-of_In P (y ∷ ys) h = (h y (inl refl), All-of_In P ys (λ x m. h x (inr m)))

module _ {A : Type 0} where
  pub append-All : (P : A → Type 0) (xs : List A) (x : A) → All P xs → P x → All P (xs ++ x ∷ [])
  append-All P [] x h v = (v, tt)
  append-All P (y ∷ ys) x h v = (h.0, append-All P ys x h.1 v)

  pub In-append : (xs : List A) (x y : A) → In y xs → In y (xs ++ x ∷ [])
  In-append [] x y m = elim m [ ]
  In-append (z ∷ zs) x y (inl e) = inl e
  In-append (z ∷ zs) x y (inr m) = inr (In-append zs x y m)

  pub In-append_last : (xs : List A) (x : A) → In x (xs ++ x ∷ [])
  In-append_last [] x = inl refl
  In-append_last (z ∷ zs) x = inr (In-append_last zs x)

  pub In-append_inv : (xs : List A) (x y : A) → In y (xs ++ x ∷ []) → In y xs ⊎ (y ≡ x)
  In-append_inv [] x y (inl e) = inr e
  In-append_inv [] x y (inr m) = elim m [ ]
  In-append_inv (z ∷ zs) x y (inl e) = inl (inl e)
  In-append_inv (z ∷ zs) x y (inr m) = elim (In-append_inv zs x y m) [
    | inl n ↦ inl (inr n)
    | inr e ↦ inr e
  ]

  pub In-left : (xs ys : List A) (x : A) → In x xs → In x (xs ++ ys)
  In-left [] ys x m = elim m [ ]
  In-left (z ∷ zs) ys x (inl e) = inl e
  In-left (z ∷ zs) ys x (inr m) = inr (In-left zs ys x m)

  pub In-right : (xs ys : List A) (x : A) → In x ys → In x (xs ++ ys)
  In-right [] ys x m = m
  In-right (z ∷ zs) ys x m = inr (In-right zs ys x m)

  pub any-none : (p : A → Bool) (xs : List A) (x : A) → any p xs ≡ false → In x xs → p x ≡ false
  any-none p [] x e m = elim m [ ]
  any-none p (y ∷ ys) x e (inl q) = rw q (ground (arith, e))
  any-none p (y ∷ ys) x e (inr m) = any-none p ys x (ground (arith, e)) m

module _ {A B : Type 0} where
  pub In-map : (f : A → B) (x : A) (xs : List A) → In x xs → In (f x) (map f xs)
  In-map f x [] m = elim m [ ]
  In-map f x (y ∷ ys) (inl e) = inl (ap f e)
  In-map f x (y ∷ ys) (inr m) = inr (In-map f x ys m)

  pub In-map_inv :
      (f : A → B) (y : B) (xs : List A) → In y (map f xs) → (x : A) × In x xs × (y ≡ f x)
  In-map_inv f y [] m = elim m [ ]
  In-map_inv f y (x ∷ xs) (inl e) = (x, inl refl, e)
  In-map_inv f y (x ∷ xs) (inr m) = let (z, k, e) = In-map_inv f y xs m in (z, inr k, e)
