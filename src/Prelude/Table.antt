-- ===== src/Prelude/Table.antt =====
-- Database tables as lists of rows: `UPDATE … SET … WHERE`, and `SELECT … WHERE … ORDER BY …
-- LIMIT 1`. A primary key is a function that no two rows share a value of.
use mathlib.Core.Path.{refl, ◌≡◌, sym, subst, ap, ◌∙◌}
use mathlib.Core.Logic.{◌≢◌, inl, inr}
use mathlib.Core.Bool.{Bool, true, false, ◌&&◌, ◌||◌}
use mathlib.Core.Option.{Option, none, some}
use mathlib.Core.List.{List, [], ◌∷◌, ◌++◌, map}
use Prim.Native.Nat.{ℕ}
use native.Mathlib.Omega.{arith}
use openers_performance_dash.Prelude.Tests.{ltb, ◌==◌, if◌then◌else◌, Bool-cases, Option-cases}
use openers_performance_dash.Prelude.Lists.{
  any, In, All, All-In, All-of_In, In-map, In-map_inv, append-All,
}

module _ {A : Type 0} where
  abbrev pub update : (A → Bool) → (A → A) → List A → List A
  update p f = map (λ x. if p x then f x else x)

  -- `SELECT … LIMIT 1` by a key.
  abbrev pub find : (A → Bool) → List A → Option A
  find p [] = none
  find p (x ∷ xs) = if p x then some x else find p xs

  -- `SELECT … WHERE`.
  abbrev pub select_where : (A → Bool) → List A → List A
  select_where p [] = []
  select_where p (x ∷ xs) = let rest = select_where p xs in if p x then x ∷ rest else rest

  -- The first row by two ascending columns. The database may return any of several rows that
  -- agree in both; here it is the one that stands first in the table.
  abbrev pub before : (A → ℕ) → (A → ℕ) → A → A → Bool
  before k l a b = ltb (k a) (k b) || (k a == k b && ltb (l a) (l b))

  abbrev pub earlier : (A → A → Bool) → A → Option A → A
  earlier lt x none = x
  earlier lt x (some y) = if lt y x then y else x

  unfoldable pub select_first : (A → Bool) → (A → ℕ) → (A → ℕ) → List A → Option A
  select_first p k l [] = none
  select_first p k l (x ∷ xs) =
      let rest = select_first p k l xs in if p x then some (earlier (before k l) x rest) else rest

  -- The selected row is a row of the table, and passes the test.
  pub select_first-In :
      (p : A → Bool) (k l : A → ℕ) (xs : List A) (x : A)
      → select_first p k l xs ≡ some x
      → In x xs × (p x ≡ true)
  unfolding select_first
  select_first-In p k l [] x e = cc
  select_first-In p k l (y ∷ xs) x e = elim (Bool-cases (p y)) [
    | inl t ↦ elim (Option-cases (select_first p k l xs)) [
      | inl n ↦ ground (arith, e, t, n)
      | inr (z, s) ↦ ground (arith, e, t, s, select_first-In p k l xs z s)
    ]
    | inr f ↦ ground (arith, select_first-In p k l xs x)
  ]

  -- No row is selected only if no row passes the test.
  pub select_first-none :
      (p : A → Bool) (k l : A → ℕ) (xs : List A) (y : A)
      → select_first p k l xs ≡ none
      → In y xs
      → p y ≡ false
  unfolding select_first
  select_first-none p k l [] y e m = elim m [ ]
  select_first-none p k l (x ∷ xs) y e (inl q) = rw q (ground arith)
  select_first-none p k l (x ∷ xs) y e (inr m) = select_first-none p k l xs y (ground arith) m

  -- No row that passes the test comes before the selected one.
  pub select_first-least :
      (p : A → Bool) (k l : A → ℕ) (xs : List A) (x y : A)
      → select_first p k l xs ≡ some x
      → In y xs
      → p y ≡ true
      → before k l y x ≡ false
  unfolding select_first
  select_first-least p k l [] x y e m t = elim m [ ]
  select_first-least p k l (z ∷ xs) x y e (inl q) t =
      rw q (elim (Option-cases (select_first p k l xs)) [
        | inl n ↦ ground (arith, rw q at t, e, n)
        | inr (w, s) ↦ ground (arith, rw q at t, e, s)
      ])
  select_first-least p k l (z ∷ xs) x y e (inr m) t = elim (Option-cases (select_first p k l xs)) [
    | inl n ↦ absurd (cc (select_first-none p k l xs y n m, t))
    | inr (w, s) ↦ ground (arith, e, s, select_first-least p k l xs w y s m t)
  ]

  -- No two rows share a primary key.
  abbrev pub IsKeyed : (A → ℕ) → List A → Type 0
  IsKeyed key [] = Unit
  IsKeyed key (x ∷ xs) = All (λ y. key y ≢ key x) xs × IsKeyed key xs

  -- Rows with one key are one row.
  pub IsKeyed-eq :
      (key : A → ℕ) (xs : List A) (x y : A)
      → IsKeyed key xs
      → In x xs
      → In y xs
      → key x ≡ key y
      → x ≡ y
  IsKeyed-eq key [] x y h m n e = elim m [ ]
  IsKeyed-eq key (z ∷ zs) x y h (inl p) (inl q) e = p ∙ sym q
  IsKeyed-eq key (z ∷ zs) x y h (inl p) (inr n) e =
      absurd (All-In (λ w. key w ≢ key z) y zs h.0 n (sym e ∙ ap key p))
  IsKeyed-eq key (z ∷ zs) x y h (inr m) (inl q) e =
      absurd (All-In (λ w. key w ≢ key z) x zs h.0 m (e ∙ ap key q))
  IsKeyed-eq key (z ∷ zs) x y h (inr m) (inr n) e = IsKeyed-eq key zs x y h.1 m n e

  -- An update that leaves the key alone keeps it a key.
  pub update-IsKeyed :
      (key : A → ℕ) (p : A → Bool) (f : A → A) (xs : List A)
      → ((x : A) → key (f x) ≡ key x)
      → IsKeyed key xs
      → IsKeyed key (update p f xs)
  update-IsKeyed key p f [] keep h = tt
  update-IsKeyed key p f (x ∷ xs) keep h = (apart, update-IsKeyed key p f xs keep h.1)
    where
      same_key : (w : A) → key (if p w then f w else w) ≡ key w
      same_key w = elim (Bool-cases (p w)) [ inl t ↦ rw t (keep w) | inr t ↦ rw t ]

      apart : All (λ y. key y ≢ key (if p x then f x else x)) (update p f xs)
      apart = All-of_In _ (update p f xs) λ y m.
          let (w, n, e) = In-map_inv (λ w. if p w then f w else w) y xs m in
          λ eq.
            All-In (λ y. key y ≢ key x) w xs h.0 n
              (sym (same_key w) ∙ ap key (sym e) ∙ eq ∙ same_key x)

  -- A row after an update is a row from before it, rewritten if it passed the test.
  pub In-update :
      (p : A → Bool) (f : A → A) (xs : List A) (y : A)
      → In y (update p f xs)
      → (x : A) × In x xs × (y ≡ (if p x then f x else x))
  In-update p f xs y m = In-map_inv (λ x. if p x then f x else x) y xs m

  -- What holds of the rewritten rows and of those passed over holds of every row after an update.
  pub update-covers :
      (R : A → Type 0) (p : A → Bool) (f : A → A) (xs : List A)
      → ((x : A) → In x xs → p x ≡ true → R (f x))
      → ((x : A) → In x xs → p x ≡ false → R x)
      → (y : A) → In y (update p f xs)
      → R y
  update-covers R p f xs on off y m =
      let (x, n, e) = In-update p f xs y m in
      elim (Bool-cases (p x)) [
        | inl t ↦ subst R (sym (rw t at e)) (on x n t)
        | inr t ↦ subst R (sym (rw t at e)) (off x n t)
      ]

  -- Every row of a table appears in the updated table, rewritten if it passed the test.
  pub In-update_of :
      (p : A → Bool) (f : A → A) (xs : List A) (x : A)
      → In x xs
      → In (if p x then f x else x) (update p f xs)
  In-update_of p f xs x m = In-map (λ y. if p y then f y else y) x xs m

  -- A property of every row survives an update that keeps it on the rows that it rewrites.
  pub update-All :
      (P : A → Type 0) (p : A → Bool) (f : A → A) (xs : List A)
      → ((x : A) → In x xs → P x → p x ≡ true → P (f x))
      → All P xs
      → All P (update p f xs)
  update-All P p f xs keep h = All-of_In P (update p f xs) λ y m.
      let (x, n, e) = In-update p f xs y m in
      let px : P x = All-In P x xs h n in
      elim (Bool-cases (p x)) [
        | inl t ↦ subst P (sym (rw t at e)) (keep x n px t)
        | inr t ↦ subst P (sym (rw t at e)) px
      ]

  -- A selection by columns that an update does not set commutes with it.
  pub select_where-update :
      (p q : A → Bool) (f : A → A) (xs : List A)
      → ((x : A) → p (f x) ≡ p x)
      → select_where p (update q f xs) ≡ update q f (select_where p xs)
  select_where-update p q f [] keep = refl
  select_where-update p q f (x ∷ xs) keep =
      let ih = select_where-update p q f xs keep in
      let same : p (if q x then f x else x) ≡ p x = elim (Bool-cases (q x)) [
        | inl t ↦ rw t (keep x)
        | inr t ↦ rw t
      ] in
      elim (Bool-cases (p x)) [
        | inl t ↦ rw (same, t) (ap (λ r. (if q x then f x else x) ∷ r) ih)
        | inr t ↦ rw (same, t) ih
      ]

  -- What a selection returns.
  pub select_where-In :
      (p : A → Bool) (xs : List A) (x : A) → In x (select_where p xs) → In x xs × (p x ≡ true)
  select_where-In p [] x m = elim m [ ]
  select_where-In p (y ∷ xs) x m = elim (Bool-cases (p y)) [
    | inl t ↦ head t (λ n. select_where-In p xs x n) (rw t at m)
    | inr t ↦ let (n, u) = select_where-In p xs x (rw t at m) in (inr n, u)
  ]
    where
      head :
          p y ≡ true
          → (In x (select_where p xs) → In x xs × (p x ≡ true))
          → In x (y ∷ select_where p xs)
          → In x (y ∷ xs) × (p x ≡ true)
      head t ih (inl e) = (inl e, rw e t)
      head t ih (inr m) = let (n, u) = ih m in (inr n, u)

  -- What a selection keeps.
  pub In-select_where :
      (p : A → Bool) (xs : List A) (x : A) → In x xs → p x ≡ true → In x (select_where p xs)
  In-select_where p [] x m t = elim m [ ]
  In-select_where p (y ∷ ys) x (inl e) t = rw (rw e at t) (inl e)
  In-select_where p (y ∷ ys) x (inr m) t = elim (Bool-cases (p y)) [
    | inl u ↦ rw u (inr (In-select_where p ys x m t))
    | inr u ↦ rw u (In-select_where p ys x m t)
  ]

  -- What `find` returns.
  pub find-In : (p : A → Bool) (xs : List A) (x : A) → find p xs ≡ some x → In x xs × (p x ≡ true)
  find-In p [] x e = cc
  find-In p (y ∷ xs) x e = elim (Bool-cases (p y)) [
    | inl t ↦ let same : y ≡ x = cc (rw t at e) in (inl (sym same), rw (← same) t)
    | inr t ↦ let (n, u) = find-In p xs x (rw t at e) in (inr n, u)
  ]

  pub find-none : (p : A → Bool) (xs : List A) (x : A) → find p xs ≡ none → In x xs → p x ≡ false
  find-none p [] x e m = elim m [ ]
  find-none p (y ∷ xs) x e (inl q) = rw q (ground (arith, e))
  find-none p (y ∷ xs) x e (inr m) = elim (Bool-cases (p y)) [
    | inl t ↦ absurd (cc (rw t at e))
    | inr t ↦ find-none p xs x (rw t at e) m
  ]

  -- A new row is found where no row passed the test before it.
  pub find-append_last :
      (p : A → Bool) (xs : List A) (x : A)
      → any p xs ≡ false
      → p x ≡ true
      → find p (xs ++ x ∷ []) ≡ some x
  find-append_last p [] x f t = rw t refl
  find-append_last p (y ∷ ys) x f t = ground (arith, f, find-append_last p ys x, t)

  -- An update passes a row over that its test refuses.
  pub update-passes :
      (p : A → Bool) (f : A → A) (xs : List A) (x : A)
      → p x ≡ false
      → In x xs
      → In x (update p f xs)
  update-passes p f xs x e m = rw e at (In-update_of p f xs x m)

  -- A selection keeps a key.
  pub select_where-IsKeyed :
      (key : A → ℕ) (p : A → Bool) (xs : List A) → IsKeyed key xs → IsKeyed key (select_where p xs)
  select_where-IsKeyed key p [] h = tt
  select_where-IsKeyed key p (x ∷ xs) h = elim (Bool-cases (p x)) [
    | inr t ↦ rw t (select_where-IsKeyed key p xs h.1)
    | inl t ↦ rw t (
      All-of_In (λ y. key y ≢ key x) (select_where p xs)
          (λ y m. All-In (λ y. key y ≢ key x) y xs h.0 (select_where-In p xs y m).0),
      select_where-IsKeyed key p xs h.1,
    )
  ]

  -- An insertion of a row with a new key keeps it a key.
  pub append-IsKeyed :
      (key : A → ℕ) (xs : List A) (x : A)
      → IsKeyed key xs
      → ((y : A) → In y xs → key y ≢ key x)
      → IsKeyed key (xs ++ x ∷ [])
  append-IsKeyed key [] x k apart = (tt, tt)
  append-IsKeyed key (y ∷ ys) x k apart = (
    append-All (λ z. key z ≢ key y) ys x k.0 (λ e. apart y (inl refl) (sym e)),
    append-IsKeyed key ys x k.1 (λ z m. apart z (inr m)),
  )
