-- ===== src/Prelude/Membership.antt =====
-- Which values a list holds, and what the Boolean searches of Lists say about that.
use mathlib.Core.Path.{◌≡◌, refl}
use mathlib.Core.Logic.{◌⊎◌, inl, inr}
use mathlib.Core.Bool.{Bool, true}
use mathlib.Core.Option.{some}
use mathlib.Core.List.{List, [], ◌∷◌, map}
use native.Mathlib.Omega.{arith}
use ai_council.Prelude.Tests.{Bool-cases}
use ai_council.Prelude.Lists.{any, filter, find}

abbrev pub In : {A : Type 0} → A → List A → Type 0
In x [] = ⊥
In x (y ∷ ys) = (x ≡ y) ⊎ In x ys

module _ {A : Type 0} (p : A → Bool) where
  pub any-In : (xs : List A) → any p xs ≡ true → (x : A) × In x xs × (p x ≡ true)
  any-In [] h = absurd (cc)
  any-In (x ∷ xs) h = elim (Bool-cases (p x)) [
    | inl e ↦ (x, inl refl, e)
    | inr e ↦ let (y, i, q) = any-In xs (rw e at h) in (y, inr i, q)
  ]

  pub In-any : (xs : List A) (x : A) → In x xs → p x ≡ true → any p xs ≡ true
  In-any [] x i q = absurd i
  In-any (y ∷ xs) x (inl e) q = rw (← e, q) refl
  In-any (y ∷ xs) x (inr i) q = ground (arith, In-any xs x i q)

  In-filter_cons :
      (xs : List A) (y x : A)
      → (In x (filter p xs) → In x xs × (p x ≡ true))
      → In x (filter p (y ∷ xs))
      → In x (y ∷ xs) × (p x ≡ true)
  In-filter_cons xs y x ih i = elim (Bool-cases (p y)) [
    | inl e ↦ elim (let j : In x (y ∷ filter p xs) = rw e at i in j) [
      | inl d ↦ (inl d, rw d e)
      | inr j ↦ let (k, q) = ih j in (inr k, q)
    ]
    | inr e ↦ let (k, q) = ih (rw e at i) in (inr k, q)
  ]

  pub In-filter : (xs : List A) (x : A) → In x (filter p xs) → In x xs × (p x ≡ true)
  In-filter [] x i = absurd i
  In-filter (y ∷ xs) x i = In-filter_cons xs y x (In-filter xs x) i

  pub filter-In : (xs : List A) (x : A) → In x xs → p x ≡ true → In x (filter p xs)
  filter-In [] x i q = absurd i
  filter-In (y ∷ xs) x (inl e) q = rw (← e, q) (inl refl)
  filter-In (y ∷ xs) x (inr i) q = elim (Bool-cases (p y)) [
    | inl e ↦ rw e (inr (filter-In xs x i q))
    | inr e ↦ rw e (filter-In xs x i q)
  ]

  pub find-In : (xs : List A) (x : A) → find p xs ≡ some x → In x xs × (p x ≡ true)
  find-In [] x h = absurd (cc)
  find-In (y ∷ xs) x h = elim (Bool-cases (p y)) [
    | inl e ↦ let d : x ≡ y = ground arith in (inl d, rw d e)
    | inr e ↦ let (j, q) = find-In xs x (rw e at h) in (inr j, q)
  ]

module _ {A B : Type 0} (f : A → B) where
  pub In-map : (xs : List A) (y : B) → In y (map f xs) → (x : A) × In x xs × (y ≡ f x)
  In-map [] y i = absurd i
  In-map (x ∷ xs) y (inl e) = (x, inl refl, e)
  In-map (x ∷ xs) y (inr i) = let (z, j, q) = In-map xs y i in (z, inr j, q)

  pub map-In : (xs : List A) (x : A) → In x xs → In (f x) (map f xs)
  map-In [] x i = absurd i
  map-In (y ∷ xs) x (inl e) = inl (rw e refl)
  map-In (y ∷ xs) x (inr i) = inr (map-In xs x i)
