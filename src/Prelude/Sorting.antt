-- ===== src/Prelude/Sorting.antt =====
-- Sorting by a numeric key, and lists that count.
use Prim.Native.Nat.{ℕ, zero, suc, ◌<◌}
use mathlib.Core.Path.{◌≡◌, refl, ap₂, ◌∙◌}
use mathlib.Core.Logic.{inl, inr}
use mathlib.Core.List.{List, [], ◌∷◌, ◌++◌, map}
use native.Mathlib.Omega.{arith}
use ai_council.Prelude.Tests.{leb, ltb, Bool-cases, if◌then◌else◌}
use ai_council.Prelude.Lists.{filter, All, All-concat, cons_parts}

-- n, n - 1, …, 1
abbrev pub countdown : ℕ → List ℕ
countdown zero = []
countdown (suc n) = suc n ∷ countdown n

-- 1, 2, …, n
abbrev pub count_up : ℕ → List ℕ
count_up zero = []
count_up (suc n) = count_up n ++ suc n ∷ []

module _ {A : Type 0} (key : A → ℕ) where
  place : A → List A → List A
  place e [] = e ∷ []
  place e (x ∷ xs) = if leb (key e) (key x) then e ∷ x ∷ xs else x ∷ place e xs

  -- A stable sort, the smallest key first.
  unfoldable pub sort_by : List A → List A
  unfolding place
  sort_by [] = []
  sort_by (e ∷ es) = place e (sort_by es)

  map-place_last :
      (e : A) (xs : List A)
      → All (λ x. x < key e) (map key xs)
      → map key (place e xs) ≡ map key xs ++ key e ∷ []
  unfolding place
  map-place_last e [] h = refl
  map-place_last e (x ∷ xs) h = ground (arith, map-place_last e xs)

module _ {A : Type 0} (P : A → Type 0) (key : A → ℕ) where
  place-All : (e : A) (xs : List A) → P e → All P xs → All P (place key e xs)
  unfolding place
  place-All e [] h k = (h, tt)
  place-All e (x ∷ xs) h k = elim (Bool-cases (leb (key e) (key x))) [
    | inl first ↦ rw first (h, k)
    | inr later ↦ rw later (k.0, place-All e xs h k.1)
  ]

  -- Sorting adds nothing.
  pub sort_by-All : (xs : List A) → All P xs → All P (sort_by key xs)
  unfolding sort_by
  sort_by-All [] h = tt
  sort_by-All (x ∷ xs) h = place-All x (sort_by key xs) h.0 (sort_by-All xs h.1)

pub count_up-below : (n m : ℕ) → n < m → All (λ x. x < m) (count_up n)
count_up-below zero m h = tt
count_up-below (suc n) m h =
    All-concat (λ x. x < m) (count_up n) (count_up-below n m (omega arith)) h

module _ {A : Type 0} (key : A → ℕ) where
  pub sort_by-countdown :
      (n : ℕ) (es : List A) → map key es ≡ countdown n → map key (sort_by key es) ≡ count_up n
  unfolding sort_by
  sort_by-countdown zero [] h = refl
  sort_by-countdown zero (e ∷ es) h = cc
  sort_by-countdown (suc n) [] h = cc
  sort_by-countdown (suc n) (e ∷ es) h =
      let (head, tail) = cons_parts h in
      let sorted = sort_by-countdown n es tail in
      map-place_last key e (sort_by key es)
        (rw (sorted, head) (count_up-below n (suc n) (omega arith)))
      ∙ ap₂ (λ (xs : List ℕ) (x : ℕ). xs ++ x ∷ []) sorted head

count_up-append_filter :
    (k n : ℕ) (xs : List ℕ)
    → filter (ltb k) (xs ++ n ∷ [])
      ≡ (if ltb k n then filter (ltb k) xs ++ n ∷ [] else filter (ltb k) xs)
count_up-append_filter k n [] = ground arith
count_up-append_filter k n (x ∷ xs) = ground (arith, count_up-append_filter k n xs)

All-filter : (k m : ℕ) (xs : List ℕ) → All (λ x. x < m) xs → All (λ x. x < m) (filter (ltb k) xs)
All-filter k m [] h = tt
All-filter k m (x ∷ xs) h = elim (Bool-cases (ltb k x)) [
  | inl above ↦ rw above (h.0, All-filter k m xs h.1)
  | inr below ↦ rw below (All-filter k m xs h.1)
]

module _ {A : Type 0} (key : A → ℕ) (k : ℕ) where
  sort_by-cons_above :
      (n : ℕ)
      → ((es : List A)
          → map key es ≡ filter (ltb k) (countdown n)
          → map key (sort_by key es) ≡ filter (ltb k) (count_up n))
      → (es : List A) → map key es ≡ suc n ∷ filter (ltb k) (countdown n)
      → map key (sort_by key es) ≡ filter (ltb k) (count_up n) ++ suc n ∷ []
  unfolding sort_by
  sort_by-cons_above n ih [] h = cc
  sort_by-cons_above n ih (e ∷ es) h =
      let (head, tail) = cons_parts h in
      let sorted = ih es tail in
      map-place_last key e (sort_by key es) (
        rw (sorted, head)
          (All-filter k (suc n) (count_up n) (count_up-below n (suc n) (omega arith))))
      ∙ ap₂ (λ (xs : List ℕ) (x : ℕ). xs ++ x ∷ []) sorted head

  -- The same for what lies above `k`.
  pub sort_by-countdown_above :
      (n : ℕ) (es : List A)
      → map key es ≡ filter (ltb k) (countdown n)
      → map key (sort_by key es) ≡ filter (ltb k) (count_up n)
  unfolding sort_by
  sort_by-countdown_above zero [] h = refl
  sort_by-countdown_above zero (e ∷ es) h = cc
  sort_by-countdown_above (suc n) es h = elim (Bool-cases (ltb k (suc n))) [
    | inl above ↦
        rw (count_up-append_filter, above)
          (sort_by-cons_above n (sort_by-countdown_above n) es (rw above at h))
    | inr below ↦ rw (count_up-append_filter, below) (sort_by-countdown_above n es (rw below at h))
  ]
