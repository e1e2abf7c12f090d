-- ===== src/Prelude/TextOrder.antt =====
-- `ORDER BY` and `DISTINCT` on a column of texts, which the database compares by their bytes: that is
-- by their code points.
use Prim.Native.Nat.{ℕ}
use Prim.Native.String.{String}
use mathlib.Core.Path.{◌≡◌}
use mathlib.Core.Logic.{◌⊎◌, inl, inr}
use mathlib.Core.Bool.{Bool, true, false, ◌&&◌, ◌||◌}
use mathlib.Core.List.{List, [], ◌∷◌}
use text.Mathlib.TextEquality.{eq_iff}
use ai_council.Prelude.Tests.{ltb, ◌==◌, Bool-cases, if◌then◌else◌}
use ai_council.Prelude.Lists.{any}
use ai_council.Prelude.Text.{codes, str_eq}
use ai_council.Prelude.Membership.{In, any-In}

codes_leb : List ℕ → List ℕ → Bool
codes_leb [] ys = true
codes_leb (x ∷ xs) [] = false
codes_leb (x ∷ xs) (y ∷ ys) = ltb x y || (x == y && codes_leb xs ys)

unfoldable pub text_leb : String → String → Bool
unfolding codes_leb
text_leb s t = codes_leb (codes s) (codes t)

module _ {A : Type 0} (key : A → String) where
  put : A → List A → List A
  put e [] = e ∷ []
  put e (x ∷ xs) = if text_leb (key e) (key x) then e ∷ x ∷ xs else x ∷ put e xs

  unfoldable pub order_by : List A → List A
  unfolding put text_leb
  order_by [] = []
  order_by (e ∷ es) = put e (order_by es)

  In-put : (e : A) (xs : List A) (x : A) → In x (put e xs) → (x ≡ e) ⊎ In x xs
  unfolding put
  In-put e [] x i = i
  In-put e (y ∷ xs) x i = elim (Bool-cases (text_leb (key e) (key y))) [
    | inl h ↦ rw h at i
    | inr h ↦ elim (let j : In x (y ∷ put e xs) = rw h at i in j) [
      | inl d ↦ inr (inl d)
      | inr j ↦ elim (In-put e xs x j) [ inl d ↦ inl d | inr k ↦ inr (inr k) ]
    ]
  ]

  put-In : (e : A) (xs : List A) (x : A) → (x ≡ e) ⊎ In x xs → In x (put e xs)
  unfolding put
  put-In e [] x i = i
  put-In e (y ∷ xs) x i = elim (Bool-cases (text_leb (key e) (key y))) [
    | inl h ↦ rw h i
    | inr h ↦ rw h (elim i [
      | inl d ↦ inr (put-In e xs x (inl d))
      | inr (inl d) ↦ inl d
      | inr (inr j) ↦ inr (put-In e xs x (inr j))
    ])
  ]

  pub In-order_by : (xs : List A) (x : A) → In x (order_by xs) → In x xs
  unfolding order_by
  In-order_by [] x i = i
  In-order_by (e ∷ es) x i = elim (In-put e (order_by es) x i) [
    | inl d ↦ inl d
    | inr j ↦ inr (In-order_by es x j)
  ]

  pub order_by-In : (xs : List A) (x : A) → In x xs → In x (order_by xs)
  unfolding order_by
  order_by-In [] x i = i
  order_by-In (e ∷ es) x (inl d) = put-In e (order_by es) x (inl d)
  order_by-In (e ∷ es) x (inr i) = put-In e (order_by es) x (inr (order_by-In es x i))

unfoldable pub distinct : List String → List String
distinct [] = []
distinct (s ∷ ss) = if any (str_eq s) ss then distinct ss else s ∷ distinct ss

pub In-distinct : (ss : List String) (s : String) → In s (distinct ss) → In s ss
unfolding distinct
In-distinct [] s i = i
In-distinct (t ∷ ss) s i = elim (Bool-cases (any (str_eq t) ss)) [
  | inl h ↦ inr (In-distinct ss s (rw h at i))
  | inr h ↦ elim (let j : In s (t ∷ distinct ss) = rw h at i in j) [
    | inl d ↦ inl d
    | inr j ↦ inr (In-distinct ss s j)
  ]
]

pub distinct-In : (ss : List String) (s : String) → In s ss → In s (distinct ss)
unfolding distinct
distinct-In [] s i = i
distinct-In (t ∷ ss) s i = elim (Bool-cases (any (str_eq t) ss)) [
  | inl h ↦ rw h (
      distinct-In ss s (elim i [
        | inl d ↦ let (u, j, e) = any-In (str_eq t) ss h in rw (d, (eq_iff t u).0 e) j
        | inr j ↦ j
      ]))
  | inr h ↦ rw h (elim i [ inl d ↦ inl d | inr j ↦ inr (distinct-In ss s j) ])
]
