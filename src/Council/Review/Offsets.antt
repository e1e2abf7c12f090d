-- ===== src/Council/Review/Offsets.antt =====
-- The offsets at which a reviewer of internal/council/engine.go comes to the proposals, and what
-- interleaving keeps of the reviews.
use mathlib.Core.List.{Memᴰ}
use native.Mathlib.Nat.{add-mod_left, mod-add-mod, mod-eq_of_lt, mod-lt}
use ai_council.Prelude.{
  String, ℕ, zero, suc, ◌+◌, ◌-◌, ◌%◌, ◌<◌, ◌≤◌, ◌≡◌, ◌≢◌, inl, inr, sym, ap, ◌∙◌, false, some,
  Bool-cases, List, [], ◌∷◌, length, ltb, ltb→lt, str_eq, eq_iff, arith, if◌then◌else◌,
}
use ai_council.Council.Review.{offsets, get_elem?, Shuffle, done, left, right}

pub mem-offsets : (from n o : ℕ) → from < o → o ≤ from + n → Memᴰ o (offsets from n)
mem-offsets from zero o h k = absurd (omega arith)
mem-offsets from (suc n) o h k = elim (Bool-cases (ltb (suc from) o)) [
  | inl later ↦ Memᴰ.tail (mem-offsets (suc from) n o (ground arith) (omega arith))
  | inr first ↦ Memᴰ.head (ground arith)
]

not_ltb→le : (a b : ℕ) → ltb a b ≡ false → b ≤ a
not_ltb→le a b h = ground arith

-- The offset at which reviewer number `ri` comes to the proposal at `place`.
abbrev pub offset_of : ℕ → ℕ → ℕ → ℕ
offset_of n ri place = if ltb (ri % n) place then place - ri % n else n - ri % n + place

pub offset_of_lem :
    (n ri place : ℕ)
    → place < n
    → ((ri + offset_of n ri place) % n ≡ place)
      × (0 < offset_of n ri place)
      × (offset_of n ri place ≤ n)
offset_of_lem n ri place h =
    let r : ri % n < n = mod-lt ri (omega arith) in
    elim (Bool-cases (ltb (ri % n) place)) [
      | inl before ↦
          let p : ri % n < place = ltb→lt _ _ before in
          rw before (
            sym (mod-add-mod ri n (place - ri % n))
                ∙ ap (λ (k : ℕ). k % n) (omega arith)
                ∙ mod-eq_of_lt h,
            omega arith,
            omega arith,
          )
      | inr behind ↦
          let p : place ≤ ri % n = not_ltb→le _ _ behind in
          rw behind (
            sym (mod-add-mod ri n (n - ri % n + place))
                ∙ ap (λ (k : ℕ). k % n) (omega arith)
                ∙ add-mod_left n place
                ∙ mod-eq_of_lt h,
            omega arith,
            omega arith,
          )
    ]

pub mem_left : {A : Type 0} {x : A} {xs ys zs : List A} → Shuffle xs ys zs → Memᴰ x xs → Memᴰ x zs
mem_left done m = m
mem_left (left s) (Memᴰ.head e) = Memᴰ.head e
mem_left (left s) (Memᴰ.tail m) = Memᴰ.tail (mem_left s m)
mem_left (right s) m = Memᴰ.tail (mem_left s m)

pub mem_right : {A : Type 0} {x : A} {xs ys zs : List A} → Shuffle xs ys zs → Memᴰ x ys → Memᴰ x zs
mem_right done m = m
mem_right (left s) m = Memᴰ.tail (mem_right s m)
mem_right (right s) (Memᴰ.head e) = Memᴰ.head e
mem_right (right s) (Memᴰ.tail m) = Memᴰ.tail (mem_right s m)

pub not_same : (s t : String) → s ≢ t → str_eq s t ≡ false
not_same s t h = elim (Bool-cases (str_eq s t)) [
  | inl e ↦ absurd (h ((eq_iff s t).0 e))
  | inr e ↦ e
]

pub get_elem?-length :
    {A : Type 0} (xs : List A) (i : ℕ) {x : A} → get_elem? xs i ≡ some x → i < length xs
get_elem?-length [] i h = cc
get_elem?-length (x ∷ xs) zero h = omega arith
get_elem?-length (x ∷ xs) (suc i) h = omega (arith, get_elem?-length xs i h)
