-- ===== src/Rbac/Password/Splitting.antt =====
-- `strings.Split`, as internal/security/rbac/password.go uses it.
use ai_council.Prelude.{
  ℕ, ◌≡◌, refl, inl, inr, false, List, [], ◌∷◌, ◌++◌, ◌==◌, ==_iff, All, Bool-cases, arith, ap, sym,
  ap₂,
}
use ai_council.Rbac.Password.{split, attach}

abbrev pub join : ℕ → List (List ℕ) → List ℕ
join sep [] = []
join sep (part ∷ []) = part
join sep (part ∷ next ∷ parts) = part ++ sep ∷ join sep (next ∷ parts)

pub join-attach :
    (sep c : ℕ) (parts : List (List ℕ)) → join sep (attach c parts) ≡ c ∷ join sep parts
join-attach sep c [] = refl
join-attach sep c (part ∷ []) = refl
join-attach sep c (part ∷ next ∷ parts) = refl

pub attach_cons :
    (c : ℕ) (parts : List (List ℕ))
    → (p : List ℕ) × (ps : List (List ℕ)) × (attach c parts ≡ p ∷ ps)
attach_cons c [] = (c ∷ [], [], refl)
attach_cons c (part ∷ parts) = (c ∷ part, parts, refl)

pub split_cons :
    (sep : ℕ) (text : List ℕ) → (p : List ℕ) × (ps : List (List ℕ)) × (split sep text ≡ p ∷ ps)
unfolding split
split_cons sep [] = ([], [], refl)
split_cons sep (c ∷ cs) = elim (Bool-cases (c == sep)) [
  | inl e ↦ ([], split sep cs, rw e refl)
  | inr e ↦ rw e (attach_cons c (split sep cs))
]

pub join-cons_nil :
    (sep : ℕ) (text : List ℕ) → join sep ([] ∷ split sep text) ≡ sep ∷ join sep (split sep text)
join-cons_nil sep text = let (p, ps, e) = split_cons sep text in rw e refl

-- Splitting loses nothing.
pub join-split : (sep : ℕ) (text : List ℕ) → join sep (split sep text) ≡ text
unfolding split
join-split sep [] = refl
join-split sep (c ∷ cs) = elim (Bool-cases (c == sep)) [
  | inl e ↦
      rw (e, join-cons_nil)
        (ap₂ (λ (x : ℕ) (xs : List ℕ). x ∷ xs) (sym ((==_iff c sep).0 e)) (join-split sep cs))
  | inr e ↦ rw (e, join-attach) (ap (λ (x : List ℕ). c ∷ x) (join-split sep cs))
]

pub split_plain :
    (sep : ℕ) (xs ys : List ℕ)
    → All (λ c. (c == sep) ≡ false) xs
    → split sep (xs ++ sep ∷ ys) ≡ xs ∷ split sep ys
unfolding split
split_plain sep [] ys h = ground arith
split_plain sep (x ∷ xs) ys h = rw (h.0, split_plain sep xs ys h.1) refl

pub split_alone :
    (sep : ℕ) (xs : List ℕ) → All (λ c. (c == sep) ≡ false) xs → split sep xs ≡ xs ∷ []
unfolding split
split_alone sep [] h = refl
split_alone sep (x ∷ xs) h = rw (h.0, split_alone sep xs h.1) refl
