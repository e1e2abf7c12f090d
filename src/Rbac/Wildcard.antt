-- ===== src/Rbac/Wildcard.antt =====
-- What a granted permission allows, in `AuthorizePermission` of internal/security/rbac/service.go and
-- in `identityHasPermission` of internal/transport/council/auth.go.
use ai_council.Prelude.{
  ℕ, ◌≡◌, refl, arith, ==_iff, String, Bool, true, false, ◌&&◌, ◌||◌, List, [], ◌∷◌, ◌==◌, str_eq,
  codes, if◌then◌else◌,
}

abbrev pub codes_eq : List ℕ → List ℕ → Bool
codes_eq [] [] = true
codes_eq [] (d ∷ ds) = false
codes_eq (c ∷ cs) [] = false
codes_eq (c ∷ cs) (d ∷ ds) = c == d && codes_eq cs ds

pub codes_eq_refl : (xs : List ℕ) → codes_eq xs xs ≡ true
codes_eq_refl [] = refl
codes_eq_refl (x ∷ xs) = ground (arith, codes_eq_refl xs)

pub codes_eq_sound : (xs ys : List ℕ) → codes_eq xs ys ≡ true → xs ≡ ys
codes_eq_sound [] [] h = refl
codes_eq_sound [] (y ∷ ys) h = ground arith
codes_eq_sound (x ∷ xs) [] h = ground arith
codes_eq_sound (x ∷ xs) (y ∷ ys) h = ground (arith, codes_eq_sound xs ys, ==_iff x y)

-- `strings.HasPrefix`
unfoldable pub has_prefix : List ℕ → List ℕ → Bool
has_prefix text [] = true
has_prefix [] (p ∷ ps) = false
has_prefix (c ∷ cs) (p ∷ ps) = c == p && has_prefix cs ps

-- `strings.HasSuffix`
unfoldable pub has_suffix : List ℕ → List ℕ → Bool
has_suffix [] suffix = codes_eq [] suffix
has_suffix (c ∷ cs) suffix = codes_eq (c ∷ cs) suffix || has_suffix cs suffix

-- `strings.TrimSuffix`
trim_suffix : List ℕ → List ℕ → List ℕ
trim_suffix [] suffix = []
trim_suffix (c ∷ cs) suffix =
    let rest = trim_suffix cs suffix in if codes_eq (c ∷ cs) suffix then [] else c ∷ rest

unfoldable pub grants : String → String → Bool
unfolding has_prefix has_suffix trim_suffix
grants granted permission =
    str_eq granted permission
    || (has_suffix (codes granted) (codes ":*")
        && has_prefix (codes permission) (trim_suffix (codes granted) (codes "*")))
