-- ===== src/Council/SafePath.antt =====
-- The path checks of internal/council/engine.go, on the code points of a path.
mod Examples
use ai_council.Prelude.{
  ℕ, String, Bool, true, false, not, ◌&&◌, ◌||◌, List, [], ◌∷◌, ◌++◌, any, ◌==◌, leb, codes,
  if◌then◌else◌,
}

-- What the checks take from package path/filepath, which depends on the platform: `IsAbs`, and
-- whether `VolumeName` is not empty.
pub record Platform : Type 0 where
  pub is_abs : List ℕ → Bool
  pub has_volume : List ℕ → Bool

abbrev pub starts_with_slash : List ℕ → Bool
starts_with_slash [] = false
starts_with_slash (c ∷ cs) = c == b'/'

-- `IsAbs` and `VolumeName` on Unix
abbrev pub unix : Platform
unix = record { is_abs = starts_with_slash; has_volume = λ p. false }

-- `unicode.IsSpace`
unfoldable pub is_space : ℕ → Bool
is_space c =
    (leb 9 c && leb c 13)
    || c == 0x20
    || c == 0x85
    || c == 0xa0
    || c == 0x1680
    || (leb 0x2000 c && leb c 0x200a)
    || c == 0x2028
    || c == 0x2029
    || c == 0x202f
    || c == 0x205f
    || c == 0x3000

trim_left : List ℕ → List ℕ
trim_left [] = []
trim_left (c ∷ cs) = let rest = trim_left cs in if is_space c then rest else c ∷ cs

drop_space : ℕ → List ℕ → List ℕ
drop_space c [] = if is_space c then [] else c ∷ []
drop_space c (d ∷ ds) = c ∷ d ∷ ds

trim_right : List ℕ → List ℕ
trim_right [] = []
trim_right (c ∷ cs) = drop_space c (trim_right cs)

-- `strings.TrimSpace`
unfoldable pub trim_space : List ℕ → List ℕ
unfolding trim_left trim_right drop_space is_space
trim_space p = trim_right (trim_left p)

abbrev pub is_separator : ℕ → Bool
is_separator c = c == b'/' || c == 0x5c

abbrev emit : List ℕ → List (List ℕ) → List (List ℕ)
emit [] rest = rest
emit (c ∷ cs) rest = (c ∷ cs) ∷ rest

-- `strings.FieldsFunc` at the separators: the maximal runs of other characters. `field` is the run
-- so far.
unfoldable pub components_from : List ℕ → List ℕ → List (List ℕ)
components_from field [] = emit field []
components_from field (c ∷ cs) = elim (is_separator c) [
  | true ↦ emit field (components_from [] cs)
  | false ↦ components_from (field ++ c ∷ []) cs
]

unfoldable pub components : List ℕ → List (List ℕ)
unfolding components_from
components = components_from []

-- `component == ".."`
abbrev pub is_dot_dot : List ℕ → Bool
is_dot_dot (a ∷ b ∷ []) = a == b'.' && b == b'.'
is_dot_dot _ = false

-- `value == "."`
abbrev pub is_dot : List ℕ → Bool
is_dot (a ∷ []) = a == b'.'
is_dot _ = false

abbrev pub is_nil : List ℕ → Bool
is_nil [] = true
is_nil (c ∷ cs) = false

unfoldable pub has_traversal_component : List ℕ → Bool
unfolding components
has_traversal_component path = any is_dot_dot (components path)

module _ (platform : Platform) where
  safe_trimmed : List ℕ → Bool
  unfolding has_traversal_component
  safe_trimmed value =
      not (is_nil value)
      && not (platform.is_abs value)
      && not (starts_with_slash value)
      && not (platform.has_volume value)
      && not (has_traversal_component value)

  unfoldable pub is_safe_relative_path : List ℕ → Bool
  unfolding safe_trimmed trim_space
  is_safe_relative_path value = safe_trimmed (trim_space value)

  unfoldable pub is_safe_work_dir : List ℕ → Bool
  unfolding is_safe_relative_path
  is_safe_work_dir value =
      is_nil (trim_space value)
      || is_dot (trim_space value)
      || is_safe_relative_path (trim_space value)
