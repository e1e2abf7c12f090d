-- ===== src/Runner/PathGuard.antt =====
-- internal/runner/pathguard/guard.go on Unix. A path is the list of its components; one that is made
-- from the root is absolute.
pub mod Below
pub mod Ordinary
mod Examples
use ai_council.Prelude.{
  ℕ, ◌+◌, ℤ, pos, negsuc, String, Bool, true, false, not, ◌&&◌, ◌||◌, Option, none, some, List, [],
  ◌∷◌, ◌++◌, map, ltb, leb, ◌==◌, codes, if◌then◌else◌,
}
use ai_council.Council.SafePath.{is_nil, is_dot, is_dot_dot, starts_with_slash}
use ai_council.Rbac.Password.{split}
use ai_council.Rbac.Wildcard.{codes_eq, has_prefix, has_suffix}

abbrev pub Parts : Type 0
Parts = List (List ℕ)

abbrev pub dot_dot : List ℕ
dot_dot = b'.' ∷ b'.' ∷ []

-- What the guard asks the operating system: `EvalSymlinks` and the size that `Stat` gives, of absolute
-- paths, and the working directory.
pub record FileSystem : Type 0 where
  pub eval_symlinks : Parts → Option Parts
  pub size : Parts → Option ℕ
  pub work_dir : Option Parts

pub data Error : Type 0 where
  outside_workspace sensitive_path file_too_large stat_failed no_work_dir : Error

pub data Resolved (A : Type 0) : Type 0 where
  ok : A → Resolved A
  err : Error → Resolved A

pub record Guard : Type 0 where
  pub root : Parts
  pub max_bytes : ℤ

-- `..` after the components that are kept, last first: at the root it is dropped.
unfoldable pub climb : Bool → Parts → Parts
climb true [] = []
climb false [] = dot_dot ∷ []
climb rooted (c ∷ kept) = if is_dot_dot c then dot_dot ∷ c ∷ kept else kept

unfoldable pub keep : Bool → Parts → List ℕ → Parts
unfolding climb
keep rooted kept c =
    if is_nil c || is_dot c then kept else if is_dot_dot c then climb rooted kept else c ∷ kept

unfoldable pub walk : Bool → Parts → Parts → Parts
unfolding keep
walk rooted kept [] = kept
walk rooted kept (c ∷ cs) = walk rooted (keep rooted kept c) cs

unfoldable pub reverse_onto : Parts → Parts → Parts
reverse_onto back [] = back
reverse_onto back (c ∷ cs) = reverse_onto (c ∷ back) cs

-- `filepath.Clean`
unfoldable pub clean : Bool → Parts → Parts
unfolding walk reverse_onto
clean rooted path = reverse_onto [] (walk rooted [] path)

-- `filepath.Join` of an absolute path and another
unfoldable pub join : Parts → Parts → Parts
unfolding clean
join root path = clean true (root ++ path)

-- `filepath.Rel` behind `Clean`: where the paths part, the base is left by `..`.
unfoldable pub below : Parts → Parts → Parts
below [] target = target
below (b ∷ base) [] = map (λ c. dot_dot) (b ∷ base)
below (b ∷ base) (c ∷ target) =
    let rest = below base target in
    if codes_eq b c then rest else map (λ c. dot_dot) (b ∷ base) ++ c ∷ target

unfoldable pub rel : Parts → Parts → Parts
unfolding clean below
rel base target = below (clean true base) (clean true target)

-- `rel == ".." || strings.HasPrefix(rel, "../")`
abbrev pub leads_out : Parts → Bool
leads_out [] = false
leads_out (c ∷ cs) = is_dot_dot c

unfoldable pub check_inside : Guard → Parts → Bool
unfolding rel
check_inside guard path = not (leads_out (rel guard.root path))

-- `strings.ToLower`, of the characters whose small letter is an ASCII letter: the two others are İ
-- and the Kelvin sign.
abbrev pub to_lower : ℕ → ℕ
to_lower c =
    if leb b'A' c && leb c b'Z'
    then c + 32
    else if c == 0x130
    then b'i'
    else if c == 0x212a
    then b'k'
    else c

-- `filepath.Base`
unfoldable pub base : Parts → List ℕ
base [] = b'/' ∷ []
base (c ∷ []) = c
base (c ∷ d ∷ cs) = base (d ∷ cs)

-- The tests on the whole path look at its end, which is that of its last component.
unfoldable pub is_sensitive : Parts → Bool
unfolding base has_prefix has_suffix
is_sensitive path =
    let name = map to_lower (base path) in
    codes_eq name (codes ".env")
    || has_prefix name (codes ".env.")
    || codes_eq name (codes "id_rsa")
    || codes_eq name (codes "id_ed25519")
    || has_suffix name (codes ".pem")
    || has_suffix name (codes ".key")
    || has_suffix name (codes ".db")
    || has_suffix name (codes ".sqlite")

-- `filepath.Dir`
unfoldable pub dir : Parts → Parts
dir [] = []
dir (c ∷ []) = []
dir (c ∷ d ∷ cs) = c ∷ dir (d ∷ cs)

abbrev pub or_else : Parts → Option Parts → Parts
or_else path none = path
or_else path (some real) = real

abbrev pub exceeds : ℤ → ℕ → Bool
exceeds (pos limit) size = ltb 0 limit && ltb limit size
exceeds (negsuc n) size = false

-- `filepath.Abs`
unfoldable pub abs : Option Parts → List ℕ → Option Parts
unfolding clean join split
abs work_dir path =
    if starts_with_slash path
    then some (clean true (split b'/' path))
    else elim work_dir [ none ↦ none | some d ↦ some (join d (split b'/' path)) ]

-- Where a relative path leads before its links are followed
unfoldable pub candidate : Guard → List ℕ → Parts
unfolding join clean split
candidate guard relative = join guard.root (clean false (split b'/' relative))

module _ (files : FileSystem) where
  unfoldable pub new_guard : List ℕ → ℤ → Resolved Guard
  unfolding abs clean
  new_guard root max_bytes = elim (abs files.work_dir root) [
    | none ↦ err no_work_dir
    | some p ↦
        ok (record { root = clean true (or_else p (files.eval_symlinks p)); max_bytes = max_bytes })
  ]

  abbrev pub sized : Guard → Parts → Option ℕ → Resolved Parts
  sized guard real none = err stat_failed
  sized guard real (some n) = if exceeds guard.max_bytes n then err file_too_large else ok real

  unfoldable pub real_read : Guard → Parts → Resolved Parts
  unfolding check_inside is_sensitive
  real_read guard real =
      if not (check_inside guard real)
      then err outside_workspace
      else if is_sensitive real
      then err sensitive_path
      else sized guard real (files.size real)

  unfoldable pub resolve_read : Guard → List ℕ → Resolved Parts
  unfolding real_read candidate check_inside
  resolve_read guard relative =
      let path = candidate guard relative in
      if starts_with_slash relative
      then err outside_workspace
      else if not (check_inside guard path)
      then err outside_workspace
      else real_read guard (or_else path (files.eval_symlinks path))

  unfoldable pub resolve_write : Guard → List ℕ → Resolved Parts
  unfolding candidate check_inside is_sensitive dir
  resolve_write guard relative =
      let path = candidate guard relative in
      let parent = or_else (dir path) (files.eval_symlinks (dir path)) in
      if starts_with_slash relative
      then err outside_workspace
      else if not (check_inside guard path)
      then err outside_workspace
      else if is_sensitive path
      then err sensitive_path
      else if not (check_inside guard parent)
      then err outside_workspace
      else ok path
