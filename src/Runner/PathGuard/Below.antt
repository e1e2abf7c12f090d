-- ===== src/Runner/PathGuard/Below.antt =====
-- Where the paths lead that the guard of internal/runner/pathguard/guard.go gives out.
use ai_council.Prelude.{
  ℕ, ◌≡◌, refl, sym, inl, inr, Bool, true, false, false≢true, Option, none, some, List, [], ◌∷◌,
  ◌++◌, Bool-cases, arith, not, if◌then◌else◌,
}
use ai_council.Rbac.Wildcard.{codes_eq, codes_eq_sound}
use ai_council.Council.SafePath.{starts_with_slash}
use ai_council.Runner.PathGuard.{
  Parts, FileSystem, Guard, Resolved, Error, ok, err, clean, below, rel, leads_out, check_inside,
  is_sensitive, dir, or_else, exceeds, sized, real_read, candidate, resolve_read, resolve_write,
}

-- Without its `.` and `..`, the path goes on from the root.
abbrev pub IsBelow : Parts → Parts → Type 0
IsBelow root path = (rest : Parts) × (clean true path ≡ clean true root ++ rest)

below-prefix :
    (base target : Parts)
    → leads_out (below base target) ≡ false
    → (rest : Parts) × (target ≡ base ++ rest)
unfolding below
below-prefix [] target h = (target, refl)
below-prefix (b ∷ base) [] h = absurd (false≢true (sym h))
below-prefix (b ∷ base) (c ∷ target) h = elim (Bool-cases (codes_eq b c)) [
  | inl e ↦
      let (rest, q) =
        below-prefix base target (let k : leads_out (below base target) ≡ false = rw e at h in k) in
      (rest, rw (codes_eq_sound b c e, q) refl)
  | inr e ↦ absurd (false≢true (sym (rw e at h)))
]

check_inside-IsBelow :
    (guard : Guard) (path : Parts) → check_inside guard path ≡ true → IsBelow guard.root path
unfolding check_inside rel
check_inside-IsBelow guard path h =
    below-prefix (clean true guard.root) (clean true path) (ground arith)

pub record IsReadable (files : FileSystem) (guard : Guard) (from path : Parts) : Type 0 where
  pub followed : path ≡ or_else from (files.eval_symlinks from)
  pub inside : IsBelow guard.root path
  pub harmless : is_sensitive path ≡ false
  pub size : ℕ
  pub exists_ : files.size path ≡ some size
  pub small : exceeds guard.max_bytes size ≡ false

pub record IsWritable (files : FileSystem) (guard : Guard) (path : Parts) : Type 0 where
  pub inside : IsBelow guard.root path
  pub harmless : is_sensitive path ≡ false
  pub parent_inside : IsBelow guard.root (or_else (dir path) (files.eval_symlinks (dir path)))

passed :
    {A : Type 0} (test : Bool) (e : Error) (next : Resolved A) {a : A}
    → (if test then err e else next) ≡ ok a
    → (test ≡ false) × (next ≡ ok a)
passed true e next h = ground arith
passed false e next h = (refl, h)

within : (test : Bool) → not test ≡ false → test ≡ true
within test h = ground arith

module _ (files : FileSystem) (guard : Guard) where
  sized-ok :
      (real path : Parts) (size : Option ℕ)
      → sized files guard real size ≡ ok path
      → (n : ℕ) × (size ≡ some n) × (exceeds guard.max_bytes n ≡ false) × (real ≡ path)
  sized-ok real path none h = ground arith
  sized-ok real path (some n) h =
      let (small, e) = passed (exceeds guard.max_bytes n) _ _ h in (n, refl, small, ground arith)

  real_read-IsReadable :
      (from path : Parts)
      → real_read files guard (or_else from (files.eval_symlinks from)) ≡ ok path
      → IsReadable files guard from path
  unfolding real_read
  real_read-IsReadable from path h =
      let real = or_else from (files.eval_symlinks from) in
      let (i, h1) = passed (not (check_inside guard real)) _ _ h in
      let (s, h2) = passed (is_sensitive real) _ _ h1 in
      let (n, e, small, q) = sized-ok real path (files.size real) h2 in
      rw (← q) (record {
        followed = refl;
        inside = check_inside-IsBelow guard real (within (check_inside guard real) i);
        harmless = s;
        size = n;
        exists_ = e;
        small = small;
      })

  -- A path that is given out for reading is the requested one with its symbolic links followed; it is
  -- the root or leads on from the root, is not that of a sensitive file, and has a size within the
  -- limit.
  pub resolve_read-IsReadable :
      (relative : List ℕ) (path : Parts)
      → resolve_read files guard relative ≡ ok path
      → IsReadable files guard (candidate guard relative) path
  unfolding resolve_read
  resolve_read-IsReadable relative path h =
      let from = candidate guard relative in
      let (a, h1) = passed (starts_with_slash relative) _ _ h in
      let (i, h2) = passed (not (check_inside guard from)) _ _ h1 in
      real_read-IsReadable from path h2

  -- A path that is given out for writing is the root or leads on from the root, as does its directory
  -- with its symbolic links followed, and is not that of a sensitive file.
  pub resolve_write-IsWritable :
      (relative : List ℕ) (path : Parts)
      → resolve_write files guard relative ≡ ok path
      → IsWritable files guard path
  unfolding resolve_write
  resolve_write-IsWritable relative path h =
      let from = candidate guard relative in
      let parent = or_else (dir from) (files.eval_symlinks (dir from)) in
      let (a, h1) = passed (starts_with_slash relative) _ _ h in
      let (i, h2) = passed (not (check_inside guard from)) _ _ h1 in
      let (s, h3) = passed (is_sensitive from) _ _ h2 in
      let (j, h4) = passed (not (check_inside guard parent)) _ _ h3 in
      let q : from ≡ path = cc h4 in
      rw (← q) (record {
        inside = check_inside-IsBelow guard from (within (check_inside guard from) i);
        harmless = s;
        parent_inside = check_inside-IsBelow guard parent (within (check_inside guard parent) j);
      })
