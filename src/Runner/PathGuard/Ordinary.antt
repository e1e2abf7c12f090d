-- ===== src/Runner/PathGuard/Ordinary.antt =====
-- What the guard of internal/runner/pathguard/guard.go makes of the path of an ordinary file.
use ai_council.Prelude.{
  ℕ, ◌≡◌, refl, ap, ◌∙◌, Bool, true, false, some, List, [], ◌∷◌, ◌++◌, ◌||◌, All, arith,
}
use ai_council.Rbac.Wildcard.{codes_eq_refl}
use ai_council.Rbac.Password.{split}
use ai_council.Council.SafePath.{is_nil, is_dot, is_dot_dot, starts_with_slash}
use ai_council.Runner.PathGuard.{
  Parts, FileSystem, Guard, ok, keep, walk, reverse_onto, clean, join, below, rel, leads_out,
  check_inside, is_sensitive, exceeds, real_read, candidate, resolve_read,
}

-- The component is the name of a file or a directory.
abbrev pub IsName : List ℕ → Type 0
IsName c = (is_nil c || is_dot c || is_dot_dot c) ≡ false

keep_name : (rooted : Bool) (kept : Parts) (c : List ℕ) → IsName c → keep rooted kept c ≡ c ∷ kept
unfolding keep
keep_name rooted kept c h = ground arith

walk_names :
    (rooted : Bool) (kept cs : Parts) → All IsName cs → walk rooted kept cs ≡ reverse_onto kept cs
unfolding walk reverse_onto
walk_names rooted kept [] h = refl
walk_names rooted kept (c ∷ cs) h =
    rw (keep_name rooted kept c h.0) (walk_names rooted (c ∷ kept) cs h.1)

reverse_onto_twice :
    (back kept cs : Parts)
    → reverse_onto back (reverse_onto kept cs) ≡ reverse_onto (cs ++ back) kept
unfolding reverse_onto
reverse_onto_twice back kept [] = refl
reverse_onto_twice back kept (c ∷ cs) = reverse_onto_twice back (c ∷ kept) cs

append_nil : (cs : Parts) → cs ++ [] ≡ cs
append_nil [] = refl
append_nil (c ∷ cs) = ap (λ (xs : Parts). c ∷ xs) (append_nil cs)

clean_names : (rooted : Bool) (cs : Parts) → All IsName cs → clean rooted cs ≡ cs
unfolding clean reverse_onto
clean_names rooted cs h =
    ap (reverse_onto []) (walk_names rooted [] cs h) ∙ (reverse_onto_twice [] [] cs ∙ append_nil cs)

All-append : (cs ds : Parts) → All IsName cs → All IsName ds → All IsName (cs ++ ds)
All-append [] ds g h = h
All-append (c ∷ cs) ds g h = (g.0, All-append cs ds g.1 h)

below_append : (base rest : Parts) → below base (base ++ rest) ≡ rest
unfolding below
below_append [] rest = refl
below_append (b ∷ base) rest = rw (codes_eq_refl b, below_append base rest) refl

leads_out_names : (cs : Parts) → All IsName cs → leads_out cs ≡ false
leads_out_names [] h = refl
leads_out_names (c ∷ cs) h = let k = h.0 in ground arith

module _ (files : FileSystem) (guard : Guard) (relative : List ℕ)
    (clean_root : All IsName guard.root) (named : All IsName (split b'/' relative)) where
  abbrev place : Parts
  place = guard.root ++ split b'/' relative

  candidate_names : candidate guard relative ≡ place
  unfolding candidate join
  candidate_names =
      rw (clean_names false (split b'/' relative) named)
        (clean_names true place (All-append guard.root (split b'/' relative) clean_root named))

  check_inside_names : check_inside guard place ≡ true
  unfolding check_inside rel
  check_inside_names =
      rw
        (
          clean_names true guard.root clean_root,
          clean_names true place (All-append guard.root (split b'/' relative) clean_root named),
          below_append guard.root (split b'/' relative),
          leads_out_names (split b'/' relative) named,
        )
        refl

-- A relative path of names is given out for reading, as that path from the root, where the path has no
-- symbolic link and is not that of a sensitive file, and the file exists within the limit of the size.
pub ordinary_file_resolves :
    (files : FileSystem) (guard : Guard) (relative : List ℕ) (size : ℕ)
    → All IsName guard.root
    → All IsName (split b'/' relative)
    → starts_with_slash relative ≡ false
    → files.eval_symlinks (guard.root ++ split b'/' relative)
      ≡ some (guard.root ++ split b'/' relative)
    → is_sensitive (guard.root ++ split b'/' relative) ≡ false
    → files.size (guard.root ++ split b'/' relative) ≡ some size
    → exceeds guard.max_bytes size ≡ false
    → resolve_read files guard relative ≡ ok (guard.root ++ split b'/' relative)
unfolding resolve_read real_read
ordinary_file_resolves files guard relative size root named relative_only no_link harmless exists_
      small =
    rw
      (
        relative_only,
        candidate_names files guard relative root named,
        check_inside_names files guard relative root named,
        no_link,
        check_inside_names files guard relative root named,
        harmless,
        exists_,
        small,
      )
      refl
