-- ===== src/Runner/PathGuard/Examples.antt =====
-- The guard of internal/runner/pathguard/guard.go over a workspace in /w, where `out` is a link to
-- /etc.
use ai_council.Prelude.{pos, ◌≡◌, refl, some, [], ◌∷◌, codes, if◌then◌else◌}
use ai_council.Rbac.Wildcard.{has_prefix}
use ai_council.Rbac.Password.{split}
use ai_council.Runner.PathGuard.{
  Parts, FileSystem, Guard, ok, err, outside_workspace, sensitive_path, file_too_large, new_guard,
  candidate, resolve_read, resolve_write, is_sensitive,
}
use ai_council.Runner.PathGuard.Below.{
  IsReadable, IsWritable, resolve_read-IsReadable, resolve_write-IsWritable,
}
use ai_council.Runner.PathGuard.Ordinary.{ordinary_file_resolves}

abbrev root : Parts
root = codes "w" ∷ []

abbrev followed : Parts → Parts
followed (w ∷ name ∷ rest) =
    if has_prefix name (codes "out") then codes "etc" ∷ rest else w ∷ name ∷ rest
followed path = path

abbrev files : FileSystem
files = record {
  eval_symlinks = λ p. some (followed p);
  size = λ p. some 12;
  work_dir = some (codes "home" ∷ []);
}

abbrev guard : Guard
guard = record { root = root; max_bytes = pos 100 }

abbrev main_go : Parts
main_go = codes "w" ∷ codes "src" ∷ codes "main.go" ∷ []

guarded : new_guard files (codes "../w/./") (pos 100) ≡ ok guard
unfolding new_guard split
guarded = refl

climbs_out : resolve_read files guard (codes "src/../../etc/passwd") ≡ err outside_workspace
unfolding resolve_read split
climbs_out = refl

links_out : resolve_read files guard (codes "out/passwd") ≡ err outside_workspace
unfolding resolve_read split
links_out = refl

written_out : resolve_write files guard (codes "out/passwd") ≡ err outside_workspace
unfolding resolve_write split
written_out = refl

keys : resolve_write files guard (codes "src/Server.PEM") ≡ err sensitive_path
unfolding resolve_write split
keys = refl

too_large :
    resolve_read files (record guard { max_bytes = pos 11 }) (codes "a.go") ≡ err file_too_large
unfolding resolve_read split
too_large = refl

ordinary_file_resolves_example : resolve_read files guard (codes "src/main.go") ≡ ok main_go
unfolding split is_sensitive
ordinary_file_resolves_example =
    ordinary_file_resolves files guard (codes "src/main.go") 12 (refl, tt) (refl, (refl, tt)) refl
      refl refl refl refl

readable : resolve_read files guard (codes "src/main.go") ≡ ok main_go
unfolding resolve_read split
readable = refl

resolve_read-IsReadable_example :
    IsReadable files guard (candidate guard (codes "src/main.go")) main_go
resolve_read-IsReadable_example =
    resolve_read-IsReadable files guard (codes "src/main.go") main_go readable

writable : resolve_write files guard (codes "src/main.go") ≡ ok main_go
unfolding resolve_write split
writable = refl

resolve_write-IsWritable_example : IsWritable files guard main_go
resolve_write-IsWritable_example =
    resolve_write-IsWritable files guard (codes "src/main.go") main_go writable
