-- ===== src/Runner/Diff/Examples.antt =====
-- A diff of internal/runner/files/transaction.go that replaces one line.
use ai_council.Prelude.{◌≡◌, refl, false, some, [], ◌∷◌, codes}
use ai_council.Runner.Diff.{header, apply_lines, apply_unified_diff, panicked, patched}
use ai_council.Runner.Diff.Hunks.{
  Hunk, keep, drop, add, IsPlaced, diff_lines, old_text, new_text, hunks_apply,
}

abbrev hunk : Hunk
hunk = record {
  gap = codes "a" ∷ [];
  first = codes "@@ -2,2 +2,2 @@";
  edits = drop (codes "b") ∷ add (codes "x") ∷ keep (codes "c") ∷ [];
}

placed : IsPlaced 0 (hunk ∷ [])
unfolding IsPlaced header
placed = (refl, refl, tt)

hunks_apply_example :
    apply_lines false (diff_lines (hunk ∷ [])) 0 (old_text (hunk ∷ []) (codes "d" ∷ []))
    ≡ some (new_text (hunk ∷ []) (codes "d" ∷ []))
hunks_apply_example = hunks_apply false (hunk ∷ []) 0 (codes "d" ∷ []) placed

whole :
    apply_unified_diff (codes "a\nb\n") (codes "--- f\n+++ f\n@@ -2 +2 @@\n-b\r\n+x\n")
    ≡ patched (codes "a\nx\n")
unfolding apply_unified_diff header
whole = refl

-- A diff of one line, with the name of a file, is out of bounds.
name_only : apply_unified_diff (codes "a\n") (codes "--- f") ≡ panicked
unfolding apply_unified_diff
name_only = refl
