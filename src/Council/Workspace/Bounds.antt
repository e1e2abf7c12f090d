-- ===== src/Council/Workspace/Bounds.antt =====
-- Which workspace contexts internal/council/engine.go accepts.
use ai_council.Prelude.{
  ℕ, ◌+◌, ◌≤◌, ◌≡◌, ◌↔◌, refl, true, none, List, [], ◌∷◌, codes, length, utf8_valid, All, arith,
}
use ai_council.Schema.{WorkspaceFile}
use ai_council.Council.SafePath.{Platform, is_safe_relative_path}
use ai_council.Council.Workspace.{
  max_workspace_files, max_workspace_file_bytes, max_workspace_total_bytes, check_files,
  validate_workspace_files,
}

abbrev pub total_bytes : List WorkspaceFile → ℕ
total_bytes [] = 0
total_bytes (f ∷ fs) = length f.content + total_bytes fs

module _ (platform : Platform) where
  abbrev pub IsSafeFile : WorkspaceFile → Type 0
  IsSafeFile f =
      (is_safe_relative_path platform (codes f.path) ≡ true)
      × (utf8_valid f.content ≡ true)
      × (length f.content ≤ max_workspace_file_bytes)

  file_head :
      (total : ℕ) (f : WorkspaceFile) (fs : List WorkspaceFile)
      → (check_files platform total (f ∷ fs) ≡ none) ↔ (
          IsSafeFile f
          × (total + length f.content ≤ max_workspace_total_bytes)
          × (check_files platform (total + length f.content) fs ≡ none))
  unfolding check_files
  file_head total f fs = (λ h. ground arith, λ h. ground arith)

  check_files_iff :
      (total : ℕ) (fs : List WorkspaceFile)
      → total ≤ max_workspace_total_bytes
      → (check_files platform total fs ≡ none)
        ↔ (All IsSafeFile fs × (total + total_bytes fs ≤ max_workspace_total_bytes))
  unfolding check_files
  check_files_iff total [] small = (λ h. (tt, omega arith), λ h. refl)
  check_files_iff total (f ∷ fs) small = (
    λ h.
        let (safe, fits, rest) = (file_head total f fs).0 h in
        let (all_safe, bound) = (check_files_iff (total + length f.content) fs fits).0 rest in
        ((safe, all_safe), omega arith),
    λ h.
        let fits : total + length f.content ≤ max_workspace_total_bytes = omega (arith, h.1) in
        (file_head total f fs).1 (
          h.0.0,
          fits,
          (check_files_iff (total + length f.content) fs fits).1 (h.0.1, omega (arith, h.1)),
        ),
  )

  validate_head :
      (files : List WorkspaceFile)
      → (validate_workspace_files platform files ≡ none)
        ↔ ((length files ≤ max_workspace_files) × (check_files platform 0 files ≡ none))
  unfolding validate_workspace_files
  validate_head files = (λ h. ground arith, λ h. ground arith)

  -- A context is accepted exactly where it has at most 200 files, each with a safe path, valid UTF-8
  -- and at most 64 KiB, and at most 2 MiB together.
  pub validate_workspace_files_iff :
      (files : List WorkspaceFile)
      → (validate_workspace_files platform files ≡ none) ↔ (
          (length files ≤ max_workspace_files)
          × All IsSafeFile files
          × (total_bytes files ≤ max_workspace_total_bytes))
  validate_workspace_files_iff files = (
    λ h.
        let (few, rest) = (validate_head files).0 h in
        let (safe, total) = (check_files_iff 0 files (omega arith)).0 rest in
        (few, safe, omega arith),
    λ h.
        (validate_head files).1
          (h.0, (check_files_iff 0 files (omega arith)).1 (h.1, omega (arith, h.2))),
  )
