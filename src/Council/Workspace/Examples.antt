-- ===== src/Council/Workspace/Examples.antt =====
-- Workspace contexts that internal/council/engine.go accepts and refuses.
use ai_council.Prelude.{ℕ, ◌≡◌, ◌≤◌, ◌↔◌, refl, none, some, List, [], ◌∷◌, length, All, utf8_valid}
use ai_council.Schema.{WorkspaceFile}
use ai_council.Council.SafePath.{unix, is_safe_relative_path}
use ai_council.Council.Workspace.{
  max_workspace_files, max_workspace_total_bytes, invalid_utf8, validate_workspace_files,
}
use ai_council.Council.Workspace.Bounds.{total_bytes, IsSafeFile, validate_workspace_files_iff}

abbrev file : List ℕ → WorkspaceFile
file content = record { path = "go.mod"; content = content }

bad_bytes : validate_workspace_files unix (file (0xc0 ∷ 0x80 ∷ []) ∷ []) ≡ some invalid_utf8
unfolding validate_workspace_files is_safe_relative_path utf8_valid
bad_bytes = refl

abbrev files : List WorkspaceFile
files = file (0xe2 ∷ 0x82 ∷ 0xac ∷ []) ∷ []

accepted : validate_workspace_files unix files ≡ none
unfolding validate_workspace_files is_safe_relative_path utf8_valid
accepted = refl

validate_workspace_files_iff_example : (validate_workspace_files unix files ≡ none) ↔ (
    (length files ≤ max_workspace_files)
    × All (IsSafeFile unix) files
    × (total_bytes files ≤ max_workspace_total_bytes))
validate_workspace_files_iff_example = validate_workspace_files_iff unix files
