-- ===== src/Council/Workspace.antt =====
-- `validateWorkspaceFiles` of internal/council/engine.go. The sum of the sizes stays far below
-- 2 ^ 63: it is checked after each file, and a file has at most 64 KiB.
pub mod Bounds
mod Examples
use ai_council.Prelude.{
  ℕ, ◌+◌, Bool, true, false, not, Option, none, some, List, [], ◌∷◌, ltb, codes, length, utf8_valid,
  if◌then◌else◌,
}
use ai_council.Schema.{WorkspaceFile}
use ai_council.Council.SafePath.{Platform, is_safe_relative_path}

pub data WorkspaceError : Type 0 where
  too_many_files unsafe_path invalid_utf8 file_too_large total_too_large : WorkspaceError

abbrev pub max_workspace_files : ℕ
max_workspace_files = 200

abbrev pub max_workspace_file_bytes : ℕ
max_workspace_file_bytes = 65536

abbrev pub max_workspace_total_bytes : ℕ
max_workspace_total_bytes = 2097152

module _ (platform : Platform) where
  -- The loop over the files, with the total so far; `none` is the error `nil`.
  unfoldable pub check_files : ℕ → List WorkspaceFile → Option WorkspaceError
  check_files total [] = none
  check_files total (f ∷ fs) =
      let rest = check_files (total + length f.content) fs in
      if not (is_safe_relative_path platform (codes f.path))
      then some unsafe_path
      else if not (utf8_valid f.content)
      then some invalid_utf8
      else if ltb max_workspace_file_bytes (length f.content)
      then some file_too_large
      else if ltb max_workspace_total_bytes (total + length f.content)
      then some total_too_large
      else rest

  unfoldable pub validate_workspace_files : List WorkspaceFile → Option WorkspaceError
  unfolding check_files
  validate_workspace_files files =
      if ltb max_workspace_files (length files) then some too_many_files else check_files 0 files
