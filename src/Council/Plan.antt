-- ===== src/Council/Plan.antt =====
-- `BuildExecutionPlan` of internal/council/engine.go.
pub mod Checks
mod Examples
use ai_council.Prelude.{
  ℕ, ℤ, String, Bool, true, false, not, ◌&&◌, ◌||◌, List, [], ◌∷◌, ◌++◌, is_positive, codes, items,
  copied, if◌then◌else◌,
}
use ai_council.Schema.{Command, Patch, ExecutionPlan, CouncilDecision, RedTeamReport}
use ai_council.Council.SafePath.{
  Platform, is_nil, trim_space, is_safe_relative_path, is_safe_work_dir,
}

pub data PlanError : Type 0 where
  blocking_findings empty_plan bad_version unsafe_patch_path bad_command unsafe_work_dir : PlanError

pub data Built : Type 0 where
  built : ExecutionPlan → Built
  refused : PlanError → Built

abbrev pub is_empty_list {ℓ} : {A : Type ℓ} → List A → Bool
is_empty_list [] = true
is_empty_list (x ∷ xs) = false

module _ (platform : Platform) where
  -- The loop over the patches; `rest` is what follows it.
  unfoldable pub check_patches : List Patch → Built → Built
  check_patches [] rest = rest
  check_patches (p ∷ ps) rest =
      if not (is_safe_relative_path platform (codes p.path))
      then refused unsafe_patch_path
      else check_patches ps rest

  -- The loop over the commands
  unfoldable pub check_commands : List Command → Built → Built
  check_commands [] rest = rest
  check_commands (c ∷ cs) rest =
      if is_nil (trim_space (codes c.executable)) || not (is_positive c.timeout_seconds)
      then refused bad_command
      else if not (is_safe_work_dir platform (codes c.work_dir))
      then refused unsafe_work_dir
      else check_commands cs rest

  unfoldable pub build_execution_plan : CouncilDecision → RedTeamReport → List String → Built
  unfolding check_patches check_commands
  build_execution_plan decision report acceptance =
      let plan = decision.plan in
      if not (is_empty_list (items report.blocking))
      then refused blocking_findings
      else if is_empty_list (items plan.patches) && is_empty_list (items plan.commands)
      then refused empty_plan
      else if not (is_positive plan.version)
      then refused bad_version
      else check_patches (items plan.patches) (
          check_commands (items plan.commands ++ items plan.verification_commands)
            (built (record plan { acceptance = copied acceptance })))
