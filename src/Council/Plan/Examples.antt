-- ===== src/Council/Plan/Examples.antt =====
-- Plans that internal/council/engine.go builds and refuses.
use ai_council.Prelude.{String, pos, ◌≡◌, ◌↔◌, refl, none, some, [], ◌∷◌, copied}
use ai_council.Schema.{Command, Patch, ExecutionPlan, CouncilDecision, RedTeamReport, no_plan}
use ai_council.Council.SafePath.{unix, is_safe_relative_path, is_safe_work_dir}
use ai_council.Council.Plan.{built, refused, unsafe_patch_path, build_execution_plan}
use ai_council.Council.Plan.Checks.{IsExecutable, build_execution_plan_iff}

abbrev build : Command
build = record {
  executable = "go";
  args = some ("build" ∷ []);
  work_dir = ".";
  timeout_seconds = pos 60;
  purpose = "build";
}

abbrev patch : String → Patch
patch path = record { path = path; unified_diff = ""; before_hash = "" }

abbrev plan : String → ExecutionPlan
plan path = record no_plan {
  version = pos 2;
  patches = some (patch path ∷ []);
  commands = some (build ∷ []);
}

abbrev decision : String → CouncilDecision
decision path = record {
  selected_aliases = none;
  reasons = none;
  rejected = none;
  plan_summary = none;
  plan = plan path;
}

abbrev clear : RedTeamReport
clear = record { blocking = none; non_blocking = none; recommendation = "go" }

abbrev result : ExecutionPlan
result = record (plan "src/main.go") { acceptance = copied ("it builds" ∷ []) }

builds : build_execution_plan unix (decision "src/main.go") clear ("it builds" ∷ []) ≡ built result
unfolding build_execution_plan is_safe_relative_path is_safe_work_dir
builds = refl

refuses :
    build_execution_plan unix (decision "src/../../main.go") clear [] ≡ refused unsafe_patch_path
unfolding build_execution_plan is_safe_relative_path is_safe_work_dir
refuses = refl

build_execution_plan_iff_example :
    (build_execution_plan unix (decision "src/main.go") clear ("it builds" ∷ []) ≡ built result) ↔ (
      IsExecutable unix (decision "src/main.go") clear
      × (record (decision "src/main.go").plan { acceptance = copied ("it builds" ∷ []) } ≡ result))
build_execution_plan_iff_example =
    build_execution_plan_iff unix (decision "src/main.go") clear ("it builds" ∷ []) result
