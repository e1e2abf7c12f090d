-- ===== src/Council/Workflow.antt =====
-- internal/council/workflow.go: the stages of a deliberation, one after the other, with a report of
-- its progress.
pub mod Stages
pub mod Examined
mod Examples
use ai_council.Prelude.{
  ℕ, String, Bool, true, false, not, ◌||◌, Option, none, some, List, [], ◌∷◌, ◌++◌, is_empty, items,
  copied, if◌then◌else◌,
}
use ai_council.Schema.{
  TaskBrief, WorkspaceFile, Proposal, PeerReview, ExecutionPlan, CouncilDecision, RedTeamReport,
}
use ai_council.Provider.{Registry}
use ai_council.Council.SafePath.{Platform}
use ai_council.Council.Plan.{Built, built, refused, build_execution_plan}
use ai_council.Council.Review.{Reviews}
use ai_council.Council.Engine.{
  Seat, Generated, CouncilError, engine_required, requirement_required, seats_incomplete,
  invalid_plan, progress_failed, Outcome, ok, err, Dialogue, propose, judge, red_team, no_seats,
}

pub data Stage : Type 0 where
  analyzing proposing reviewing judging redteam : Stage

-- The engine and its registry are `none` where the pointers are `nil`.
pub record Workflow : Type 0 where
  pub engine : Option (Option Registry)
  pub proposers : List Seat
  pub reviewers : List Seat
  pub judge_seat : Seat
  pub red_team_seat : Seat

-- A computation that reports stages: the reports so far come first, the last report last.
abbrev pub Reporting : Type 0 → Type 0
Reporting A = List Stage → Outcome A × List Stage

abbrev pub continue : {A B : Type 0} → Outcome A → (A → Reporting B) → Reporting B
continue (ok a) f stages = f a stages
continue (err e) f stages = (err e, stages)

infixl 10 ◌>>=◌ ◌>>◌
abbrev pub ◌>>=◌ : {A B : Type 0} → Reporting A → (A → Reporting B) → Reporting B
◌>>=◌ m f stages = continue (m stages).0 f (m stages).1

abbrev pub ◌>>◌ : {A B : Type 0} → Reporting A → Reporting B → Reporting B
m >> n = m >>= λ _. n

abbrev pub lift : {A : Type 0} → Outcome A → Reporting A
lift o stages = (o, stages)

-- `progress(stage)`: `none` where there is no callback; the callback may refuse a stage.
unfoldable pub report : Option (Stage → Option ℕ) → Stage → Reporting (Unit {0})
report none stage stages = (ok tt, stages)
report (some progress) stage stages = elim (progress stage) [
  | none ↦ (ok tt, stages ++ stage ∷ [])
  | some e ↦ (err (progress_failed e), stages ++ stage ∷ [])
]

-- `Analyze`, which returns the engine's registry here
unfoldable pub analyze : Workflow → String → Outcome (Option Registry)
analyze w requirement = elim w.engine [
  | none ↦ err engine_required
  | some registry ↦
      if is_empty requirement
      then err requirement_required
      else if no_seats w.proposers
          || no_seats w.reviewers
          || is_empty w.judge_seat.id
          || is_empty w.red_team_seat.id
      then err seats_incomplete
      else ok registry
]

abbrev pub plan_of : Built → Outcome ExecutionPlan
plan_of (built plan) = ok plan
plan_of (refused e) = err (invalid_plan e)

-- `Propose` has refused a `nil` registry before `Judge` and `RedTeam` use it.
abbrev pub registered : Option Registry → Registry
registered none = λ name. none
registered (some registry) = registry

-- What `Engine.Review` returns under one schedule of its goroutines, which is one of the results that
-- it can return.
pub record ReviewSchedule (dialogue : Dialogue) : Type 0 where
  pub outcome :
      Registry → List (Generated Proposal) → List Seat → Outcome (List (Generated PeerReview))
  pub possible :
      (registry : Registry) (proposals : List (Generated Proposal)) (reviewers : List Seat)
      → Reviews dialogue registry proposals reviewers (outcome registry proposals reviewers)

module _ (dialogue : Dialogue) (platform : Platform) (review : ReviewSchedule dialogue) where
  unfoldable pub deliberate_progress :
      Workflow → TaskBrief → Option (Stage → Option ℕ) → Reporting ExecutionPlan
  unfolding analyze report
  deliberate_progress w brief progress = do
    registry ← lift (analyze w brief.requirement)
    report progress analyzing
    proposals ← lift (propose dialogue platform registry brief w.proposers)
    report progress proposing
    reviews ← lift (review.outcome (registered registry) proposals w.reviewers)
    report progress reviewing
    decision ← lift (judge dialogue (registered registry) proposals reviews w.judge_seat)
    report progress judging
    findings ← lift (red_team dialogue (registered registry) decision.value w.red_team_seat)
    report progress redteam
    lift (plan_of (build_execution_plan platform decision.value findings.value []))

  abbrev brief_of : String → List WorkspaceFile → TaskBrief
  brief_of requirement files = record {
    requirement = requirement;
    constraints = none;
    acceptance = none;
    workspace_facts = none;
    workspace_files = copied files;
  }

  unfoldable pub deliberate : Workflow → String → Outcome ExecutionPlan
  unfolding deliberate_progress
  deliberate w requirement = (deliberate_progress w (brief_of requirement []) none []).0

  unfoldable pub deliberate_with_workspace :
      Workflow → String → List WorkspaceFile → Outcome ExecutionPlan
  unfolding deliberate_progress
  deliberate_with_workspace w requirement files =
      (deliberate_progress w (brief_of requirement files) none []).0

  unfoldable pub deliberate_with_workspace_progress :
      Workflow
      → String
      → List WorkspaceFile
      → (Stage → Option ℕ)
      → Outcome ExecutionPlan × List Stage
  unfolding deliberate_progress
  deliberate_with_workspace_progress w requirement files progress =
      deliberate_progress w (brief_of requirement files) (some progress) []
