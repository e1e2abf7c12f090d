-- ===== src/TaskApi/Start.antt =====
-- `startTask` of internal/transport/council/routes.go. It gives up the lock while the council works,
-- so it is a sequence of sections, each of which runs under the lock.
use ai_council.Prelude.{
  pos, String, Bool, true, false, Option, none, some, List, [], ◌∷◌, items, copied, int_eq, ◌||◌,
  if◌then◌else◌,
}
use ai_council.Schema.{ExecutionPlan, WorkspaceFile}
use ai_council.RunState.{State, state_eq}
use ai_council.Approval.{hash}
use ai_council.Council.Workflow.{Stage}
use ai_council.Council.Plan.{is_empty_list}
use ai_council.Storage.Sql.{Result, ok, err}
use ai_council.TaskApi.{
  Task, Server, Act, ◌>>=◌, ◌>>◌, pure, refuse, the_ctx, count, set_task, or_refuse, council_runs,
  council_failures, transition_task,
}

-- A deliberation with a progress callback: it reports stages, and may go on differently where the
-- callback returned an error (`true`).
pub data Deliberation : Type 0 where
  answered : ExecutionPlan → Deliberation
  gave_up : Deliberation
  reports : Stage → (Bool → Deliberation) → Deliberation

-- A `CouncilPort`, and whether it also is a `WorkspaceCouncilPort` and takes a callback.
pub record Council : Type 0 where
  pub takes_workspace : Bool
  pub takes_progress : Bool
  pub analyze : String → Bool  -- `false` for an error
  pub deliberate : String → List WorkspaceFile → Deliberation

-- The runner as a reader of the workspace: `none` where it is not one; a response may hold `nil`.
abbrev pub Reader : Type 0
Reader = Option (String → Option (List (Option WorkspaceFile)))

abbrev pub stage_state : Stage → State
stage_state Stage.analyzing = State.analyzing
stage_state Stage.proposing = State.proposing
stage_state Stage.reviewing = State.reviewing
stage_state Stage.judging = State.judging
stage_state Stage.redteam = State.red_team

present : List (Option WorkspaceFile) → List WorkspaceFile
present [] = []
present (none ∷ files) = present files
present (some file ∷ files) = file ∷ present files

unfoldable pub read_files : Reader → Bool → String → Act (List WorkspaceFile)
unfolding present
read_files reader false workspace = pure []
read_files none true workspace = refuse 503 "runner_unavailable"
read_files (some read) true workspace = elim (read workspace) [
  | none ↦ refuse 502 "runner_unavailable"
  | some files ↦ pure (present files)
]

-- `len(t.Plan.Acceptance) == 0`
with_acceptance : Task → Task
with_acceptance t =
    if is_empty_list (items t.plan.acceptance)
    then record t { plan = record t.plan { acceptance = copied (items t.acceptance) } }
    else t

-- What the plan of the council changes in the task.
unfoldable pub with_plan : Option ExecutionPlan → Task → Task
unfolding with_acceptance
with_plan none t = t
with_plan (some plan) t = with_acceptance (
    if int_eq plan.version (pos 0)
    then record t { plan = record plan { version = t.plan_version } }
    else record t { plan = plan; plan_version = plan.version })

abbrev pub is_before_plan : State → Bool
is_before_plan s = state_eq s State.draft || state_eq s State.analyzing

unfoldable pub after_report :
    (Bool → Act (Option ExecutionPlan)) → Result (Unit {0}) → Act (Option ExecutionPlan)
after_report resume (ok _) = resume false
after_report resume (err e) = resume true

module _ (server : Server) where
  unfoldable pub guard_draft : Act (Unit {0})
  unfolding state_eq
  guard_draft = do
    c ← the_ctx
    if state_eq c.task.state State.draft then pure tt else refuse 409 "invalid_state"

  -- After the analysis: DRAFT to ANALYZING.
  unfoldable pub begin_analysis : Act (Unit {0})
  unfolding guard_draft transition_task
  begin_analysis = do
    guard_draft
    moved ← transition_task server State.analyzing
    or_refuse "task_persistence_failed" moved

  -- The callback
  unfoldable pub report_stage : Stage → Act (Result (Unit {0}))
  unfolding transition_task
  report_stage Stage.analyzing = pure (ok tt)
  report_stage stage = transition_task server (stage_state stage)

  unfoldable pub mark_failed : Act (Unit {0})
  unfolding state_eq transition_task
  mark_failed = do
    c ← the_ctx
    if state_eq c.task.state State.failed
        then pure tt
        else (do transition_task server State.failed; pure tt)

  -- Where the deliberation returned an error
  unfoldable pub fail_deliberation : Act (Unit {0})
  unfolding mark_failed
  fail_deliberation = do count council_failures; mark_failed; refuse 502 "council_failed"

  unfoldable pub store_hash : Option String → Act (Unit {0})
  store_hash none = refuse 500 "plan_hash_failed"
  store_hash (some h) = do c ← the_ctx; set_task (record c.task { approval_hash = h })

  -- The new plan and its hash are stored, and the approval is waited for.
  unfoldable pub await_approval : Task → Act (Unit {0})
  unfolding store_hash transition_task
  await_approval t = do
    set_task t
    store_hash (hash server.digest t.id t.workspace_id t.plan)
    moved ← transition_task server State.awaiting_approval
    or_refuse "task_persistence_failed" moved

  -- The last section
  unfoldable pub conclude : Option ExecutionPlan → Act (Unit {0})
  unfolding with_plan state_eq await_approval
  conclude plan = do
    c ← the_ctx
    if is_before_plan c.task.state
        then await_approval (with_plan plan c.task)
        else refuse 409 "invalid_state"

  unfoldable pub with_callback : Deliberation → Act (Option ExecutionPlan)
  unfolding report_stage after_report
  with_callback (Deliberation.answered plan) = pure (some plan)
  with_callback Deliberation.gave_up = pure none
  with_callback (Deliberation.reports stage next) = do
    reported ← report_stage stage
    elim reported [ ok _ ↦ with_callback (next false) | err e ↦ with_callback (next true) ]

  -- The same deliberation without a callback, which then never fails.
  without_callback : Deliberation → Option ExecutionPlan
  without_callback (Deliberation.answered plan) = some plan
  without_callback Deliberation.gave_up = none
  without_callback (Deliberation.reports stage next) = without_callback (next false)

  unfoldable pub deliberate : Council → String → List WorkspaceFile → Act (Option ExecutionPlan)
  unfolding with_callback without_callback
  deliberate council requirement files =
      if council.takes_progress
      then with_callback (council.deliberate requirement files)
      else pure (without_callback (council.deliberate requirement files))

  unfoldable pub analyzed : Council → String → Act (Unit {0})
  analyzed council requirement = do
    count council_runs
    if council.analyze requirement
        then pure tt
        else (do count council_failures; refuse 502 "council_unavailable")

  unfoldable pub concluded : Option ExecutionPlan → Act ExecutionPlan
  unfolding fail_deliberation
  concluded (some plan) = pure plan
  concluded none = do fail_deliberation; refuse 502 "council_failed"

  -- The part under `if a.council != nil`.
  unfoldable pub consult : Council → String → List WorkspaceFile → Act ExecutionPlan
  unfolding analyzed begin_analysis deliberate concluded
  consult council requirement files = do
    analyzed council requirement
    begin_analysis
    result ← deliberate council requirement files
    concluded result

  -- `startTask`, with no other handler between its sections.
  unfoldable pub start_task : Option Council → Reader → Act (Unit {0})
  unfolding guard_draft consult read_files conclude
  start_task none reader = do guard_draft; conclude none
  start_task (some council) reader = do
    guard_draft
    c ← the_ctx
    files ← read_files reader council.takes_workspace c.task.workspace_id
    plan ← consult council c.task.requirement files
    conclude (some plan)
