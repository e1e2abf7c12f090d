-- ===== src/TaskApi/Execute.antt =====
-- `executeTask` of internal/transport/council/routes.go: an approval is used up, and the plan goes to
-- the runner.
use ai_council.Prelude.{
  ℕ, ℤ, pos, negsuc, ◌-◌, ◌%◌, ◌^◌, String, Bool, true, false, Option, none, some, ◌∷◌, map, items,
  ltb, str_eq, not, ◌&&◌, ◌+++◌, itoa, if◌then◌else◌,
}
use ai_council.Schema.{Patch, Command}
use ai_council.RunState.{State, state_eq}
use ai_council.Storage.Approvals.{consume_and_mark_executing}
use ai_council.TaskApi.{
  Task, Response, ApprovedPatch, ApprovedCommand, Request, EventData, Server, Act, go, ◌>>=◌, ◌>>◌,
  pure, refuse, the_ctx, count, set_task, set_state, db_call, or_refuse, executions,
  execution_failures, append_event, persist_task,
}

-- `int32(i)`
unfoldable pub signed : ℕ → ℤ
signed n = if ltb n (2 ^ 31) then pos n else negsuc (2 ^ 32 - n - 1)

unfoldable pub int32 : ℤ → ℤ
unfolding signed
int32 (pos n) = signed (n % 2 ^ 32)
int32 (negsuc n) = signed (2 ^ 32 - 1 - n % 2 ^ 32)

unfoldable pub approved_patch : Patch → ApprovedPatch
approved_patch p = record {
  path = p.path;
  unified_diff = p.unified_diff;
  before_hash = p.before_hash;
}

unfoldable pub approved_command : Command → ApprovedCommand
unfolding int32
approved_command c = record {
  executable = c.executable;
  args = items c.args;
  work_dir = c.work_dir;
  timeout_seconds = int32 c.timeout_seconds;
  purpose = c.purpose;
}

-- What is sent; a repeated field does not tell `nil` from an empty slice.
unfoldable pub request_of : Task → Request
unfolding approved_patch approved_command int32 itoa
request_of t = record {
  request_id = t.id +++ ":" +++ itoa t.plan_version;
  run_id = t.id;
  workspace_id = t.workspace_id;
  plan_version = int32 t.plan_version;
  approval_hash = t.approval_hash;
  acceptance = items t.plan.acceptance;
  patches = map approved_patch (items t.plan.patches);
  commands = map approved_command (items t.plan.commands);
  verification_commands = map approved_command (items t.plan.verification_commands);
}

-- The runner: `none` for an error of the call, `some none` for a response `nil`.
abbrev pub Runner : Type 0
Runner = Request → Option (Option Response)

unfoldable pub send : Runner → Act (Option (Option Response))
unfolding request_of
send runner = do
  c ← the_ctx
  let request = request_of c.task
  λ d. (go (runner request), record d { sent = request ∷ d.sent })

pub is_success : Option Response → Bool
is_success none = false
is_success (some r) = str_eq r.status "SUCCEEDED"

error_code : Option Response → String
error_code none = "runner returned no result"
error_code (some r) = r.error_code

module _ (server : Server) where
  -- The tests of the state: whether an execution is taken up again.
  unfoldable pub may_execute : Act Bool
  unfolding state_eq
  may_execute = do
    c ← the_ctx
    let resuming = state_eq c.task.state State.executing
    if not (state_eq c.task.state State.awaiting_approval) && not resuming
        then (if not c.task.approved
            then refuse 403 "approval_required"
            else refuse 409 "invalid_state")
        else if not c.task.approved && not resuming
        then refuse 403 "approval_required"
        else pure resuming

  unfoldable pub use_approval : Act (Unit {0})
  unfolding consume_and_mark_executing
  use_approval = do
    c ← the_ctx
    if server.db
        then (do
          answer ← db_call (
              consume_and_mark_executing server.host c.task.id c.task.plan_version
                c.task.approval_hash)
          consumed ← or_refuse "approval_persistence_failed" answer
          if consumed then pure tt else refuse 409 "approval_consumed")
        else pure tt

  unfoldable pub change_state : State → Act (Unit {0})
  unfolding append_event
  change_state state = do
    appended ← append_event server "state.changed" (EventData.the_state state)
    or_refuse "event_persistence_failed" appended

  -- From AWAITING_APPROVAL to EXECUTING, by way of the approval.
  unfoldable pub start_executing : Bool → Act (Unit {0})
  unfolding use_approval change_state
  start_executing true = pure tt
  start_executing false = do use_approval; set_state State.executing; change_state State.executing

  -- `t.State = …`, then `persistTask` and `append`
  unfoldable pub enter : State → Act (Unit {0})
  unfolding persist_task change_state
  enter state = do
    set_state state
    saved ← persist_task server
    or_refuse "task_persistence_failed" saved
    change_state state

  unfoldable pub finish : Option Response → Act (Unit {0})
  unfolding is_success error_code enter
  finish resp =
      if not (is_success resp)
      then (do count execution_failures; enter State.failed; refuse 409 "execution_failed")
      else (do
        c ← the_ctx
        set_task (record c.task { verification = resp })
        enter State.verifying
        enter State.succeeded)

  -- What follows the call of the runner.
  unfoldable pub answered : Option (Option Response) → Act (Unit {0})
  unfolding finish
  answered none = do count execution_failures; refuse 502 "runner_unavailable"
  answered (some resp) = finish resp

  unfoldable pub run_plan : Runner → Act (Unit {0})
  unfolding send answered
  run_plan runner = do count executions; resp ← send runner; answered resp

  unfoldable pub execute_task : Option Runner → Act (Unit {0})
  unfolding may_execute start_executing run_plan
  execute_task none = do may_execute; refuse 503 "runner_unavailable"
  execute_task (some runner) = do resuming ← may_execute; start_executing resuming; run_plan runner
