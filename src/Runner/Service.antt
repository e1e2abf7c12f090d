-- ===== src/Runner/Service.antt =====
-- `ExecuteApprovedPlan` of internal/runner/grpc/service.go, over any implementation of a file
-- transaction and of the execution of commands.
use ai_council.Prelude.{
  ℤ, pos, String, Bool, true, false, Option, none, some, List, [], ◌∷◌, ◌++◌, map, items, copied,
  non_nil, is_empty, int_eq, not, ◌||◌, ◌+++◌, if◌then◌else◌,
}
use ai_council.Schema.{Patch, Command, ExecutionPlan}
use ai_council.Approval.{Digest, accepted, Verdict, verify}
use ai_council.Council.Plan.{is_empty_list}
use ai_council.TaskApi.{ApprovedPatch, ApprovedCommand, Request, Response, StepResult, step_result}
use ai_council.TaskApi.Execute.{int32}
use ai_council.Runner.Idempotency.{
  Store, Backend, Begun, in_progress, get, begin, release, complete,
}

-- The interface `transaction`, on a workspace `W`: what `Apply` answers, with what `Restore` needs, or
-- that it panics.
pub data Applied (S : Type 0) : Type 0 where
  applied patch_failed rollback_failed : S → Applied S
  panicked : Applied S

pub record Transaction (W : Type 0) : Type 1 where
  pub Snapshots : Type 0
  pub apply : List Patch → W → Applied Snapshots × W
  pub restore : Snapshots → W → Bool × W  -- `false` for an error

-- What `executor.Run` returns; `failed` is whether there is an error.
pub record Ran : Type 0 where
  pub exit_code : ℤ
  pub stdout : String
  pub stderr : String
  pub duration_ms : ℤ
  pub timed_out : Bool
  pub failed : Bool

pub data Code : Type 0 where
  invalid_argument aborted permission_denied : Code

pub data Reply : Type 0 where
  rejected : Code → Reply
  responded : Response → Reply
  crashed : Reply

unfoldable pub patch_of : ApprovedPatch → Patch
patch_of p = record { path = p.path; unified_diff = p.unified_diff; before_hash = p.before_hash }

unfoldable pub command_of : ApprovedCommand → Command
command_of c = record {
  executable = c.executable;
  args = copied c.args;
  work_dir = c.work_dir;
  timeout_seconds = c.timeout_seconds;
  purpose = c.purpose;
}

-- The plan that a request stands for; a repeated field without elements arrives as `nil`.
unfoldable pub plan_of : Request → ExecutionPlan
unfolding patch_of command_of
plan_of r = record {
  version = r.plan_version;
  acceptance = non_nil (copied r.acceptance);
  patches = non_nil (copied (map patch_of r.patches));
  commands = non_nil (copied (map command_of r.commands));
  verification_commands = copied (map command_of r.verification_commands);
  recovery = none;
}

abbrev pub succeeded_so_far : String → Response
succeeded_so_far id = record {
  request_id = id;
  status = "SUCCEEDED";
  steps = [];
  actual_diff = "";
  error_code = "";
}

abbrev pub fails : String → Response → Response
fails code r = record r { status = "FAILED"; error_code = code }

abbrev pub add_step : StepResult → Response → Response
add_step s r = record r { steps = r.steps ++ s ∷ [] }

abbrev pub is_failure : Ran → Bool
is_failure ran = ran.failed || (ran.timed_out || not (int_eq ran.exit_code (pos 0)))

-- The step of a command, with `int32(result.ExitCode)`
unfoldable pub step_of : String → Command → Ran → String → StepResult
unfolding int32
step_of kind c ran status =
    step_result kind c.executable (int32 ran.exit_code) ran.stdout ran.stderr ran.duration_ms status

abbrev pub failure_code : String → Command → String
failure_code kind c = kind +++ "_failed:" +++ c.executable

-- The service: the store and the workspace.
pub record State (W : Type 0) : Type 0 where
  pub store : Store
  pub workspace : W

abbrev pub answers : {W : Type 0} → Response × W → Option Response × W
answers (r, w) = (some r, w)

module _ {W : Type 0} (digest : Digest) (backend : Backend) (tx : Transaction W)
    (run : Command → W → Ran × W) where
  -- Undoing the patches, where there are any
  unfoldable pub undo : Option tx.Snapshots → Response → W → Response × W
  undo none r w = (r, w)
  undo (some snapshots) r w =
      let (fine, w') = tx.restore snapshots w in
      (if fine then r else record r { error_code = "rollback_failed:" +++ r.error_code }, w')

  -- The loop of `runCommands`: whether all succeeded, the response and the workspace.
  unfoldable pub run_commands :
      Option tx.Snapshots → String → List Command → Response → W → Bool × Response × W
  unfolding undo step_of
  run_commands snapshots kind [] r w = (true, r, w)
  run_commands snapshots kind (c ∷ cs) r w =
      let (ran, w') = run c w in
      let rest = run_commands snapshots kind cs (add_step (step_of kind c ran "SUCCEEDED") r) w' in
      let undone =
        undo snapshots (add_step (step_of kind c ran "FAILED") (fails (failure_code kind c) r))
          w' in
      if is_failure ran then (false, undone.0, undone.1) else rest

  -- The commands, and then the verification.
  unfoldable pub run_all : Option tx.Snapshots → ExecutionPlan → Response → W → Response × W
  unfolding run_commands
  run_all snapshots plan r w =
      let (fine, r', w') = run_commands snapshots "command" (items plan.commands) r w in
      let verified =
        run_commands snapshots "verification" (items plan.verification_commands) r' w' in
      if fine then (verified.1, verified.2) else (r', w')

  unfoldable pub with_patches :
      ExecutionPlan → Response → Applied tx.Snapshots × W → Option Response × W
  unfolding run_all
  with_patches plan r (applied s, w) = answers (run_all (some s) plan r w)
  with_patches plan r (patch_failed s, w) = (some (fails "patch_failed" r), w)
  with_patches plan r (rollback_failed s, w) = (some (fails "rollback_failed:patch_failed" r), w)
  with_patches plan r (panicked, w) = (none, w)

  -- What is done for a plan that was approved; `none` for a panic.
  unfoldable pub carry_out : ExecutionPlan → Response → W → Option Response × W
  unfolding with_patches run_all
  carry_out plan r w =
      if is_empty_list (items plan.patches)
      then answers (run_all none plan r w)
      else with_patches plan r (tx.apply (items plan.patches) w)

  -- A panic still runs the deferred release.
  unfoldable pub finish : Begun → Request → Option Response × W → Store → Reply × State W
  finish started request (some r, w) store = (
    responded r,
    record {
      store = release started request.request_id (complete backend request.request_id r store);
      workspace = w;
    },
  )
  finish started request (none, w) store =
      (crashed, record { store = release started request.request_id store; workspace = w })

  unfoldable pub verified : Verdict → Begun → Request → Store → W → Reply × State W
  unfolding carry_out finish release plan_of complete
  verified accepted started request store w =
      finish started request (carry_out (plan_of request) (succeeded_so_far request.request_id) w)
        store
  verified _ started request store w = (
    rejected permission_denied,
    record { store = release started request.request_id store; workspace = w },
  )

  unfoldable pub started : Begun × Store → Request → W → Reply × State W
  unfolding verified plan_of
  started (in_progress, store) request w =
      (rejected aborted, record { store = store; workspace = w })
  started (b, store) request w =
      verified
        (verify digest request.approval_hash request.run_id request.workspace_id (plan_of request))
        b request store w

  unfoldable pub looked_up : Option Response × Store → Request → W → Reply × State W
  unfolding started begin
  looked_up (some saved, store) request w =
      (responded saved, record { store = store; workspace = w })
  looked_up (none, store) request w = started (begin backend request.request_id store) request w

  unfoldable pub execute_approved_plan : Request → State W → Reply × State W
  unfolding looked_up get
  execute_approved_plan request s =
      if is_empty request.request_id
      then (rejected invalid_argument, s)
      else looked_up (get backend request.request_id s.store) request s.workspace
