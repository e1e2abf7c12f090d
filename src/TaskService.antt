-- ===== src/TaskService.antt =====
-- internal/app/task/service.go: a task over the repositories, a council and a runner.
pub mod Consent
mod Examples
use ai_council.Prelude.{
  ℕ, ℤ, pos, String, Bool, true, false, Option, none, some, List, [], ◌∷◌, Slice, items, copied,
  str_eq, is_empty, int_eq, not, ◌&&◌, ◌||◌, if◌then◌else◌,
}
use ai_council.Schema.{ExecutionPlan, no_plan}
use ai_council.RunState.{State, state_eq}
use ai_council.Approval.{Digest, Verdict, accepted, verify}
use ai_council.Council.Plan.{is_empty_list}
use ai_council.Storage.Tables.{ApprovalRecord}
use ai_council.Storage.Sql.{Result, ok, err, Error, Host, World, Sql, new_id, now}
use ai_council.Storage.Runs.{create, transition}
use ai_council.Storage.Approvals.{current, save, invalidate}

pub record Task : Type 0 where
  pub id : String
  pub run_id : String
  pub workspace_id : String
  pub requirement : String
  pub acceptance : Slice String
  pub state : State
  pub plan_version : ℤ
  pub plan : ExecutionPlan

pub record ApprovedExecution : Type 0 where
  pub request_id : String
  pub run_id : String
  pub workspace_id : String
  pub approval_hash : String
  pub plan : ExecutionPlan

pub data Failure : Type 0 where
  incomplete not_awaiting not_verified approval_required council_failed runner_failed : Failure
  stored : Error → Failure

pub data Answer (A : Type 0) : Type 0 where
  gives : A → Answer A
  fails : Failure → Answer A

-- The task, the database, and what the runner was asked to execute, the last one first.
pub record Session : Type 0 where
  pub task : Task
  pub world : World
  pub executed : List ApprovedExecution

-- What the service is made of. Events are kept by a port whose errors are passed over; they are not
-- part of the session.
pub record Service : Type 0 where
  pub host : Host
  pub digest : Digest
  pub council : Option (String → Option ExecutionPlan)  -- `none` in it for an error
  pub runner : ApprovedExecution → Option Bool  -- whether the report has passed

abbrev pub Act : Type 0 → Type 0
Act A = Session → Answer A × Session

abbrev pub continue : {A B : Type 0} → Answer A → (A → Act B) → Act B
continue (gives a) f s = f a s
continue (fails e) f s = (fails e, s)

infixl 10 ◌>>=◌ ◌>>◌
abbrev pub ◌>>=◌ : {A B : Type 0} → Act A → (A → Act B) → Act B
◌>>=◌ m f s = continue (m s).0 f (m s).1

abbrev pub ◌>>◌ : {A B : Type 0} → Act A → Act B → Act B
m >> n = m >>= λ _. n

abbrev pub pure : {A : Type 0} → A → Act A
pure a s = (gives a, s)

abbrev pub fail : {A : Type 0} → Failure → Act A
fail e s = (fails e, s)

abbrev pub session : Act Session
session s = (gives s, s)

abbrev pub set_task : Task → Act (Unit {0})
set_task t s = (gives tt, record s { task = t })

abbrev pub answer_of : {A : Type 0} → Result A → Answer A
answer_of (ok a) = gives a
answer_of (err e) = fails (Failure.stored e)

-- A call of a repository, with its error returned or passed over
abbrev pub call : {A : Type 0} → Sql A → Act A
call m s = (answer_of (m s.world).0, record s { world = (m s.world).1 })

abbrev pub try : {A : Type 0} → Sql A → Act (Unit {0})
try m s = (gives tt, record s { world = (m s.world).1 })

-- The states that `Start` goes through
abbrev pub lifecycle : List State
lifecycle =
    State.analyzing ∷ State.proposing ∷ State.reviewing ∷ State.judging ∷ State.red_team
    ∷ State.awaiting_approval ∷ []

with_acceptance : Task → Task
with_acceptance t =
    if is_empty_list (items t.plan.acceptance)
    then record t { plan = record t.plan { acceptance = copied (items t.acceptance) } }
    else t

unfoldable pub with_plan : ExecutionPlan → Task → Task
unfolding with_acceptance
with_plan plan t = with_acceptance (
    if int_eq plan.version (pos 0)
    then record t { plan = record plan { version = t.plan_version } }
    else record t { plan = plan; plan_version = plan.version })

module _ (service : Service) where
  -- `Create` with the identifier that `newID` gives
  unfoldable pub create_task : String → String → Slice String → World → Answer Task × World
  unfolding new_id create
  create_task workspace requirement acceptance w =
      if is_empty requirement || is_empty_list (items acceptance)
      then (fails incomplete, w)
      else created (new_id service.host w)
    where
      created : Result String × World → Answer Task × World
      created (err e, w) = (fails (Failure.stored e), w)
      created (ok id, w) =
          let stored_ = create service.host id State.draft w in
          (
            elim stored_.0 [
              | err e ↦ fails (Failure.stored e)
              | ok _ ↦ gives (record {
                id = id;
                run_id = id;
                workspace_id = workspace;
                requirement = requirement;
                acceptance = acceptance;
                state = State.draft;
                plan_version = pos 1;
                plan = record no_plan { version = pos 1; acceptance = copied (items acceptance) };
              })
            ],
            stored_.1,
          )

  ask : Option (String → Option ExecutionPlan) → Act (Unit {0})
  unfolding with_plan
  ask none = pure tt
  ask (some council) = do
    s ← session
    elim (council s.task.requirement) [
      | none ↦ fail council_failed
      | some plan ↦ set_task (with_plan plan s.task)
    ]

  unfoldable pub advance_through : List State → Act (Unit {0})
  unfolding transition
  advance_through [] = pure tt
  advance_through (next ∷ rest) = do
    s ← session
    call (transition service.host s.task.run_id next "system" "task lifecycle")
    set_task (record s.task { state = next })
    advance_through rest

  unfoldable pub start : Act (Unit {0})
  unfolding ask advance_through
  start = do ask service.council; advance_through lifecycle

  approval_of : Task → String → String → ℤ → String → ℕ → ApprovalRecord
  approval_of t hash actor version id time = record {
    id = id;
    run_id = t.run_id;
    plan_version = version;
    snapshot_hash = hash;
    decision = "approved";
    actor = actor;
    created_at = time;
    invalidated_at = none;
    consumed_at = none;
  }

  unfoldable pub approve : String → String → ℤ → Act (Unit {0})
  unfolding verify state_eq invalidate save new_id now approval_of
  approve hash actor version = do
    s ← session
    if not (state_eq s.task.state State.awaiting_approval)
          || not (int_eq version s.task.plan_version)
        then fail not_awaiting
        else elim (verify service.digest hash s.task.run_id s.task.workspace_id s.task.plan) [
          | accepted ↦ (do
            call (invalidate service.host s.task.run_id)
            id ← call (new_id service.host)
            time ← call (now service.host)
            call (save service.host (approval_of s.task hash actor version id time)))
          | _ ↦ fail not_verified
        ]

  -- `t.State = …`, and a transition whose error is passed over
  unfoldable pub enter : State → String → String → Act (Unit {0})
  unfolding transition
  enter next actor detail = do
    s ← session
    set_task (record s.task { state = next })
    try (transition service.host s.task.run_id next actor detail)

  unfoldable pub after_run : Option Bool → Act Bool
  unfolding enter
  after_run none = fail runner_failed
  after_run (some passed) = do
    enter State.verifying "runner" "verification"
    if passed
        then enter State.succeeded "runner" "verification passed"
        else enter State.replanning "runner" "verification failed"
    pure passed

  unfoldable pub send : String → ApprovalRecord → Act (Option Bool)
  send request a s =
      let execution : ApprovedExecution = record {
        request_id = request;
        run_id = s.task.run_id;
        workspace_id = s.task.workspace_id;
        approval_hash = a.snapshot_hash;
        plan = s.task.plan;
      } in
      (gives (service.runner execution), record s { executed = execution ∷ s.executed })

  -- With the approval that `Current` returns
  unfoldable pub execute_with : String → Result ApprovalRecord → Act Bool
  unfolding enter send after_run
  execute_with request (err e) = fail approval_required
  execute_with request (ok a) =
      if not (str_eq a.decision "approved") then fail approval_required else (do
        enter State.executing "system" "approved execution"
        passed ← send request a
        after_run passed)

  unfoldable pub execute : String → Act Bool
  unfolding current execute_with
  execute request s =
      let found = current service.host s.task.run_id s.task.plan_version s.world in
      execute_with request found.0 (record s { world = found.1 })
