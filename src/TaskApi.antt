-- ===== src/TaskApi.antt =====
-- internal/transport/council/routes.go: a task of the HTTP API, its state, and what its handlers do
-- to the database.
pub mod Creation
pub mod Start
pub mod Execute
pub mod Decide
pub mod Effects
pub mod Safety
pub mod Execution
pub mod Granting
pub mod Withdrawal
pub mod Interleavings
pub mod Withdrawn
pub mod Starting
pub mod Created
mod Examples
use ai_council.Prelude.{
  ℕ, ℤ, suc, ◌+◌, String, Bool, true, false, Option, none, some, List, [], ◌∷◌, ◌++◌, length, Slice,
  str_eq, if◌then◌else◌,
}
use ai_council.Schema.{ExecutionPlan}
use ai_council.RunState.{State}
use ai_council.Approval.{Digest}
use ai_council.Storage.Tables.{TaskRecord, update_where}
use ai_council.Storage.Sql.{Result, ok, err, Error, Host, World, Sql, statement, now}
use ai_council.Storage.Events.{append}

pub data StepResult : Type 0 where
  step_result :
      (kind name : String)
      → (exit_code : ℤ) → (stdout stderr : String) → (duration_ms : ℤ) → (status : String)
      → StepResult

-- `runnerv1.ExecuteApprovedPlanResponse`
pub record Response : Type 0 where
  pub request_id : String
  pub status : String
  pub steps : List StepResult
  pub actual_diff : String
  pub error_code : String

-- An event of the task in memory; its data are in the database only.
pub record Event : Type 0 where
  pub id : ℕ
  pub kind : String
  pub created_at : ℕ

-- `State` is the text of a state there, see `state_text`.
pub record Task : Type 0 where
  pub id : String
  pub state : State
  pub workspace_id : String
  pub requirement : String
  pub acceptance : Slice String
  pub plan_version : ℤ
  pub approval_hash : String
  pub approved : Bool
  pub plan : ExecutionPlan
  pub verification : Option Response
  pub events : List Event

-- How the API writes a state.
unfoldable pub state_text : State → String
state_text State.draft = "DRAFT"
state_text State.analyzing = "ANALYZING"
state_text State.proposing = "PROPOSING"
state_text State.reviewing = "REVIEWING"
state_text State.judging = "JUDGING"
state_text State.red_team = "REDTEAM"
state_text State.awaiting_approval = "AWAITING_APPROVAL"
state_text State.executing = "EXECUTING"
state_text State.verifying = "VERIFYING"
state_text State.replanning = "REPLANNING"
state_text State.succeeded = "SUCCEEDED"
state_text State.failed = "FAILED"
state_text State.cancelled = "CANCELLED"

pub record ApprovalRequest : Type 0 where
  pub plan_version : ℤ
  pub approval_hash : String

-- What is passed to `append` as data.
pub data EventData : Type 0 where
  the_task : Task → EventData
  the_state : State → EventData
  the_approval : ApprovalRequest → EventData

-- What the API is started with: whether it has a database, `encoding/json` and the digest.
pub record Server : Type 0 where
  pub db : Bool
  pub host : Host
  pub digest : Digest
  pub marshal_event : EventData → Option String
  pub marshal_acceptance : Slice String → String
  pub marshal_plan : ExecutionPlan → String
  pub marshal_verification : Option Response → String

-- `runnerv1.ApprovedPatch`, `ApprovedCommand` and `ExecuteApprovedPlanRequest`
pub record ApprovedPatch : Type 0 where
  pub path : String
  pub unified_diff : String
  pub before_hash : String

pub record ApprovedCommand : Type 0 where
  pub executable : String
  pub args : List String
  pub work_dir : String
  pub timeout_seconds : ℤ
  pub purpose : String

pub record Request : Type 0 where
  pub request_id : String
  pub run_id : String
  pub workspace_id : String
  pub plan_version : ℤ
  pub approval_hash : String
  pub acceptance : List String
  pub patches : List ApprovedPatch
  pub commands : List ApprovedCommand
  pub verification_commands : List ApprovedCommand

pub data Counter : Type 0 where
  tasks_created council_runs council_failures executions execution_failures : Counter

-- A handler works on one task and the database; the requests that it sends to the runner and the
-- counters that it adds to are recorded, the last one first.
pub record Ctx : Type 0 where
  pub task : Task
  pub world : World
  pub sent : List Request
  pub counts : List Counter

-- An error response: the HTTP status and the code.
pub data Answer (A : Type 0) : Type 0 where
  go : A → Answer A
  refused : ℕ → String → Answer A

abbrev pub Act : Type 0 → Type 0
Act A = Ctx → Answer A × Ctx

abbrev pub continue : {A B : Type 0} → Answer A → (A → Act B) → Act B
continue (go a) f c = f a c
continue (refused status code) f c = (refused status code, c)

infixl 10 ◌>>=◌ ◌>>◌
abbrev pub ◌>>=◌ : {A B : Type 0} → Act A → (A → Act B) → Act B
◌>>=◌ m f c = continue (m c).0 f (m c).1

abbrev pub ◌>>◌ : {A B : Type 0} → Act A → Act B → Act B
m >> n = m >>= λ _. n

abbrev pub pure : {A : Type 0} → A → Act A
pure a c = (go a, c)

-- `writeErr` and `return`
abbrev pub refuse : {A : Type 0} → ℕ → String → Act A
refuse status code c = (refused status code, c)

abbrev pub the_ctx : Act Ctx
the_ctx c = (go c, c)

abbrev pub count : Counter → Act (Unit {0})
count k c = (go tt, record c { counts = k ∷ c.counts })

abbrev pub set_task : Task → Act (Unit {0})
set_task t c = (go tt, record c { task = t })

abbrev pub set_state : State → Act (Unit {0})
set_state s c = (go tt, record c { task = record c.task { state = s } })

-- A call of the database, with its error as a value.
abbrev pub db_call : {A : Type 0} → Sql A → Act (Result A)
db_call m c = (go (m c.world).0, record c { world = (m c.world).1 })

-- `if err != nil { writeErr(w, 500, code, …); return }`
abbrev pub or_refuse : {A : Type 0} → String → Result A → Act A
or_refuse code (ok a) = pure a
or_refuse code (err e) = refuse 500 code

module _ (server : Server) where
  add_event : ℕ → String → ℕ → Act (Unit {0})
  add_event id kind time c = (
    go tt,
    record c {
      task = record c.task {
        events = c.task.events ++ record { id = id; kind = kind; created_at = time } ∷ [];
      };
    },
  )

  -- `append`
  unfoldable pub append_event : String → EventData → Act (Result (Unit {0}))
  unfolding add_event now
  append_event kind data_ = do
    time ← db_call (now server.host)
    c ← the_ctx
    if server.db
        then (do
          saved ← db_call (append server.host c.task.id kind (server.marshal_event data_))
          elim saved [
            | ok row ↦ (do add_event row.sequence kind row.created_at; pure (ok tt))
            | err e ↦ pure (err e)
          ])
        else elim time [
          | ok t ↦ (do add_event (length c.task.events + 1) kind t; pure (ok tt))
          | err e ↦ pure (err e)
        ]

  -- The columns that `persistTask` writes.
  unfoldable pub updated : Task → TaskRecord → TaskRecord
  unfolding state_text
  updated t row = record row {
    state = state_text t.state;
    plan_version = t.plan_version;
    approval_hash = t.approval_hash;
    approval_granted = t.approved;
    acceptance_json = server.marshal_acceptance t.acceptance;
    plan_json = server.marshal_plan t.plan;
    verification_json = server.marshal_verification t.verification;
  }

  write_task : Task → Sql (Unit {0})
  unfolding statement
  write_task t = statement server.host λ tables.
      ok (
        tt,
        record tables { tasks = update_where (λ r. str_eq r.id t.id) (updated t) tables.tasks },
      )

  unfoldable pub persist_task : Act (Result (Unit {0}))
  unfolding write_task
  persist_task = do c ← the_ctx; if server.db then db_call (write_task c.task) else pure (ok tt)

  unfoldable pub transition_task : State → Act (Result (Unit {0}))
  unfolding append_event persist_task
  transition_task state = do
    set_state state
    saved ← persist_task
    elim saved [
      | ok _ ↦ append_event "state.changed" (EventData.the_state state)
      | err e ↦ pure (err e)
    ]
