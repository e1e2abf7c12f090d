-- ===== src/TaskApi/Examples.antt =====
-- A task of internal/transport/council/routes.go from its creation to its execution.
use ai_council.Prelude.{
  String, arith, ◌+++◌, itoa, true, ◌≡◌, refl, pos, inr, List, false, none, some, [], ◌∷◌, All,
  length,
}
use ai_council.RunState.{State, state_eq}
use ai_council.Schema.{ExecutionPlan, no_plan}
use ai_council.Approval.{hash}
use ai_council.Storage.Fixtures.{calm, start}
use ai_council.TaskApi.{
  go, Task, ApprovalRequest, Server, Ctx, append_event, persist_task, transition_task,
}
use ai_council.Council.SafePath.{trim_space}
use ai_council.TaskApi.Creation.{Api, CreateTaskRequest, new_task as a_task, create_task}
use ai_council.TaskApi.Effects.{Ends}
use ai_council.TaskApi.Starting.{Anything, IsAwaiting, start_task-Ends}
use ai_council.TaskApi.Created.{Created, create_task-Created}
use ai_council.TaskApi.Start.{start_task, conclude}
use ai_council.TaskApi.Execute.{Runner, execute_task}
use ai_council.TaskApi.Decide.{approve_task}
use ai_council.TaskApi.Safety.{IsApproved}
use ai_council.TaskApi.Interleavings.{Section, perform, perform_all, requests_approved}
use ai_council.TaskApi.Withdrawn.{withdrawn_sends_nothing}

abbrev server : Server
server = record {
  db = false;
  host = calm;
  digest = record { marshal = λ p. some "plan"; sha256_hex = λ s. s };
  marshal_event = λ d. some "{}";
  marshal_acceptance = λ a. "[]";
  marshal_plan = λ p. "{}";
  marshal_verification = λ v. "null";
}

abbrev plan : ExecutionPlan
plan = record no_plan {
  version = pos 1;
  patches = some (record { path = "a"; unified_diff = "d"; before_hash = "" } ∷ []);
}

abbrev new_task : Ctx
new_task = record {
  task = record {
    id = "task-1";
    state = State.draft;
    workspace_id = "w";
    requirement = "q";
    acceptance = some ("ok" ∷ []);
    plan_version = pos 1;
    approval_hash = "";
    approved = false;
    plan = record no_plan { version = pos 1 };
    verification = none;
    events = [];
  };
  world = start;
  sent = [];
  counts = [];
}

abbrev runner : Runner
runner r = some (
    some (record {
      request_id = r.request_id;
      status = "SUCCEEDED";
      steps = [];
      actual_diff = "";
      error_code = "";
    }))

abbrev approval : ApprovalRequest
approval = record { plan_version = pos 1; approval_hash = "plan" }

abbrev sections : List Section
sections =
    Section.concluding (some plan)
    ∷ Section.approving (some approval)
    ∷ Section.executing (some runner)
    ∷ []

one_request : length (perform_all server sections new_task).sent ≡ 1
unfolding perform_all perform conclude approve_task execute_task hash state_eq append_event
    persist_task transition_task
one_request = refl

requests_approved_example :
    All (IsApproved server.digest (approval ∷ [])) (perform_all server sections new_task).sent
requests_approved_example = requests_approved server new_task sections refl refl refl

withdrawn_sends_nothing_example :
    (perform_all server (Section.cancelling ∷ sections) new_task).sent ≡ []
withdrawn_sends_nothing_example =
    withdrawn_sends_nothing server Section.cancelling sections new_task (inr refl)

started_task : (start_task server none none new_task).0 ≡ go tt
unfolding start_task conclude hash state_eq append_event persist_task transition_task
started_task = refl

abbrev request : CreateTaskRequest
request = record { workspace_id = "w"; requirement = "q"; acceptance = some ("ok" ∷ []) }

start_task-Ends_example :
    Ends (λ (a : Unit {0}). IsAwaiting server) Anything (start_task server none none new_task)
start_task-Ends_example = start_task-Ends server none none new_task

issued_three : ◌≡◌ {A = String} "task-3" ("task-" +++ itoa (pos 3))
unfolding itoa
issued_three = refl

abbrev api : Api
api = record {
  tasks = ("task-3", a_task "task-3" request) ∷ [];
  next_id = 7;
  workspaces = record { id = "w"; root = "/w"; is_git = true; dirty = false } ∷ [];
  world = start;
  counts = [];
}

abbrev created : Task
created = record (a_task "task-8" request) {
  events = record { id = 1; kind = "task.created"; created_at = 0 } ∷ [];
}

creates : (create_task server (some request) api).0 ≡ go created
unfolding create_task append_event a_task itoa trim_space
creates = refl

create_task-Created_example :
    Created (some request) api (create_task server (some request) api).1 created
create_task-Created_example =
    create_task-Created server (some request) api created
      (record { number = 3; counted = omega arith; named = issued_three }, tt) creates
