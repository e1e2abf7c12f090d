-- ===== src/TaskApi/Creation.antt =====
-- `createTask` and `getTask` of internal/transport/council/routes.go: the map of the tasks. The
-- counter of identifiers is taken not to reach 2 ^ 63.
use ai_council.Prelude.{
  ℕ, pos, suc, String, Bool, false, Option, none, some, List, [], ◌∷◌, Slice, items, any, str_eq,
  codes, itoa, ◌+++◌, ◌||◌, not, if◌then◌else◌,
}
use ai_council.Schema.{no_plan}
use ai_council.RunState.{State}
use ai_council.Council.SafePath.{trim_space, is_nil}
use ai_council.Council.Plan.{is_empty_list}
use ai_council.Storage.Tables.{TaskRecord, update_where}
use ai_council.Storage.Sql.{World, ok, statement}
use ai_council.TaskApi.{
  Task, EventData, Server, Ctx, Counter, Answer, go, refused, append_event, state_text,
}

pub record Workspace : Type 0 where
  pub id : String
  pub root : String
  pub is_git : Bool
  pub dirty : Bool

-- The maps of the API, its counter, the database and the counters.
pub record Api : Type 0 where
  pub tasks : List (String × Task)
  pub next_id : ℕ
  pub workspaces : List Workspace
  pub world : World
  pub counts : List Counter

pub record CreateTaskRequest : Type 0 where
  pub workspace_id : String
  pub requirement : String
  pub acceptance : Slice String

abbrev pub lookup : List (String × Task) → String → Option Task
lookup [] id = none
lookup ((key, t) ∷ rest) id = if str_eq key id then some t else lookup rest id

abbrev pub or_not_found : Option Task → Answer Task
or_not_found none = refused 404 "not_found"
or_not_found (some t) = go t

-- `getTask`
unfoldable pub get_task : String → Api → Answer Task
get_task id api = or_not_found (lookup api.tasks id)

-- A new task
unfoldable pub new_task : String → CreateTaskRequest → Task
new_task id r = record {
  id = id;
  state = State.draft;
  workspace_id = r.workspace_id;
  requirement = r.requirement;
  acceptance = r.acceptance;
  plan_version = pos 1;
  approval_hash = "";
  approved = false;
  plan = record no_plan { version = pos 1 };
  verification = none;
  events = [];
}

module _ (server : Server) where
  task_row : Task → TaskRecord
  unfolding state_text
  task_row t = record {
    id = t.id;
    workspace_id = t.workspace_id;
    requirement = t.requirement;
    acceptance_json = server.marshal_acceptance t.acceptance;
    state = state_text t.state;
    plan_version = t.plan_version;
    approval_hash = "";
    approval_granted = false;
    plan_json = "";
    verification_json = "";
  }

  -- `db.Save`: the row with this key is replaced, or a new one is added.
  save_row : TaskRecord → List TaskRecord → List TaskRecord
  save_row row rows =
      if any (λ r. str_eq r.id row.id) rows
      then update_where (λ r. str_eq r.id row.id) (λ r. row) rows
      else row ∷ rows

  pub save_task : Task → World → World
  unfolding statement save_row task_row
  save_task t w =
      if server.db
      then (statement server.host
          (λ tables. ok (tt, record tables { tasks = save_row (task_row t) tables.tasks })) w).1
      else w

  -- The event `task.created`, whose error is passed over
  unfoldable pub announce : Task → World → Ctx
  unfolding append_event save_task
  announce t w =
      (append_event server "task.created" (EventData.the_task t)
        (record { task = t; world = save_task t w; sent = []; counts = [] })).1

  unfoldable pub register : CreateTaskRequest → Api → Answer Task × Api
  unfolding announce new_task itoa
  register r api =
      let id = "task-" +++ itoa (pos (suc api.next_id)) in
      let done = announce (new_task id r) api.world in
      (
        go done.task,
        record api {
          tasks = (id, done.task) ∷ api.tasks;
          next_id = suc api.next_id;
          world = done.world;
          counts = Counter.tasks_created ∷ api.counts;
        },
      )

  -- The request is `none` where the body is not JSON.
  unfoldable pub create_task : Option CreateTaskRequest → Api → Answer Task × Api
  unfolding register
  create_task none api = (refused 400 "invalid_task", api)
  create_task (some r) api =
      if is_nil (trim_space (codes r.requirement)) || is_empty_list (items r.acceptance)
      then (refused 400 "invalid_task", api)
      else if not (any (λ w. str_eq w.id r.workspace_id) api.workspaces)
      then (refused 400 "unknown_workspace", api)
      else register r api
