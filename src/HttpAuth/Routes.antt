-- ===== src/HttpAuth/Routes.antt =====
-- The routes that http.go, routes.go and rbac_routes.go of internal/transport/council register, and what
-- auth.go asks for on each.
pub mod Tasks
pub mod Mapping
use Prim.Native.Char.{code}
use ai_council.Prelude.{
  ◌≡◌, refl, ap, ◌∙◌, inl, inr, ℕ, String, Bool, true, false, ◌&&◌, Option, none, some, List, [],
  ◌∷◌, ◌++◌, any, codes, eq_iff, false≢true, sym, ◌+++◌, ◌==◌, All, if◌then◌else◌, Bool-cases,
  arith, str_eq,
}
use ai_council.Rbac.Password.{split, is_nil}
use ai_council.Rbac.Wildcard.{codes_eq}
use ai_council.Rbac.Password.Splitting.{split_plain, split_alone}
use ai_council.HttpAuth.{
  task_route_permission, is_public_rbac_path, rbac_route_permission, segments_permission,
  by_segments, single_segment, or_managed,
}

-- A route with its parameters.
pub data Route : Type 0 where
  health metrics log_in log_out : Route
  test_provider create_workspace list_workspaces create_task : Route
  get_task start_task approve_task reject_task execute_task cancel_task task_events : String → Route
  get_artifact : String → String → Route
  me list_users create_user list_roles create_role list_permissions : Route
  update_user update_role : String → Route

unfoldable pub method_of : Route → String
method_of health = "GET"
method_of metrics = "GET"
method_of log_in = "POST"
method_of log_out = "POST"
method_of test_provider = "POST"
method_of create_workspace = "POST"
method_of list_workspaces = "GET"
method_of create_task = "POST"
method_of (get_task id) = "GET"
method_of (start_task id) = "POST"
method_of (approve_task id) = "POST"
method_of (reject_task id) = "POST"
method_of (execute_task id) = "POST"
method_of (cancel_task id) = "POST"
method_of (task_events id) = "GET"
method_of (get_artifact id artifact) = "GET"
method_of me = "GET"
method_of list_users = "GET"
method_of create_user = "POST"
method_of list_roles = "GET"
method_of create_role = "POST"
method_of list_permissions = "GET"
method_of (update_user subject) = "PATCH"
method_of (update_role name) = "PATCH"

unfoldable pub path_of : Route → String
path_of health = "/healthz"
path_of metrics = "/metrics"
path_of log_in = "/api/v1/auth/login"
path_of log_out = "/api/v1/auth/logout"
path_of test_provider = "/api/v1/providers/test"
path_of create_workspace = "/api/v1/workspaces"
path_of list_workspaces = "/api/v1/workspaces"
path_of create_task = "/api/v1/tasks"
path_of (get_task id) = "/api/v1/tasks/" +++ id
path_of (start_task id) = "/api/v1/tasks/" +++ id +++ "/start"
path_of (approve_task id) = "/api/v1/tasks/" +++ id +++ "/approve"
path_of (reject_task id) = "/api/v1/tasks/" +++ id +++ "/reject"
path_of (execute_task id) = "/api/v1/tasks/" +++ id +++ "/execute"
path_of (cancel_task id) = "/api/v1/tasks/" +++ id +++ "/cancel"
path_of (task_events id) = "/api/v1/tasks/" +++ id +++ "/events"
path_of (get_artifact id artifact) = "/api/v1/tasks/" +++ id +++ "/artifacts/" +++ artifact
path_of me = "/api/v1/auth/me"
path_of list_users = "/api/v1/admin/users"
path_of create_user = "/api/v1/admin/users"
path_of list_roles = "/api/v1/admin/roles"
path_of create_role = "/api/v1/admin/roles"
path_of list_permissions = "/api/v1/admin/permissions"
path_of (update_user subject) = "/api/v1/admin/users/" +++ subject
path_of (update_role name) = "/api/v1/admin/roles/" +++ name

-- What a request has to bring: nothing, or an identity with this permission, the empty text for any
-- identity; `none` stands for a path that nobody is let through to.
pub data Asked : Type 0 where
  nothing : Asked
  permission : Option String → Asked

-- What `RBACAuthWithOptions` asks for on a path
unfoldable pub asked : String → String → Asked
unfolding is_public_rbac_path rbac_route_permission
asked method path =
    if is_public_rbac_path method path
    then nothing
    else permission (rbac_route_permission method path)

-- The table of the routes and what each asks for
abbrev pub asked_of : Route → Asked
asked_of health = nothing
asked_of metrics = nothing
asked_of log_in = nothing
asked_of log_out = nothing
asked_of test_provider = permission (some "workspace:write")
asked_of create_workspace = permission (some "workspace:write")
asked_of list_workspaces = permission (some "workspace:read")
asked_of create_task = permission (some "task:write")
asked_of (get_task id) = permission (some "task:read")
asked_of (start_task id) = permission (some "task:write")
asked_of (approve_task id) = permission (some "task:approve")
asked_of (reject_task id) = permission (some "task:write")
asked_of (execute_task id) = permission (some "task:execute")
asked_of (cancel_task id) = permission (some "task:write")
asked_of (task_events id) = permission (some "task:read")
asked_of (get_artifact id artifact) = permission (some "task:read")
asked_of me = permission (some "")
asked_of list_users = permission (some "admin:users")
asked_of create_user = permission (some "admin:users")
asked_of list_roles = permission (some "admin:roles")
asked_of create_role = permission (some "admin:roles")
asked_of list_permissions = permission (some "admin:permissions")
asked_of (update_user subject) = permission (some "admin:users")
asked_of (update_role name) = permission (some "admin:roles")

-- A parameter of a path is not empty and holds no `/`.
pub record IsParameter (s : String) : Type 0 where
  pub filled : is_nil (codes s) ≡ false
  pub plain : All (λ c. (c == b'/') ≡ false) (codes s)

abbrev pub HasParameters : Route → Type 0
HasParameters (get_task id) = IsParameter id
HasParameters (start_task id) = IsParameter id
HasParameters (approve_task id) = IsParameter id
HasParameters (reject_task id) = IsParameter id
HasParameters (execute_task id) = IsParameter id
HasParameters (cancel_task id) = IsParameter id
HasParameters (task_events id) = IsParameter id
HasParameters (get_artifact id artifact) = IsParameter id × IsParameter artifact
HasParameters (update_user subject) = IsParameter subject
HasParameters (update_role name) = IsParameter name
HasParameters other = Unit
