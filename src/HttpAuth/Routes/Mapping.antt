-- ===== src/HttpAuth/Routes/Mapping.antt =====
-- What internal/transport/council/auth.go asks for on each registered route.
use ai_council.Prelude.{◌≡◌, String, false, str_eq}

-- A path under the tasks or under the administration is none of the fixed ones.
record IsOther (path : String) : Type 0 where
  not_me : str_eq path "/api/v1/auth/me" ≡ false
  not_workspaces : str_eq path "/api/v1/workspaces" ≡ false
  not_test : str_eq path "/api/v1/providers/test" ≡ false
  not_tasks : str_eq path "/api/v1/tasks" ≡ false
  not_permissions : str_eq path "/api/v1/admin/permissions" ≡ false

-- A path under the tasks or under the administration is none of the public ones.
record IsPrivate (path : String) : Type 0 where
  not_health : str_eq path "/healthz" ≡ false
  not_metrics : str_eq path "/metrics" ≡ false
  not_log_in : str_eq path "/api/v1/auth/login" ≡ false
  not_log_out : str_eq path "/api/v1/auth/logout" ≡ false
