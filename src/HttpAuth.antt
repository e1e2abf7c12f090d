-- ===== src/HttpAuth.antt =====
-- internal/transport/council/auth.go: the checks that stand before every handler of the HTTP API.
pub mod Header
pub mod Decision
pub mod Routes
mod Examples
use ai_council.Prelude.{
  ℕ, ℤ, pos, is_positive, String, Bool, true, false, not, ◌&&◌, ◌||◌, Option, none, some, List, [],
  ◌∷◌, any, str_eq, is_empty, codes, int_eq, ◌==◌, ◌++◌, if◌then◌else◌,
}
use ai_council.Storage.Sql.{Result, ok, err, Error, unauthorized, forbidden, World}
use ai_council.Rbac.{Kit, Identity}
use ai_council.Rbac.Password.{split, cut_prefix, is_nil}
use ai_council.Rbac.Wildcard.{codes_eq, grants}
use ai_council.Rbac.Tokens.{authenticate}
use Header.{trim, is_blank, bearer}

-- `TTL` in nanoseconds
pub record SessionOptions : Type 0 where
  pub cookie_name : String
  pub cookie_secure : Bool
  pub ttl : ℤ

abbrev pub default_session_options : SessionOptions
default_session_options = record {
  cookie_name = "aicouncil_session";
  cookie_secure = true;
  ttl = pos 28800000000000;
}

abbrev is_zero_options : SessionOptions → Bool
is_zero_options o = is_empty o.cookie_name && not o.cookie_secure && int_eq o.ttl (pos 0)

unfoldable pub normalize_session_options : SessionOptions → SessionOptions
unfolding is_blank
normalize_session_options o = if is_zero_options o then default_session_options else record {
  cookie_name =
      if is_blank o.cookie_name then default_session_options.cookie_name else o.cookie_name;
  cookie_secure = o.cookie_secure;
  ttl = if is_positive o.ttl then o.ttl else default_session_options.ttl;
}

-- What the checks read of a request: the header `Authorization`, and the cookies.
pub record HttpRequest : Type 0 where
  pub method : String
  pub path : String
  pub authorization : String
  pub cookies : List (String × String)

-- The handler runs, with an identity where one was found; or an error is written: its status, code and
-- message.
pub data Outcome : Type 0 where
  passed : Option Identity → Outcome
  rejected : ℕ → String → String → Outcome

-- `r.Cookie(name)`
unfoldable pub cookie : String → List (String × String) → Option String
cookie name [] = none
cookie name ((key, value) ∷ rest) =
    let later = cookie name rest in if str_eq key name then some value else later

abbrev matches : String → Option String → Bool
matches expected none = false
matches expected (some token) = str_eq token expected

-- `BearerAuth`
unfoldable pub bearer_auth : String → HttpRequest → Outcome
unfolding bearer
bearer_auth expected r =
    if str_eq r.path "/healthz" || is_empty expected || matches expected (bearer r.authorization)
    then passed none
    else rejected 401 "unauthorized" "valid bearer token required"

unfoldable pub is_public_rbac_path : String → String → Bool
is_public_rbac_path method path =
    str_eq path "/healthz"
    || str_eq path "/metrics"
    || (str_eq method "POST"
        && (str_eq path "/api/v1/auth/login" || str_eq path "/api/v1/auth/logout"))

abbrev pub is_segment : Option (List ℕ) → Bool
is_segment none = false
is_segment (some segment) = not (is_nil segment) && not (any (λ c. c == b'/') segment)

unfoldable pub single_segment : String → String → Bool
unfolding cut_prefix
single_segment path base = is_segment (cut_prefix (codes path) (codes base ++ codes "/"))

abbrev pub is_text : List ℕ → String → Bool
is_text cs t = codes_eq cs (codes t)

-- What is under a task, by its segments behind the prefix.
unfoldable pub segments_permission : String → List (List ℕ) → Option String
segments_permission method (task ∷ []) = if str_eq method "GET" then some "task:read" else none
segments_permission method (task ∷ action ∷ []) =
    if str_eq method "GET" && is_text action "events"
    then some "task:read"
    else if str_eq method "POST"
    then (if is_text action "start" || is_text action "reject" || is_text action "cancel"
        then some "task:write"
        else if is_text action "approve"
        then some "task:approve"
        else if is_text action "execute"
        then some "task:execute"
        else none)
    else none
segments_permission method (task ∷ artifacts ∷ hash ∷ []) =
    if str_eq method "GET" && is_text artifacts "artifacts" then some "task:read" else none
segments_permission method other = none

abbrev pub by_segments : String → List (List ℕ) → Option String
by_segments method parts = if any is_nil parts then none else segments_permission method parts

abbrev pub after_prefix : String → Option (List ℕ) → Option String
after_prefix method none = none
after_prefix method (some rest) = by_segments method (split b'/' rest)

-- `none` for a path that is not mapped.
unfoldable pub task_route_permission : String → String → Option String
unfolding cut_prefix split segments_permission
task_route_permission method path =
    after_prefix method (cut_prefix (codes path) (codes "/api/v1/tasks/"))

abbrev pub or_managed : String → String → Option String → Option String
or_managed method path (some permission) = some permission
or_managed method path none =
    if (str_eq path "/api/v1/admin/users" && (str_eq method "GET" || str_eq method "POST"))
      || (single_segment path "/api/v1/admin/users" && str_eq method "PATCH")
    then some "admin:users"
    else if (str_eq path "/api/v1/admin/roles" && (str_eq method "GET" || str_eq method "POST"))
        || (single_segment path "/api/v1/admin/roles" && str_eq method "PATCH")
    then some "admin:roles"
    else none

-- The permission is the empty text where any identity will do.
unfoldable pub rbac_route_permission : String → String → Option String
unfolding task_route_permission single_segment
rbac_route_permission method path =
    if str_eq method "GET" && str_eq path "/api/v1/auth/me"
    then some ""
    else if str_eq method "GET" && str_eq path "/api/v1/workspaces"
    then some "workspace:read"
    else if str_eq method "POST" && str_eq path "/api/v1/workspaces"
    then some "workspace:write"
    else if str_eq method "POST" && str_eq path "/api/v1/providers/test"
    then some "workspace:write"
    else if str_eq method "POST" && str_eq path "/api/v1/tasks"
    then some "task:write"
    else if str_eq method "GET" && str_eq path "/api/v1/admin/permissions"
    then some "admin:permissions"
    else or_managed method path (task_route_permission method path)

unfoldable pub identity_has_permission : Identity → String → Bool
unfolding grants
identity_has_permission identity permission =
    any (λ granted. grants granted permission) identity.permissions

-- `err == rbac.ErrForbidden`
abbrev pub is_forbidden : Error → Bool
is_forbidden forbidden = true
is_forbidden e = false

module _ (kit : Kit) (options : SessionOptions) where
  -- What is known once a bearer token has been tried.
  abbrev pub Tried : Type 0
  Tried = Option (Result Identity)

  abbrev pub tried : Result Identity → Tried
  tried (ok identity) = some (ok identity)
  tried (err e) = if is_forbidden e then some (err e) else none

  -- `service.Authenticate`, where its error lets the request go on to the cookie.
  abbrev pub try_bearer : Option String → World → Tried × World
  try_bearer none w = (none, w)
  try_bearer (some token) w = (tried (authenticate kit token w).0, (authenticate kit token w).1)

  abbrev pub by_cookie : Option String → World → Result Identity × World
  by_cookie none w = (err unauthorized, w)
  by_cookie (some value) w =
      if is_blank value then (err unauthorized, w) else authenticate kit value w

  abbrev pub or_cookie : Option String → Tried × World → Result Identity × World
  or_cookie value (some result, w) = (result, w)
  or_cookie value (none, w) = by_cookie value w

  unfoldable pub authenticate_request : HttpRequest → World → Result Identity × World
  authenticate_request r w =
      or_cookie (cookie options.cookie_name r.cookies) (try_bearer (bearer r.authorization) w)

  -- The second answer of `authenticateRBACRequest`.
  unfoldable pub bearer_presented : HttpRequest → Bool
  bearer_presented r = not (is_blank r.authorization)

  abbrev pub denied : Outcome
  denied = rejected 403 "forbidden" "permission denied"

  abbrev pub admit : Identity → Option String → Outcome
  admit identity none = denied
  admit identity (some permission) =
      if not (is_empty permission) && not (identity_has_permission identity permission)
      then denied
      else passed (some identity)

  abbrev pub decide : HttpRequest → Result Identity → Outcome
  decide r (ok identity) = admit identity (rbac_route_permission r.method r.path)
  decide r (err e) =
      if is_forbidden e
      then denied
      else rejected 401 "unauthorized" (
          if bearer_presented r
          then "invalid bearer token"
          else "valid bearer token or session required")

  -- `RBACAuthWithOptions`; `service` tells whether there is a service.
  unfoldable pub rbac_auth : Bool → HttpRequest → World → Outcome × World
  rbac_auth service r w =
      if is_public_rbac_path r.method r.path
      then (passed none, w)
      else if not service
      then (rejected 401 "unauthorized" "rbac service unavailable", w)
      else (decide r (authenticate_request r w).0, (authenticate_request r w).1)
