-- ===== src/RbacApi.antt =====
-- internal/transport/council/rbac_routes.go: log-in, log-out, and the management of users and roles.
pub mod Documents
pub mod RateLimit
mod Examples
use ai_council.Prelude.{
  ℕ, ℤ, pos, negsuc, ◌+◌, ◌/◌, String, Bool, true, false, not, ◌&&◌, ◌||◌, Option, none, some, List,
  [], ◌∷◌, map, is_empty, if◌then◌else◌,
}
use ai_council.Storage.Sql.{Result, ok, err, Error, not_found, forbidden, driver, World, Sql}
use ai_council.Rbac.{Kit, Identity, User, Role}
use ai_council.Rbac.Tokens.{revoke_presented_token}
use ai_council.Rbac.Accounts.{login}
use ai_council.Rbac.Managed.{
  list_users, list_roles, list_permissions, create_managed_user, patch_user, create_managed_role,
  replace_role_permissions,
}
use ai_council.HttpAuth.{SessionOptions, HttpRequest, cookie}
use ai_council.HttpAuth.Header.{trim, is_blank, bearer}
use RateLimit.{Limiter, admit_login_attempt, complete_login_attempt}
use Documents.{
  LoginRequest, ManagedUserRequest, ManagedUserPatchRequest, ManagedRoleRequest, IdentityResponse,
  UserResponse, RoleResponse, Body, Cookie, Reply, reply, internal, nothing, error_code, identity,
  user, users, role, roles, permissions,
}

abbrev pub public_identity : Identity → IdentityResponse
public_identity i = record {
  subject = i.subject;
  roles = i.roles;
  permissions = i.permissions;
  expires_at = i.expires_at;
}

abbrev pub public_user : User → UserResponse
public_user u = record { subject = u.subject; disabled = u.disabled; roles = u.roles }

abbrev pub public_role : Role → RoleResponse
public_role r = record { name = r.name; permissions = r.permissions }

-- `entity` is the code of any other error.
abbrev pub managed_error : String → Error → Reply
managed_error entity not_found = reply 400 (error_code "unknown_role")
managed_error entity forbidden = reply 400 (error_code "unknown_role")
managed_error entity e = reply 400 (error_code entity)

abbrev pub answered : {A : Type 0} → (A → Reply) → (Error → Reply) → Result A → Reply
answered good bad (ok a) = good a
answered good bad (err e) = bad e

-- The options are normalized, so that the lifetime is positive.
abbrev pub nanoseconds : ℤ → ℕ
nanoseconds (pos n) = n
nanoseconds (negsuc n) = 0

-- `int(ttl.Seconds())`
abbrev pub seconds : ℤ → ℤ
seconds ttl = pos (nanoseconds ttl / 1000000000)

-- `net.SplitHostPort` gives the host, or nothing where it fails.
abbrev host_or : String → Option String → String
unfolding is_blank
host_or address none = if is_blank address then "unknown" else address
host_or address (some host) =
    if is_empty host then (if is_blank address then "unknown" else address) else host

unfoldable pub client_ip : (String → Option String) → String → String
unfolding is_blank
client_ip split_host_port address = host_or address (split_host_port address)

abbrev pub handled : {A : Type 0} → Sql A → (A → Reply) → (Error → Reply) → World → Reply × World
handled m good bad w = (answered good bad (m w).0, (m w).1)

module _ (kit : Kit) (service : Bool) (options : SessionOptions) where
  abbrev pub session : String → ℤ → Cookie
  session value age = record {
    name = options.cookie_name;
    value = value;
    secure = options.cookie_secure;
    max_age = age;
  }

  abbrev pub unauthorized_login : Reply
  unauthorized_login = reply 401 (error_code "unauthorized")

  abbrev pub logged_in : String × Identity → Reply
  logged_in (token, i) = record {
    status = 200;
    body = identity (public_identity i);
    cookie = some (session token (seconds options.ttl));
  }

  -- What is left of `login` once the attempt is admitted: the clock at its end is `later`.
  abbrev pub finish_login :
      ℕ → String → Limiter → Result (String × Identity) → World → Reply × Limiter × World
  unfolding complete_login_attempt
  finish_login later ip a (ok issued) w =
      (logged_in issued, complete_login_attempt later ip false a, w)
  finish_login later ip a (err e) w =
      (unauthorized_login, complete_login_attempt later ip true a, w)

  abbrev no_service : Result (String × Identity)
  no_service = err driver

  unfoldable pub admitted_login :
      ℕ → String → LoginRequest → Limiter → World → Reply × Limiter × World
  unfolding login complete_login_attempt trim
  admitted_login later ip r a w =
      if service
      then finish_login later ip a
          (login kit (trim r.subject) r.password (nanoseconds options.ttl) w).0
          (login kit (trim r.subject) r.password (nanoseconds options.ttl) w).1
      else finish_login later ip a no_service w

  abbrev after_admission :
      ℕ → String → LoginRequest → Bool × Limiter → World → Reply × Limiter × World
  unfolding admitted_login
  after_admission later ip r (true, a) w = admitted_login later ip r a w
  after_admission later ip r (false, a) w = (reply 429 (error_code "login_rate_limited"), a, w)

  abbrev bad_login : Reply
  bad_login = reply 400 (error_code "invalid_login")

  -- The log-in of a client at `ip`, between two readings of the clock; `none` for a body that is not
  -- decoded.
  unfoldable pub login_handler :
      ℕ → ℕ → String → Option LoginRequest → Limiter → World → Reply × Limiter × World
  unfolding admit_login_attempt admitted_login is_blank
  login_handler now later ip none a w = (bad_login, a, w)
  login_handler now later ip (some r) a w =
      if is_blank r.subject || is_empty r.password
      then (bad_login, a, w)
      else after_admission later ip r (admit_login_attempt now ip a) w

  abbrev forget : Result Bool → Result (Unit {0})
  forget (ok b) = ok tt
  forget (err e) = err e

  abbrev revoked_cookie : Option String → World → Result (Unit {0}) × World
  unfolding revoke_presented_token is_blank
  revoked_cookie none w = (ok tt, w)
  revoked_cookie (some value) w =
      if is_blank value
      then (ok tt, w)
      else (forget (revoke_presented_token kit value w).0, (revoke_presented_token kit value w).1)

  -- Where a bearer token was not revoked, the cookie is.
  abbrev unless_revoked : Option String → Result Bool × World → Result (Unit {0}) × World
  unfolding revoke_presented_token is_blank
  unless_revoked value (err e, w) = (err e, w)
  unless_revoked value (ok true, w) = (ok tt, w)
  unless_revoked value (ok false, w) = revoked_cookie value w

  abbrev revoked_bearer : Option String → World → Result Bool × World
  unfolding revoke_presented_token
  revoked_bearer none w = (ok false, w)
  revoked_bearer (some token) w =
      if is_empty token then (ok false, w) else revoke_presented_token kit token w

  unfoldable pub revoke_logout_token : HttpRequest → World → Result (Unit {0}) × World
  unfolding revoke_presented_token is_blank bearer cookie
  revoke_logout_token r w =
      if service
      then unless_revoked (cookie options.cookie_name r.cookies)
          (revoked_bearer (bearer r.authorization) w)
      else (err driver, w)

  abbrev logged_out : Reply
  logged_out = record { status = 204; body = nothing; cookie = some (session "" (negsuc 0)) }

  unfoldable pub logout : HttpRequest → World → Reply × World
  unfolding revoke_logout_token
  logout r w = (
    answered (λ u. logged_out) (λ e. internal) (revoke_logout_token r w).0,
    (revoke_logout_token r w).1,
  )

  -- `me`, with the identity that the checks have found
  unfoldable pub me : Option Identity → Reply
  me none = reply 401 (error_code "unauthorized")
  me (some i) = reply 200 (identity (public_identity i))

  unfoldable pub list_users_handler : World → Reply × World
  unfolding list_users
  list_users_handler =
      handled (list_users kit) (λ us. reply 200 (users (map public_user us))) (λ e. internal)

  unfoldable pub list_roles_handler : World → Reply × World
  unfolding list_roles
  list_roles_handler =
      handled (list_roles kit) (λ rs. reply 200 (roles (map public_role rs))) (λ e. internal)

  unfoldable pub list_permissions_handler : World → Reply × World
  unfolding list_permissions
  list_permissions_handler =
      handled (list_permissions kit) (λ ps. reply 200 (permissions ps)) (λ e. internal)

  abbrev refused : String → World → Reply × World
  refused code w = (reply 400 (error_code code), w)

  -- The field `disabled` of the request is not read.
  unfoldable pub create_user_handler : Option ManagedUserRequest → World → Reply × World
  unfolding create_managed_user trim is_blank
  create_user_handler none w = refused "invalid_user" w
  create_user_handler (some r) w =
      if is_blank r.subject || is_empty r.password
      then refused "invalid_user" w
      else handled (create_managed_user kit (trim r.subject) r.password r.roles)
          (λ u. reply 201 (user (public_user u))) (managed_error "invalid_user") w

  abbrev is_none : {A : Type 0} → Option A → Bool
  is_none none = true
  is_none (some a) = false

  -- `subject` is that of the path.
  unfoldable pub update_user_handler :
      String → Option ManagedUserPatchRequest → World → Reply × World
  unfolding patch_user trim is_blank
  update_user_handler subject none w = refused "invalid_user" w
  update_user_handler subject (some r) w =
      if is_blank subject || (is_none r.password && is_none r.roles && is_none r.disabled)
      then refused "invalid_user" w
      else handled (patch_user kit (trim subject) r.password r.roles r.disabled)
          (λ u. reply 200 (user (public_user u))) (managed_error "invalid_user") w

  abbrev items_of : Option (List String) → List String
  items_of none = []
  items_of (some xs) = xs

  unfoldable pub create_role_handler : Option ManagedRoleRequest → World → Reply × World
  unfolding create_managed_role trim is_blank
  create_role_handler none w = refused "invalid_role" w
  create_role_handler (some r) w =
      if is_blank r.name
      then refused "invalid_role" w
      else handled (create_managed_role kit (trim r.name) (items_of r.permissions))
          (λ x. reply 201 (role (public_role x))) (managed_error "invalid_role") w

  unfoldable pub update_role_handler : String → Option ManagedRoleRequest → World → Reply × World
  unfolding replace_role_permissions trim is_blank
  update_role_handler name none w = refused "invalid_role" w
  update_role_handler name (some r) w =
      if is_blank name || is_none r.permissions
      then refused "invalid_role" w
      else handled (replace_role_permissions kit (trim name) (items_of r.permissions))
          (λ x. reply 200 (role (public_role x))) (managed_error "invalid_role") w
