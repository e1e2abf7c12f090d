-- ===== src/RbacApi/Documents.antt =====
-- internal/transport/council/rbac_routes.go: the requests, and the replies to them.
use ai_council.Prelude.{ℕ, ℤ, String, Bool, Option, none, List}

pub record LoginRequest : Type 0 where
  pub subject : String
  pub password : String

pub record ManagedUserRequest : Type 0 where
  pub subject : String
  pub password : String
  pub roles : List String
  pub disabled : Bool

pub record ManagedUserPatchRequest : Type 0 where
  pub password : Option String
  pub roles : Option (List String)
  pub disabled : Option Bool

-- `none` for the slice `nil`
pub record ManagedRoleRequest : Type 0 where
  pub name : String
  pub permissions : Option (List String)

pub record IdentityResponse : Type 0 where
  pub subject : String
  pub roles : List String
  pub permissions : List String
  pub expires_at : Option ℕ

pub record UserResponse : Type 0 where
  pub subject : String
  pub disabled : Bool
  pub roles : List String

pub record RoleResponse : Type 0 where
  pub name : String
  pub permissions : List String

-- The data of a response, or the code of an error.
pub data Body : Type 0 where
  nothing : Body
  error_code : String → Body
  identity : IdentityResponse → Body
  user : UserResponse → Body
  users : List UserResponse → Body
  role : RoleResponse → Body
  roles : List RoleResponse → Body
  permissions : List String → Body

-- The session cookie that is set: its value, whether it is secure, and its age in seconds.
pub record Cookie : Type 0 where
  pub name : String
  pub value : String
  pub secure : Bool
  pub max_age : ℤ

pub record Reply : Type 0 where
  pub status : ℕ
  pub body : Body
  pub cookie : Option Cookie

abbrev pub reply : ℕ → Body → Reply
reply status body = record { status = status; body = body; cookie = none }

abbrev pub internal : Reply
internal = reply 500 (error_code "internal_error")
