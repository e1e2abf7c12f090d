-- ===== src/Rbac/Accounts.antt =====
-- internal/security/rbac/service.go: accounts with a password, roles and grants, the log-in, and the
-- bootstrap of an administrator.
use ai_council.Prelude.{
  ℕ, String, Bool, true, false, ◌&&◌, Option, none, some, List, ◌==◌, str_eq, if◌then◌else◌,
}
use ai_council.Storage.Tables.{UserRecord, RoleRecord, PermissionRecord}
use ai_council.Storage.Sql.{
  not_found, unauthorized, forbidden, Result, ok, err, Sql, ◌>>=◌, ◌>>◌, pure, fail, transaction,
}
use ai_council.Rbac.{
  Kit, Identity, missing_as, by_subject, by_id, role_named, user_role_clash, first, first_or_none,
  create_user_row, create_role_row, create_permission_row, create_user_role, create_role_permission,
  or_create, update_users, hashed,
}
use ai_council.Rbac.Password.{verify_password}
use ai_council.Rbac.Tokens.{issue_token_for_user, issue_token, identity_for_user}
use ai_council.Rbac.Catalog.{new_permission, create_user_or_ignore, grant_bootstrap_permissions}

abbrev pub accepted : Result (Unit {0}) → Bool
accepted (ok u) = true
accepted (err e) = false

abbrev pub new_user : String → Option (List ℕ) → UserRecord
new_user subject hash = record {
  id = subject;
  subject = subject;
  token_hash = "";
  password_hash = hash;
  disabled = false;
}

abbrev pub with_password : List ℕ → UserRecord → UserRecord
with_password hash u = record u { password_hash = some hash }

abbrev pub with_disabled : Bool → UserRecord → UserRecord
with_disabled disabled u = record u { disabled = disabled }

module _ (kit : Kit) where
  unfoldable pub create_user : String → String → Sql (Unit {0})
  create_user subject token =
      create_user_row kit (record (new_user subject none) { token_hash = kit.sha256 token })

  unfoldable pub create_user_with_password : String → String → Sql (Unit {0})
  create_user_with_password subject password = do
    hash ← hashed kit password
    create_user_row kit (new_user subject (some hash))

  abbrev pub password_accepted : String → Option (List ℕ) → Bool
  password_accepted password none = false
  password_accepted password (some hash) =
      accepted (verify_password kit.id_key hash (kit.bytes password))

  abbrev pub may_log_in : String → UserRecord → Bool
  may_log_in password user =
      if user.disabled then false else password_accepted password user.password_hash

  unfoldable pub login : String → String → ℕ → Sql (String × Identity)
  login subject password ttl = do
    user ← missing_as unauthorized (first kit (λ a. a.users) (by_subject subject))
    if may_log_in password user
        then (do
          issued ← issue_token_for_user kit user ttl
          identity ← identity_for_user kit user.id
          pure (issued.0, record identity { expires_at = some issued.1.expires_at }))
        else fail unauthorized

  unfoldable pub set_password : String → String → Sql (Unit {0})
  set_password subject password = do
    hash ← hashed kit password
    affected ← update_users kit (by_subject subject) (with_password hash)
    if affected == 0 then fail not_found else pure tt

  unfoldable pub create_role : String → Sql (Unit {0})
  create_role name = create_role_row kit (record { id = name; name = name })

  -- This `FirstOrCreate` looks the identifier up too.
  abbrev pub is_permission : String → PermissionRecord → Bool
  is_permission name p = str_eq p.id name && str_eq p.name name

  abbrev pub is_role : String → RoleRecord → Bool
  is_role name r = str_eq r.id name && str_eq r.name name

  unfoldable pub grant_permission : String → String → Sql (Unit {0})
  grant_permission role permission = transaction kit.host (do
    role_record ← missing_as forbidden (first kit (λ a. a.roles) (role_named role))
    row ← first_or_none kit (λ a. a.permissions) (is_permission permission)
    record_ ←
        or_create kit (new_permission kit permission)
          (create_permission_row kit (new_permission kit permission)) row
    create_role_permission kit (record { role_id = role_record.id; permission_id = record_.id }))

  unfoldable pub assign_role : String → String → Sql (Unit {0})
  assign_role subject role = transaction kit.host (do
    user ← first kit (λ a. a.users) (by_subject subject)
    role_record ← missing_as forbidden (first kit (λ a. a.roles) (role_named role))
    create_user_role kit (record { user_id = user.id; role_id = role_record.id }))

  -- Creates a role that is missing, and leaves a link that is there.
  unfoldable pub grant_role : String → String → Sql (Unit {0})
  grant_role subject role = transaction kit.host (do
    user ← first kit (λ a. a.users) (by_subject subject)
    row ← first_or_none kit (λ a. a.roles) (is_role role)
    role_record ←
        or_create kit (record { id = role; name = role })
          (create_role_row kit (record { id = role; name = role })) row
    link ←
        first_or_none kit (λ a. a.user_roles)
          (user_role_clash (record { user_id = user.id; role_id = role_record.id }))
    _ ←
        or_create kit (record { user_id = user.id; role_id = role_record.id })
          (create_user_role kit (record { user_id = user.id; role_id = role_record.id })) link
    pure tt)

  -- A missing password is set, and a user who is disabled is enabled.
  abbrev pub enable : UserRecord → UserRecord → UserRecord
  enable user u = if user.disabled then with_disabled false u else u

  abbrev pub repair : UserRecord → Option (List ℕ) → UserRecord → UserRecord
  repair user none u = enable user u
  repair user (some hash) u = enable user (with_password hash u)

  abbrev pub new_password : String → Option (List ℕ) → Sql (Option (List ℕ))
  new_password password (some hash) = pure none
  new_password password none = hashed kit password >>= λ hash. pure (some hash)

  abbrev pub needs_repair : UserRecord → Option (List ℕ) → Bool
  needs_repair user none = user.disabled
  needs_repair user (some hash) = true

  unfoldable pub repair_user : String → UserRecord → Sql (Unit {0})
  repair_user password user = do
    hash ← new_password password user.password_hash
    if needs_repair user hash
        then update_users kit (by_id user.id) (repair user hash) >>= (λ _. pure tt)
        else pure tt

  -- The token of an administrator who has just been created; `none` stands for the empty text.
  unfoldable pub bootstrap_admin : String → String → ℕ → Sql (Option String)
  bootstrap_admin subject password ttl = transaction kit.host (do
    created ← create_user_or_ignore kit (new_user subject none)
    user ← first kit (λ a. a.users) (by_subject subject)
    repair_user password user
    grant_bootstrap_permissions kit user.id "admin"
    if created then (issue_token kit user.id ttl >>= λ issued. pure (some issued.0)) else pure none)
