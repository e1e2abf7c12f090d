-- ===== src/Rbac/Managed.antt =====
-- internal/security/rbac/service.go: the listings, and the operations of the management API on users
-- and roles.
use ai_council.Prelude.{
  String, Bool, Option, none, some, List, [], ◌∷◌, map, str_eq, is_empty, find, order_by,
  if◌then◌else◌,
}
use ai_council.Storage.Tables.{UserRecord, RoleRecord, PermissionRecord}
use ai_council.Storage.Sql.{not_found, invalid_password, Sql, ◌>>=◌, ◌>>◌, pure, fail, transaction}
use ai_council.Rbac.{
  Kit, User, Role, by_subject, by_id, role_named, roles_of, role_permissions_of, first, select,
  create_user_row, create_role_row, create_user_role, create_role_permission, update_users,
  delete_user_roles, delete_role_permissions, hashed,
}
use ai_council.Rbac.Catalog.{permissions_or_create}
use ai_council.Rbac.Accounts.{new_user, with_password, with_disabled}

abbrev pub or_missing : {A : Type 0} → Option A → Sql A
or_missing none = fail not_found
or_missing (some a) = pure a

module _ (kit : Kit) where
  unfoldable pub find_roles : List String → Sql (List RoleRecord)
  find_roles [] = pure []
  find_roles (name ∷ names) = do
    role ← first kit (λ a. a.roles) (role_named name)
    rest ← find_roles names
    pure (role ∷ rest)

  unfoldable pub create_user_roles : String → List RoleRecord → Sql (Unit {0})
  create_user_roles user_id [] = pure tt
  create_user_roles user_id (role ∷ roles) = do
    create_user_role kit (record { user_id = user_id; role_id = role.id })
    create_user_roles user_id roles

  unfoldable pub replace_user_roles : String → List String → Sql (Unit {0})
  replace_user_roles user_id names = do
    roles ← find_roles names
    delete_user_roles kit user_id
    create_user_roles user_id roles

  unfoldable pub create_role_permissions : String → List PermissionRecord → Sql (Unit {0})
  create_role_permissions role_id [] = pure tt
  create_role_permissions role_id (p ∷ ps) = do
    create_role_permission kit (record { role_id = role_id; permission_id = p.id })
    create_role_permissions role_id ps

  unfoldable pub replace_in_transaction : String → List String → Sql (Unit {0})
  replace_in_transaction role_name names = do
    role ← first kit (λ a. a.roles) (role_named role_name)
    permissions ← permissions_or_create kit names
    delete_role_permissions kit role.id
    create_role_permissions role.id permissions

  unfoldable pub user_by_subject : String → Sql User
  user_by_subject subject = do
    row ← first kit (λ a. a.users) (by_subject subject)
    roles ← select kit (λ a. roles_of a row.id)
    pure (record { subject = row.subject; disabled = row.disabled; roles = roles })

  unfoldable pub with_roles : List UserRecord → Sql (List User)
  with_roles [] = pure []
  with_roles (row ∷ rows) = do
    roles ← select kit (λ a. roles_of a row.id)
    rest ← with_roles rows
    pure (record { subject = row.subject; disabled = row.disabled; roles = roles } ∷ rest)

  unfoldable pub list_users : Sql (List User)
  list_users = do rows ← select kit (λ a. order_by (λ u. u.subject) a.users); with_roles rows

  unfoldable pub with_permissions : List RoleRecord → Sql (List Role)
  with_permissions [] = pure []
  with_permissions (row ∷ rows) = do
    permissions ← select kit (λ a. role_permissions_of a row.id)
    rest ← with_permissions rows
    pure (record { name = row.name; permissions = permissions } ∷ rest)

  unfoldable pub list_roles : Sql (List Role)
  list_roles = do rows ← select kit (λ a. order_by (λ r. r.name) a.roles); with_permissions rows

  unfoldable pub list_permissions : Sql (List String)
  list_permissions = do
    rows ← select kit (λ a. order_by (λ p. p.name) a.permissions)
    pure (map (λ p. p.name) rows)

  unfoldable pub create_managed_user : String → String → List String → Sql User
  create_managed_user subject password roles = do
    transaction kit.host (do
      hash ← hashed kit password
      create_user_row kit (new_user subject (some hash))
      replace_user_roles subject roles)
    user_by_subject subject

  abbrev pub change_user : UserRecord → (UserRecord → UserRecord) → Sql (Unit {0})
  change_user user change = update_users kit (by_id user.id) change >>= (λ _. pure tt)

  abbrev pub change_password : UserRecord → String → Sql (Unit {0})
  change_password user password =
      hashed kit password >>= (λ hash. change_user user (with_password hash))

  unfoldable pub update_user : String → String → List String → Bool → Sql User
  update_user subject password roles disabled = do
    transaction kit.host (do
      user ← first kit (λ a. a.users) (by_subject subject)
      if is_empty password then pure tt else change_password user password
      change_user user (with_disabled disabled)
      replace_user_roles user.id roles)
    user_by_subject subject

  abbrev pub patch_password : UserRecord → Option String → Sql (Unit {0})
  patch_password user none = pure tt
  patch_password user (some password) =
      if is_empty password then fail invalid_password else change_password user password

  abbrev pub patch_disabled : UserRecord → Option Bool → Sql (Unit {0})
  patch_disabled user none = pure tt
  patch_disabled user (some disabled) = change_user user (with_disabled disabled)

  abbrev pub patch_roles : UserRecord → Option (List String) → Sql (Unit {0})
  patch_roles user none = pure tt
  patch_roles user (some roles) = replace_user_roles user.id roles

  unfoldable pub patch_user : String → Option String → Option (List String) → Option Bool → Sql User
  patch_user subject password roles disabled = do
    transaction kit.host (do
      user ← first kit (λ a. a.users) (by_subject subject)
      patch_password user password
      patch_disabled user disabled
      patch_roles user roles)
    user_by_subject subject

  unfoldable pub role_by_name : String → Sql Role
  role_by_name name = do roles ← list_roles; or_missing (find (λ r. str_eq r.name name) roles)

  unfoldable pub create_managed_role : String → List String → Sql Role
  create_managed_role name permissions = do
    transaction kit.host (do
      create_role_row kit (record { id = name; name = name })
      replace_in_transaction name permissions)
    role_by_name name

  unfoldable pub replace_role_permissions : String → List String → Sql Role
  replace_role_permissions name permissions = do
    transaction kit.host (replace_in_transaction name permissions)
    role_by_name name
