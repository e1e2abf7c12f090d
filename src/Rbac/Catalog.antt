-- ===== src/Rbac/Catalog.antt =====
-- internal/security/rbac/catalog.go: the standard permissions, and the bootstrap of an administrator
-- who has them all.
use ai_council.Prelude.{String, Bool, true, false, none, List, [], ◌∷◌, any, if◌then◌else◌}
use ai_council.Storage.Tables.{
  UserRecord, RoleRecord, UserRoleRecord, PermissionRecord, RolePermissionRecord, Access, Tables,
}
use ai_council.Storage.Sql.{Result, ok, Sql, ◌>>=◌, pure, statement, transaction}
use ai_council.Rbac.{
  Kit, with_access, user_clash, user_role_clash, role_permission_clash, permission_named,
  role_named, by_subject, first, first_or_none, create_role_row, create_permission_row, or_create,
}

abbrev pub standard_permissions : List String
standard_permissions =
    "workspace:read" ∷ "workspace:write" ∷ "task:read" ∷ "task:write" ∷ "task:approve"
    ∷ "task:execute" ∷ "admin:users" ∷ "admin:roles" ∷ "admin:permissions" ∷ "admin:*" ∷ []

-- `clause.OnConflict{DoNothing: true}`: a row that clashes is left out; whether it was created.
abbrev pub ignored :
    {R : Type 0} → (R → Bool) → R → List R → (List R → Access) → Tables → Result (Bool × Tables)
ignored clash row rows put t =
    if any clash rows then ok (false, t) else ok (true, with_access (put (row ∷ rows)) t)

module _ (kit : Kit) where
  unfoldable pub create_user_or_ignore : UserRecord → Sql Bool
  create_user_or_ignore u =
      statement kit.host
        λ t. ignored (user_clash u) u t.access.users (λ rows. record t.access { users = rows }) t

  unfoldable pub link_user_role : UserRoleRecord → Sql Bool
  link_user_role l = statement kit.host λ t.
      ignored (user_role_clash l) l t.access.user_roles
        (λ rows. record t.access { user_roles = rows }) t

  unfoldable pub link_role_permission : RolePermissionRecord → Sql Bool
  link_role_permission l = statement kit.host λ t.
      ignored (role_permission_clash l) l t.access.role_permissions
        (λ rows. record t.access { role_permissions = rows }) t

  abbrev pub new_permission : String → PermissionRecord
  new_permission name = record { id = name; name = name }

  -- `Where("name = ?", name).Attrs(…).FirstOrCreate(&permission)`
  unfoldable pub permission_or_create : String → Sql PermissionRecord
  permission_or_create name = do
    row ← first_or_none kit (λ a. a.permissions) (permission_named name)
    or_create kit (new_permission name) (create_permission_row kit (new_permission name)) row

  unfoldable pub role_or_create : String → Sql RoleRecord
  role_or_create name = do
    row ← first_or_none kit (λ a. a.roles) (role_named name)
    or_create kit (record { id = name; name = name })
        (create_role_row kit (record { id = name; name = name })) row

  -- The loop of `seedPermissions` and of `replaceRolePermissions`.
  unfoldable pub permissions_or_create : List String → Sql (List PermissionRecord)
  permissions_or_create [] = pure []
  permissions_or_create (name ∷ names) = do
    permission ← permission_or_create name
    rest ← permissions_or_create names
    pure (permission ∷ rest)

  unfoldable pub seed_in_transaction : Sql (List PermissionRecord)
  seed_in_transaction = permissions_or_create standard_permissions

  unfoldable pub seed_permissions : Sql (Unit {0})
  seed_permissions = transaction kit.host (seed_in_transaction >>= λ _. pure tt)

  unfoldable pub link_all : String → List PermissionRecord → Sql (Unit {0})
  link_all role [] = pure tt
  link_all role (p ∷ ps) = do
    _ ← link_role_permission (record { role_id = role; permission_id = p.id })
    link_all role ps

  unfoldable pub grant_bootstrap_permissions : String → String → Sql (Unit {0})
  grant_bootstrap_permissions user_id role_name = do
    role ← role_or_create role_name
    permissions ← seed_in_transaction
    _ ← link_user_role (record { user_id = user_id; role_id = role.id })
    link_all role.id permissions

  unfoldable pub bootstrap_legacy_admin : String → String → String → Sql (Unit {0})
  bootstrap_legacy_admin subject token role = transaction kit.host (do
    _ ← create_user_or_ignore (record {
      id = subject;
      subject = subject;
      token_hash = kit.sha256 token;
      password_hash = none;
      disabled = false;
    })
    user ← first kit (λ a. a.users) (by_subject subject)
    grant_bootstrap_permissions user.id role)
