-- ===== src/Rbac/Respecting.antt =====
-- A predicate on the tables that each statement of internal/security/rbac keeps is kept by each
-- operation of the service.
pub mod Tokens
pub mod Accounts
pub mod Managed
pub mod Statements
use ai_council.Prelude.{
  ℕ, String, Bool, true, false, Option, none, some, List, [], ◌∷◌, not, is_empty, any, str_eq, ltb,
  ◌&&◌, ◌||◌, ◌==◌, find, order_by, map, if◌then◌else◌,
}
use ai_council.Storage.Tables.{
  UserRecord, RoleRecord, UserRoleRecord, PermissionRecord, RolePermissionRecord, AccessTokenRecord,
  Access, Tables,
}
use ai_council.Storage.Sql.{Sql, ◌>>=◌, ◌>>◌, pure, fail, now, transaction}
use ai_council.Rbac.{
  Kit, Identity, missing_as, first, first_or_none, select, create_user_row, create_role_row,
  create_permission_row, create_user_role, create_role_permission, create_token, or_create,
  update_users, revoke_row, delete_user_roles, delete_role_permissions, random_token, hashed,
}
use ai_council.Rbac.Catalog.{
  create_user_or_ignore, link_user_role, link_role_permission, new_permission, permission_or_create,
  role_or_create, permissions_or_create, seed_in_transaction, seed_permissions, link_all,
  grant_bootstrap_permissions, bootstrap_legacy_admin,
}
use ai_council.Rbac.Keeping.{
  Keeps, >>=-keeps, if-keeps, transaction-keeps, now-keeps, first-keeps, first_or_none-keeps,
  select-keeps, random_token-keeps, hashed-keeps, or_create-keeps,
}

pub record Respects (kit : Kit) (P : Tables → Type 0) : Type 0 where
  pub user_row : (u : UserRecord) → Keeps P (create_user_row kit u)
  pub user_or_ignore : (u : UserRecord) → Keeps P (create_user_or_ignore kit u)
  pub role_row : (r : RoleRecord) → Keeps P (create_role_row kit r)
  pub permission_row : (p : PermissionRecord) → Keeps P (create_permission_row kit p)
  pub user_role : (l : UserRoleRecord) → Keeps P (create_user_role kit l)
  pub user_role_or_ignore : (l : UserRoleRecord) → Keeps P (link_user_role kit l)
  pub role_permission : (l : RolePermissionRecord) → Keeps P (create_role_permission kit l)
  pub role_permission_or_ignore : (l : RolePermissionRecord) → Keeps P (link_role_permission kit l)
  pub token : (k : AccessTokenRecord) → Keeps P (create_token kit k)
  pub updated :
      (test : UserRecord → Bool) (change : UserRecord → UserRecord)
      → Keeps P (update_users kit test change)
  pub revoked : (id : String) (time : ℕ) → Keeps P (revoke_row kit id time)
  pub no_user_roles : (user : String) → Keeps P (delete_user_roles kit user)
  pub no_role_permissions : (role : String) → Keeps P (delete_role_permissions kit role)

module _ (kit : Kit) (P : Tables → Type 0) (r : Respects kit P) where
  permission_or_create-keeps : (name : String) → Keeps P (permission_or_create kit name)
  unfolding permission_or_create
  permission_or_create-keeps name =
      >>=-keeps P (first_or_none kit (λ a. a.permissions) _) _ (first_or_none-keeps P kit _ _)
        (λ row. or_create-keeps P kit _ _ row (r.permission_row (new_permission kit name)))

  role_or_create-keeps : (name : String) → Keeps P (role_or_create kit name)
  unfolding role_or_create
  role_or_create-keeps name =
      >>=-keeps P (first_or_none kit (λ a. a.roles) _) _ (first_or_none-keeps P kit _ _)
        (λ row. or_create-keeps P kit _ _ row (r.role_row (record { id = name; name = name })))

  pub permissions_or_create-keeps :
      (names : List String) → Keeps P (permissions_or_create kit names)
  unfolding permissions_or_create
  permissions_or_create-keeps [] w p = p
  permissions_or_create-keeps (name ∷ names) w p =
      >>=-keeps P (permission_or_create kit name) _ (permission_or_create-keeps name)
        (λ permission.
          >>=-keeps P (permissions_or_create kit names) _ (permissions_or_create-keeps names)
            (λ rest v q. q))
        w p

  link_all-keeps : (role : String) (ps : List PermissionRecord) → Keeps P (link_all kit role ps)
  unfolding link_all
  link_all-keeps role [] w p = p
  link_all-keeps role (x ∷ ps) w p =
      >>=-keeps P (link_role_permission kit _) _ (r.role_permission_or_ignore _)
        (λ u. link_all-keeps role ps) w p

  pub grant_bootstrap_permissions-keeps :
      (user_id role_name : String) → Keeps P (grant_bootstrap_permissions kit user_id role_name)
  unfolding grant_bootstrap_permissions seed_in_transaction
  grant_bootstrap_permissions-keeps user_id role_name =
      >>=-keeps P (role_or_create kit role_name) _ (role_or_create-keeps role_name) (λ role.
        >>=-keeps P (seed_in_transaction kit) _ (permissions_or_create-keeps _) (λ permissions.
          >>=-keeps P (link_user_role kit _) _ (r.user_role_or_ignore _)
            (λ u. link_all-keeps role.id permissions)))
