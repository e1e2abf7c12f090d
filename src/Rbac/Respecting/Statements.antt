-- ===== src/Rbac/Respecting/Statements.antt =====
-- A predicate that does not depend on the rows of any table but that of the tokens, in
-- internal/security/rbac: what is left to prove of it are the statements on tokens.
use ai_council.Prelude.{String, List, ◌∷◌, ℕ, not, str_eq, filter}
use ai_council.Storage.Tables.{
  UserRecord, RoleRecord, UserRoleRecord, PermissionRecord, RolePermissionRecord, AccessTokenRecord,
  Access, Tables, update_where, rows_affected,
}
use ai_council.Storage.Sql.{ok, insert}
use ai_council.Rbac.{
  Kit, with_access, added, user_clash, role_clash, permission_clash, user_role_clash,
  role_permission_clash, create_user_row, create_role_row, create_permission_row, create_user_role,
  create_role_permission, create_token, update_users, revoke_row, delete_user_roles,
  delete_role_permissions,
}
use ai_council.Rbac.Catalog.{create_user_or_ignore, link_user_role, link_role_permission, ignored}
use ai_council.Rbac.Keeping.{Keeps, statement-keeps, added-Kept, ignored-Kept}
use ai_council.Rbac.Respecting.{Respects}

abbrev pub put_users : Tables → List UserRecord → Access
put_users t rows = record t.access { users = rows }

abbrev pub put_roles : Tables → List RoleRecord → Access
put_roles t rows = record t.access { roles = rows }

abbrev pub put_user_roles : Tables → List UserRoleRecord → Access
put_user_roles t rows = record t.access { user_roles = rows }

abbrev pub put_permissions : Tables → List PermissionRecord → Access
put_permissions t rows = record t.access { permissions = rows }

abbrev pub put_role_permissions : Tables → List RolePermissionRecord → Access
put_role_permissions t rows = record t.access { role_permissions = rows }

module _ (kit : Kit) (P : Tables → Type 0) where
  module _
      (users : (t : Tables) → P t → (rows : List UserRecord) → P (with_access (put_users t rows) t))
      (roles : (t : Tables) → P t → (rows : List RoleRecord) → P (with_access (put_roles t rows) t))
      (user_roles : (t : Tables)
        → P t
        → (rows : List UserRoleRecord) → P (with_access (put_user_roles t rows) t))
      (permissions : (t : Tables)
        → P t
        → (rows : List PermissionRecord) → P (with_access (put_permissions t rows) t))
      (role_permissions : (t : Tables)
        → P t
        → (rows : List RolePermissionRecord) → P (with_access (put_role_permissions t rows) t))
      (token : (k : AccessTokenRecord) → Keeps P (create_token kit k))
      (revoked : (id : String) (time : ℕ) → Keeps P (revoke_row kit id time)) where
    pub tokens_only-Respects : Respects kit P
    unfolding create_user_row create_user_or_ignore create_role_row create_permission_row
        create_user_role link_user_role create_role_permission link_role_permission update_users
        delete_user_roles delete_role_permissions
    tokens_only-Respects = record {
      user_row = λ u.
          statement-keeps P kit.host
            (λ t. added (put_users t) t (insert (user_clash u) u t.access.users))
            (λ t p.
              added-Kept P (put_users t) t (insert (user_clash u) u t.access.users) (users t p));
      user_or_ignore = λ u.
          statement-keeps P kit.host (λ t. ignored (user_clash u) u t.access.users (put_users t) t)
            (λ t p.
              ignored-Kept P (user_clash u) u t.access.users (put_users t) t p
                (users t p (u ∷ t.access.users)));
      role_row = λ r.
          statement-keeps P kit.host
            (λ t. added (put_roles t) t (insert (role_clash r) r t.access.roles))
            (λ t p.
              added-Kept P (put_roles t) t (insert (role_clash r) r t.access.roles) (roles t p));
      permission_row = λ r.
          statement-keeps P kit.host
            (λ t. added (put_permissions t) t (insert (permission_clash r) r t.access.permissions))
            (λ t p.
              added-Kept P (put_permissions t) t
                (insert (permission_clash r) r t.access.permissions) (permissions t p));
      user_role = λ l.
          statement-keeps P kit.host
            (λ t. added (put_user_roles t) t (insert (user_role_clash l) l t.access.user_roles))
            (λ t p.
              added-Kept P (put_user_roles t) t (insert (user_role_clash l) l t.access.user_roles)
                (user_roles t p));
      user_role_or_ignore = λ l.
          statement-keeps P kit.host
            (λ t. ignored (user_role_clash l) l t.access.user_roles (put_user_roles t) t)
            (λ t p.
              ignored-Kept P (user_role_clash l) l t.access.user_roles (put_user_roles t) t p
                (user_roles t p (l ∷ t.access.user_roles)));
      role_permission = λ l.
          statement-keeps P kit.host
            (λ t.
              added (put_role_permissions t) t
                (insert (role_permission_clash l) l t.access.role_permissions))
            (λ t p.
              added-Kept P (put_role_permissions t) t
                (insert (role_permission_clash l) l t.access.role_permissions)
                (role_permissions t p));
      role_permission_or_ignore = λ l.
          statement-keeps P kit.host
            (λ t.
              ignored (role_permission_clash l) l t.access.role_permissions (put_role_permissions t)
                t)
            (λ t p.
              ignored-Kept P (role_permission_clash l) l t.access.role_permissions
                (put_role_permissions t) t p
                (role_permissions t p (l ∷ t.access.role_permissions)));
      token = token;
      updated = λ test change.
          statement-keeps P kit.host
            (λ t. ok (
              rows_affected test t.access.users,
              with_access (put_users t (update_where test change t.access.users)) t,
            ))
            (λ t p. users t p (update_where test change t.access.users));
      revoked = revoked;
      no_user_roles = λ user.
          statement-keeps P kit.host
            (λ t. ok (
              tt,
              with_access
                  (put_user_roles t (filter (λ l. not (str_eq l.user_id user)) t.access.user_roles))
                  t,
            ))
            (λ t p. user_roles t p (filter (λ l. not (str_eq l.user_id user)) t.access.user_roles));
      no_role_permissions = λ role.
          statement-keeps P kit.host
            (λ t. ok (
              tt,
              with_access
                  (put_role_permissions t
                    (filter (λ l. not (str_eq l.role_id role)) t.access.role_permissions))
                  t,
            ))
            (λ t p.
              role_permissions t p
                (filter (λ l. not (str_eq l.role_id role)) t.access.role_permissions));
    }
