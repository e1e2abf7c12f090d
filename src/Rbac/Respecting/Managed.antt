-- ===== src/Rbac/Respecting/Managed.antt =====
-- What the operations of the management API, of internal/security/rbac/service.go, keep.
use ai_council.Prelude.{
  String, Bool, Option, none, some, List, [], ◌∷◌, str_eq, is_empty, find, order_by, if◌then◌else◌,
}
use ai_council.Storage.Tables.{UserRecord, RoleRecord, PermissionRecord, Tables}
use ai_council.Storage.Sql.{pure, fail, invalid_password, transaction}
use ai_council.Rbac.{
  Kit, by_subject, by_id, role_named, roles_of, role_permissions_of, first, select, create_user_row,
  create_role_row, create_user_role, create_role_permission, update_users, delete_user_roles,
  delete_role_permissions, hashed,
}
use ai_council.Rbac.Catalog.{permissions_or_create}
use ai_council.Rbac.Accounts.{new_user, with_password, with_disabled}
use ai_council.Rbac.Managed.{
  or_missing, find_roles, create_user_roles, replace_user_roles, create_role_permissions,
  replace_in_transaction, user_by_subject, with_permissions, list_roles, create_managed_user,
  change_user, change_password, update_user, patch_password, patch_disabled, patch_roles,
  patch_user, role_by_name, create_managed_role, replace_role_permissions,
}
use ai_council.Rbac.Keeping.{
  Keeps, >>=-keeps, if-keeps, transaction-keeps, first-keeps, select-keeps, hashed-keeps,
}
use ai_council.Rbac.Respecting.{Respects, permissions_or_create-keeps}

module _ (kit : Kit) (P : Tables → Type 0) where
  user_by_subject-keeps : (subject : String) → Keeps P (user_by_subject kit subject)
  unfolding user_by_subject
  user_by_subject-keeps subject =
      >>=-keeps P (first kit (λ a. a.users) (by_subject subject)) _ (first-keeps P kit _ _) (λ row.
        >>=-keeps P (select kit (λ a. roles_of a row.id)) _ (select-keeps P kit _) (λ roles w p. p))

  with_permissions-keeps : (rows : List RoleRecord) → Keeps P (with_permissions kit rows)
  unfolding with_permissions
  with_permissions-keeps [] w p = p
  with_permissions-keeps (row ∷ rows) w p =
      >>=-keeps P (select kit (λ a. role_permissions_of a row.id)) _ (select-keeps P kit _)
        (λ permissions.
          >>=-keeps P (with_permissions kit rows) _ (with_permissions-keeps rows) (λ rest v q. q))
        w p

  or_missing-keeps : {A : Type 0} (o : Option A) → Keeps P (or_missing o)
  or_missing-keeps none w p = p
  or_missing-keeps (some a) w p = p

  role_by_name-keeps : (name : String) → Keeps P (role_by_name kit name)
  unfolding role_by_name list_roles
  role_by_name-keeps name =
      >>=-keeps P (list_roles kit) _
        (>>=-keeps P (select kit (λ a. order_by (λ r. r.name) a.roles)) _ (select-keeps P kit _)
          with_permissions-keeps)
        (λ roles. or_missing-keeps (find (λ r. str_eq r.name name) roles))

module _ (kit : Kit) (P : Tables → Type 0) (r : Respects kit P) where
  find_roles-keeps : (names : List String) → Keeps P (find_roles kit names)
  unfolding find_roles
  find_roles-keeps [] w p = p
  find_roles-keeps (name ∷ names) w p =
      >>=-keeps P (first kit (λ a. a.roles) (role_named name)) _ (first-keeps P kit _ _)
        (λ role. >>=-keeps P (find_roles kit names) _ (find_roles-keeps names) (λ rest v q. q)) w p

  create_user_roles-keeps :
      (user_id : String) (roles : List RoleRecord) → Keeps P (create_user_roles kit user_id roles)
  unfolding create_user_roles
  create_user_roles-keeps user_id [] w p = p
  create_user_roles-keeps user_id (role ∷ roles) w p =
      >>=-keeps P (create_user_role kit _) _ (r.user_role _)
        (λ u. create_user_roles-keeps user_id roles) w p

  replace_user_roles-keeps :
      (user_id : String) (names : List String) → Keeps P (replace_user_roles kit user_id names)
  unfolding replace_user_roles
  replace_user_roles-keeps user_id names =
      >>=-keeps P (find_roles kit names) _ (find_roles-keeps names) (λ roles.
        >>=-keeps P (delete_user_roles kit user_id) _ (r.no_user_roles user_id)
          (λ u. create_user_roles-keeps user_id roles))

  create_role_permissions-keeps :
      (role_id : String) (ps : List PermissionRecord)
      → Keeps P (create_role_permissions kit role_id ps)
  unfolding create_role_permissions
  create_role_permissions-keeps role_id [] w p = p
  create_role_permissions-keeps role_id (x ∷ ps) w p =
      >>=-keeps P (create_role_permission kit _) _ (r.role_permission _)
        (λ u. create_role_permissions-keeps role_id ps) w p

  replace_in_transaction-keeps :
      (name : String) (names : List String) → Keeps P (replace_in_transaction kit name names)
  unfolding replace_in_transaction
  replace_in_transaction-keeps name names =
      >>=-keeps P (first kit (λ a. a.roles) (role_named name)) _ (first-keeps P kit _ _) (λ role.
        >>=-keeps P (permissions_or_create kit names) _ (permissions_or_create-keeps kit P r names)
          (λ ps.
            >>=-keeps P (delete_role_permissions kit role.id) _ (r.no_role_permissions role.id)
              (λ u. create_role_permissions-keeps role.id ps)))

  pub create_managed_user-keeps :
      (subject password : String) (roles : List String)
      → Keeps P (create_managed_user kit subject password roles)
  unfolding create_managed_user
  create_managed_user-keeps subject password roles =
      >>=-keeps P (transaction kit.host _) _
        (transaction-keeps P kit.host _ (
          >>=-keeps P (hashed kit password) _ (hashed-keeps P kit password) (λ hash.
            >>=-keeps P (create_user_row kit (new_user subject (some hash))) _ (r.user_row _)
              (λ u. replace_user_roles-keeps subject roles))))
        (λ u. user_by_subject-keeps kit P subject)

  change_user-keeps :
      (user : UserRecord) (change : UserRecord → UserRecord) → Keeps P (change_user kit user change)
  change_user-keeps user change =
      >>=-keeps P (update_users kit (by_id user.id) change) (λ _. pure tt) (r.updated _ _)
        (λ n w p. p)

  change_password-keeps :
      (user : UserRecord) (password : String) → Keeps P (change_password kit user password)
  change_password-keeps user password =
      >>=-keeps P (hashed kit password) (λ hash. change_user kit user (with_password hash))
        (hashed-keeps P kit password) (λ hash. change_user-keeps user (with_password hash))

  pub update_user-keeps :
      (subject password : String) (roles : List String) (disabled : Bool)
      → Keeps P (update_user kit subject password roles disabled)
  unfolding update_user
  update_user-keeps subject password roles disabled =
      >>=-keeps P (transaction kit.host _) _
        (transaction-keeps P kit.host _ (
          >>=-keeps P (first kit (λ a. a.users) (by_subject subject)) _ (first-keeps P kit _ _)
            (λ user.
              >>=-keeps P (if is_empty password then pure tt else change_password kit user password)
                _
                (if-keeps P (is_empty password) _ _ (λ w p. p)
                  (change_password-keeps user password))
                (λ u.
                  >>=-keeps P (change_user kit user (with_disabled disabled)) _
                    (change_user-keeps user (with_disabled disabled))
                    (λ v. replace_user_roles-keeps user.id roles)))))
        (λ u. user_by_subject-keeps kit P subject)

  patch_password-keeps :
      (user : UserRecord) (o : Option String) → Keeps P (patch_password kit user o)
  patch_password-keeps user none w p = p
  patch_password-keeps user (some password) w p =
      if-keeps P (is_empty password) (fail invalid_password) (change_password kit user password)
        (λ v q. q) (change_password-keeps user password) w p

  patch_disabled-keeps : (user : UserRecord) (o : Option Bool) → Keeps P (patch_disabled kit user o)
  patch_disabled-keeps user none w p = p
  patch_disabled-keeps user (some disabled) w p =
      change_user-keeps user (with_disabled disabled) w p

  patch_roles-keeps :
      (user : UserRecord) (o : Option (List String)) → Keeps P (patch_roles kit user o)
  patch_roles-keeps user none w p = p
  patch_roles-keeps user (some roles) w p = replace_user_roles-keeps user.id roles w p

  pub patch_user-keeps :
      (subject : String) (password : Option String) (roles : Option (List String))
      (disabled : Option Bool)
      → Keeps P (patch_user kit subject password roles disabled)
  unfolding patch_user
  patch_user-keeps subject password roles disabled =
      >>=-keeps P (transaction kit.host _) _
        (transaction-keeps P kit.host _ (
          >>=-keeps P (first kit (λ a. a.users) (by_subject subject)) _ (first-keeps P kit _ _)
            (λ user.
              >>=-keeps P (patch_password kit user password) _ (patch_password-keeps user password)
                (λ u.
                  >>=-keeps P (patch_disabled kit user disabled) _
                    (patch_disabled-keeps user disabled) (λ v. patch_roles-keeps user roles)))))
        (λ u. user_by_subject-keeps kit P subject)

  pub create_managed_role-keeps :
      (name : String) (permissions : List String)
      → Keeps P (create_managed_role kit name permissions)
  unfolding create_managed_role
  create_managed_role-keeps name permissions =
      >>=-keeps P (transaction kit.host _) _
        (transaction-keeps P kit.host _ (
          >>=-keeps P (create_role_row kit (record { id = name; name = name })) _ (r.role_row _)
            (λ u. replace_in_transaction-keeps name permissions)))
        (λ u. role_by_name-keeps kit P name)

  pub replace_role_permissions-keeps :
      (name : String) (permissions : List String)
      → Keeps P (replace_role_permissions kit name permissions)
  unfolding replace_role_permissions
  replace_role_permissions-keeps name permissions =
      >>=-keeps P (transaction kit.host _) _
        (transaction-keeps P kit.host _ (replace_in_transaction-keeps name permissions))
        (λ u. role_by_name-keeps kit P name)
