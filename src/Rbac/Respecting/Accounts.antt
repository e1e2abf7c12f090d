-- ===== src/Rbac/Respecting/Accounts.antt =====
-- What the operations on accounts and the bootstraps, of internal/security/rbac/service.go and
-- catalog.go, keep.
use ai_council.Prelude.{ℕ, String, Option, none, some, List, ◌==◌}
use ai_council.Storage.Tables.{UserRecord, Tables}
use ai_council.Storage.Sql.{pure, unauthorized, forbidden}
use ai_council.Rbac.{
  Kit, missing_as, by_subject, by_id, role_named, user_role_clash, first, first_or_none,
  create_role_row, create_permission_row, create_user_role, or_create, update_users, hashed,
}
use ai_council.Rbac.Tokens.{issue_token_for_user, issue_token, identity_for_user}
use ai_council.Rbac.Catalog.{
  new_permission, create_user_or_ignore, seed_in_transaction, seed_permissions,
  grant_bootstrap_permissions, bootstrap_legacy_admin, standard_permissions,
}
use ai_council.Rbac.Accounts.{
  new_user, with_password, create_user, create_user_with_password, may_log_in, login, set_password,
  create_role, is_permission, is_role, grant_permission, assign_role, grant_role, repair,
  new_password, needs_repair, repair_user, bootstrap_admin,
}
use ai_council.Rbac.Keeping.{
  Keeps, >>=-keeps, if-keeps, transaction-keeps, first-keeps, first_or_none-keeps, hashed-keeps,
  or_create-keeps,
}
use ai_council.Rbac.Respecting.{
  Respects, permissions_or_create-keeps, grant_bootstrap_permissions-keeps,
}
use ai_council.Rbac.Respecting.Tokens.{
  identity_for_user-keeps, issue_token_for_user-keeps, issue_token-keeps,
}

module _ (kit : Kit) (P : Tables → Type 0) (r : Respects kit P) where
  pub create_user-keeps : (subject token : String) → Keeps P (create_user kit subject token)
  unfolding create_user
  create_user-keeps subject token = r.user_row _

  pub create_user_with_password-keeps :
      (subject password : String) → Keeps P (create_user_with_password kit subject password)
  unfolding create_user_with_password
  create_user_with_password-keeps subject password =
      >>=-keeps P (hashed kit password) _ (hashed-keeps P kit password) (λ hash. r.user_row _)

  pub login-keeps : (subject password : String) (ttl : ℕ) → Keeps P (login kit subject password ttl)
  unfolding login
  login-keeps subject password ttl =
      >>=-keeps P (missing_as unauthorized (first kit (λ a. a.users) (by_subject subject))) _
        (first-keeps P kit (λ a. a.users) (by_subject subject))
        (λ user.
          if-keeps P (may_log_in kit password user) _ _
            (>>=-keeps P (issue_token_for_user kit user ttl) _
              (issue_token_for_user-keeps kit P r user ttl)
              (λ issued.
                >>=-keeps P (identity_for_user kit user.id) _
                  (identity_for_user-keeps kit P user.id) (λ identity w p. p)))
            (λ w p. p))

  pub set_password-keeps : (subject password : String) → Keeps P (set_password kit subject password)
  unfolding set_password
  set_password-keeps subject password =
      >>=-keeps P (hashed kit password) _ (hashed-keeps P kit password) (λ hash.
        >>=-keeps P (update_users kit (by_subject subject) (with_password hash)) _ (r.updated _ _)
          (λ n. if-keeps P (n == 0) _ _ (λ w p. p) (λ w p. p)))

  pub create_role-keeps : (name : String) → Keeps P (create_role kit name)
  unfolding create_role
  create_role-keeps name = r.role_row _

  pub grant_permission-keeps :
      (role permission : String) → Keeps P (grant_permission kit role permission)
  unfolding grant_permission
  grant_permission-keeps role permission = transaction-keeps P kit.host _ (
      >>=-keeps P (missing_as forbidden (first kit (λ a. a.roles) (role_named role))) _
        (first-keeps P kit (λ a. a.roles) (role_named role))
        (λ role_record.
          >>=-keeps P (first_or_none kit (λ a. a.permissions) (is_permission kit permission)) _
            (first_or_none-keeps P kit _ _)
            (λ row.
              >>=-keeps P
                (or_create kit (new_permission kit permission)
                  (create_permission_row kit (new_permission kit permission)) row)
                _ (or_create-keeps P kit _ _ row (r.permission_row _)) (λ p. r.role_permission _))))

  pub assign_role-keeps : (subject role : String) → Keeps P (assign_role kit subject role)
  unfolding assign_role
  assign_role-keeps subject role = transaction-keeps P kit.host _ (
      >>=-keeps P (first kit (λ a. a.users) (by_subject subject)) _ (first-keeps P kit _ _) (λ user.
        >>=-keeps P (missing_as forbidden (first kit (λ a. a.roles) (role_named role))) _
          (first-keeps P kit (λ a. a.roles) (role_named role)) (λ role_record. r.user_role _)))

  pub grant_role-keeps : (subject role : String) → Keeps P (grant_role kit subject role)
  unfolding grant_role
  grant_role-keeps subject role = transaction-keeps P kit.host _ (
      >>=-keeps P (first kit (λ a. a.users) (by_subject subject)) _ (first-keeps P kit _ _) (λ user.
        >>=-keeps P (first_or_none kit (λ a. a.roles) (is_role kit role)) _
          (first_or_none-keeps P kit _ _)
          (λ row.
            >>=-keeps P
              (or_create kit (record { id = role; name = role })
                (create_role_row kit (record { id = role; name = role })) row)
              _ (or_create-keeps P kit _ _ row (r.role_row _))
              (λ rr.
                >>=-keeps P
                  (first_or_none kit (λ a. a.user_roles)
                    (user_role_clash (record { user_id = user.id; role_id = rr.id })))
                  _ (first_or_none-keeps P kit _ _)
                  (λ link.
                    >>=-keeps P
                      (or_create kit (record { user_id = user.id; role_id = rr.id })
                        (create_user_role kit (record { user_id = user.id; role_id = rr.id })) link)
                      _ (or_create-keeps P kit _ _ link (r.user_role _)) (λ u w p. p))))))

  new_password-keeps :
      (password : String) (o : Option (List ℕ)) → Keeps P (new_password kit password o)
  new_password-keeps password (some hash) w p = p
  new_password-keeps password none w p =
      >>=-keeps P (hashed kit password) (λ hash. pure (some hash)) (hashed-keeps P kit password)
        (λ hash v q. q) w p

  repair_user-keeps :
      (password : String) (user : UserRecord) → Keeps P (repair_user kit password user)
  unfolding repair_user
  repair_user-keeps password user =
      >>=-keeps P (new_password kit password user.password_hash) _
        (new_password-keeps password user.password_hash)
        (λ hash.
          if-keeps P (needs_repair kit user hash) _ _
            (>>=-keeps P (update_users kit (by_id user.id) (repair kit user hash)) _ (r.updated _ _)
              (λ n w p. p))
            (λ w p. p))

  pub bootstrap_admin-keeps :
      (subject password : String) (ttl : ℕ) → Keeps P (bootstrap_admin kit subject password ttl)
  unfolding bootstrap_admin
  bootstrap_admin-keeps subject password ttl = transaction-keeps P kit.host _ (
      >>=-keeps P (create_user_or_ignore kit (new_user subject none)) _ (r.user_or_ignore _)
        (λ created.
          >>=-keeps P (first kit (λ a. a.users) (by_subject subject)) _ (first-keeps P kit _ _)
            (λ user.
              >>=-keeps P (repair_user kit password user) _ (repair_user-keeps password user) (λ u.
                >>=-keeps P (grant_bootstrap_permissions kit user.id "admin") _
                  (grant_bootstrap_permissions-keeps kit P r user.id "admin")
                  (λ v.
                    if-keeps P created _ _
                      (>>=-keeps P (issue_token kit user.id ttl) _
                        (issue_token-keeps kit P r user.id ttl) (λ issued w p. p))
                      (λ w p. p))))))

  pub seed_permissions-keeps : Keeps P (seed_permissions kit)
  unfolding seed_permissions seed_in_transaction
  seed_permissions-keeps = transaction-keeps P kit.host _ (
      >>=-keeps P (seed_in_transaction kit) _
        (permissions_or_create-keeps kit P r standard_permissions) (λ ps w p. p))

  pub bootstrap_legacy_admin-keeps :
      (subject token role : String) → Keeps P (bootstrap_legacy_admin kit subject token role)
  unfolding bootstrap_legacy_admin
  bootstrap_legacy_admin-keeps subject token role = transaction-keeps P kit.host _ (
      >>=-keeps P (create_user_or_ignore kit _) _ (r.user_or_ignore _) (λ created.
        >>=-keeps P (first kit (λ a. a.users) (by_subject subject)) _ (first-keeps P kit _ _)
          (λ user. grant_bootstrap_permissions-keeps kit P r user.id role)))
