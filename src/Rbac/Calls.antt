-- ===== src/Rbac/Calls.antt =====
-- Sequences of calls of the service of internal/security/rbac.
use ai_council.Prelude.{ℕ, String, Bool, Option, List, [], ◌∷◌}
use ai_council.Storage.Tables.{Tables}
use ai_council.Storage.Sql.{World}
use ai_council.Rbac.{Kit}
use ai_council.Rbac.Tokens.{issue_token, revoke_token, authenticate, revoke_presented_token}
use ai_council.Rbac.Catalog.{seed_permissions, bootstrap_legacy_admin}
use ai_council.Rbac.Accounts.{
  create_user, create_user_with_password, login, set_password, create_role, grant_permission,
  assign_role, grant_role, bootstrap_admin,
}
use ai_council.Rbac.Managed.{
  create_managed_user, update_user, patch_user, create_managed_role, replace_role_permissions,
}
use ai_council.Rbac.Respecting.{Respects}
use ai_council.Rbac.Respecting.Tokens.{
  issue_token-keeps, revoke_token-keeps, authenticate-keeps, revoke_presented_token-keeps,
}
use ai_council.Rbac.Respecting.Accounts.{
  create_user-keeps, create_user_with_password-keeps, login-keeps, set_password-keeps,
  create_role-keeps, grant_permission-keeps, assign_role-keeps, grant_role-keeps,
  bootstrap_admin-keeps, seed_permissions-keeps, bootstrap_legacy_admin-keeps,
}
use ai_council.Rbac.Respecting.Managed.{
  create_managed_user-keeps, update_user-keeps, patch_user-keeps, create_managed_role-keeps,
  replace_role_permissions-keeps,
}

-- The calls that may write, and `Authenticate`; the listings read only.
pub data Call : Type 0 where
  creating_user creating_user_with_password setting_password : String → String → Call
  logging_in : String → String → ℕ → Call
  creating_role : String → Call
  granting_permission assigning_role granting_role : String → String → Call
  bootstrapping_admin : String → String → ℕ → Call
  bootstrapping_legacy_admin : String → String → String → Call
  seeding : Call
  issuing_token : String → ℕ → Call
  revoking_token revoking_presented_token authenticating : String → Call
  creating_managed_user : String → String → List String → Call
  updating_user : String → String → List String → Bool → Call
  patching_user : String → Option String → Option (List String) → Option Bool → Call
  creating_managed_role replacing_role_permissions : String → List String → Call

module _ (kit : Kit) where
  -- A call whose error the caller passes over.
  unfoldable pub perform : World → Call → World
  perform w (creating_user subject token) = (create_user kit subject token w).1
  perform w (creating_user_with_password subject password) =
      (create_user_with_password kit subject password w).1
  perform w (setting_password subject password) = (set_password kit subject password w).1
  perform w (logging_in subject password ttl) = (login kit subject password ttl w).1
  perform w (creating_role name) = (create_role kit name w).1
  perform w (granting_permission role permission) = (grant_permission kit role permission w).1
  perform w (assigning_role subject role) = (assign_role kit subject role w).1
  perform w (granting_role subject role) = (grant_role kit subject role w).1
  perform w (bootstrapping_admin subject password ttl) =
      (bootstrap_admin kit subject password ttl w).1
  perform w (bootstrapping_legacy_admin subject token role) =
      (bootstrap_legacy_admin kit subject token role w).1
  perform w seeding = (seed_permissions kit w).1
  perform w (issuing_token user_id ttl) = (issue_token kit user_id ttl w).1
  perform w (revoking_token token) = (revoke_token kit token w).1
  perform w (revoking_presented_token token) = (revoke_presented_token kit token w).1
  perform w (authenticating token) = (authenticate kit token w).1
  perform w (creating_managed_user subject password roles) =
      (create_managed_user kit subject password roles w).1
  perform w (updating_user subject password roles disabled) =
      (update_user kit subject password roles disabled w).1
  perform w (patching_user subject password roles disabled) =
      (patch_user kit subject password roles disabled w).1
  perform w (creating_managed_role name permissions) =
      (create_managed_role kit name permissions w).1
  perform w (replacing_role_permissions name permissions) =
      (replace_role_permissions kit name permissions w).1

  unfoldable pub perform_all : World → List Call → World
  unfolding perform
  perform_all w [] = w
  perform_all w (c ∷ cs) = perform_all (perform w c) cs

module _ (kit : Kit) (P : Tables → Type 0) (r : Respects kit P) where
  perform-keeps : (c : Call) (w : World) → P w.tables → P (perform kit w c).tables
  unfolding perform
  perform-keeps (creating_user subject token) = create_user-keeps kit P r subject token
  perform-keeps (creating_user_with_password subject password) =
      create_user_with_password-keeps kit P r subject password
  perform-keeps (setting_password subject password) = set_password-keeps kit P r subject password
  perform-keeps (logging_in subject password ttl) = login-keeps kit P r subject password ttl
  perform-keeps (creating_role name) = create_role-keeps kit P r name
  perform-keeps (granting_permission role permission) =
      grant_permission-keeps kit P r role permission
  perform-keeps (assigning_role subject role) = assign_role-keeps kit P r subject role
  perform-keeps (granting_role subject role) = grant_role-keeps kit P r subject role
  perform-keeps (bootstrapping_admin subject password ttl) =
      bootstrap_admin-keeps kit P r subject password ttl
  perform-keeps (bootstrapping_legacy_admin subject token role) =
      bootstrap_legacy_admin-keeps kit P r subject token role
  perform-keeps seeding = seed_permissions-keeps kit P r
  perform-keeps (issuing_token user_id ttl) = issue_token-keeps kit P r user_id ttl
  perform-keeps (revoking_token token) = revoke_token-keeps kit P r token
  perform-keeps (revoking_presented_token token) = revoke_presented_token-keeps kit P r token
  perform-keeps (authenticating token) = authenticate-keeps kit P token
  perform-keeps (creating_managed_user subject password roles) =
      create_managed_user-keeps kit P r subject password roles
  perform-keeps (updating_user subject password roles disabled) =
      update_user-keeps kit P r subject password roles disabled
  perform-keeps (patching_user subject password roles disabled) =
      patch_user-keeps kit P r subject password roles disabled
  perform-keeps (creating_managed_role name permissions) =
      create_managed_role-keeps kit P r name permissions
  perform-keeps (replacing_role_permissions name permissions) =
      replace_role_permissions-keeps kit P r name permissions

  pub perform_all-keeps :
      (cs : List Call) (w : World) → P w.tables → P (perform_all kit w cs).tables
  unfolding perform_all
  perform_all-keeps [] w p = p
  perform_all-keeps (c ∷ cs) w p = perform_all-keeps cs (perform kit w c) (perform-keeps c w p)
