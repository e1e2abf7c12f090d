-- ===== src/Rbac.antt =====
-- internal/security/rbac: users, roles, permissions and access tokens. This file has the statements
-- that the operations of the service share; an empty identifier, for which the ORM leaves a condition
-- out, is not modelled.
mod Base64
pub mod Password
pub mod Wildcard
pub mod Tokens
pub mod Catalog
pub mod Accounts
pub mod Managed
pub mod Keeping
pub mod Respecting
pub mod Inversion
pub mod Admission
pub mod Grants
pub mod Running
pub mod Session
pub mod Links
pub mod Replacement
pub mod Examples
pub mod Calls
pub mod Revocation
use ai_council.Prelude.{
  ℕ, suc, String, Bool, true, false, ◌&&◌, ◌||◌, Option, none, some, List, [], ◌∷◌, map, str_eq,
  any, find, filter, order_by, distinct, not, if◌then◌else◌,
}
use ai_council.Storage.Tables.{
  UserRecord, RoleRecord, UserRoleRecord, PermissionRecord, RolePermissionRecord, AccessTokenRecord,
  Access, Tables, update_where, rows_affected,
}
use ai_council.Storage.Sql.{
  Error, not_found, unauthorized, forbidden, entropy, Result, ok, err, Host, World, Sql, ◌>>=◌,
  ◌>>◌, pure, fail, tick, insert, statement,
}
use ai_council.Rbac.Password.{IdKey, hash_password}

-- What the service takes from outside: the database, SHA-256 in hexadecimal, the bytes of a text, Argon2,
-- and the bytes that `crypto/rand` gives for a salt; the texts of random tokens are those of `host.fresh`.
pub record Kit : Type 0 where
  pub host : Host
  pub sha256 : String → String
  pub bytes : String → List ℕ
  pub id_key : IdKey
  pub salt : ℕ → List ℕ

pub record Identity : Type 0 where
  pub user_id : String
  pub subject : String
  pub roles : List String
  pub permissions : List String
  pub expires_at : Option ℕ

pub record User : Type 0 where
  pub subject : String
  pub disabled : Bool
  pub roles : List String

pub record Role : Type 0 where
  pub name : String
  pub permissions : List String

abbrev pub with_access : Access → Tables → Tables
with_access a t = record t { access = a }

abbrev pub found : {R : Type 0} → Tables → Option R → Result (R × Tables)
found t none = err not_found
found t (some r) = ok (r, t)

-- A new row, where no key of the table clashes.
abbrev pub added :
    {R : Type 0} → (List R → Access) → Tables → Result (List R) → Result (Unit {0} × Tables)
added put t (ok rows) = ok (tt, with_access (put rows) t)
added put t (err e) = err e

-- `errors.Is(err, gorm.ErrRecordNotFound)` turns this error into another one.
abbrev pub instead : {A : Type 0} → Error → Result A → Result A
instead e (ok a) = ok a
instead e (err not_found) = err e
instead e (err f) = err f

abbrev pub missing_as : {A : Type 0} → Error → Sql A → Sql A
missing_as e m w = (instead e (m w).0, (m w).1)

-- Primary keys and unique indexes.
abbrev pub user_clash : UserRecord → UserRecord → Bool
user_clash new u = str_eq u.id new.id || str_eq u.subject new.subject

abbrev pub role_clash : RoleRecord → RoleRecord → Bool
role_clash new r = str_eq r.id new.id || str_eq r.name new.name

abbrev pub permission_clash : PermissionRecord → PermissionRecord → Bool
permission_clash new p = str_eq p.id new.id || str_eq p.name new.name

abbrev pub user_role_clash : UserRoleRecord → UserRoleRecord → Bool
user_role_clash new l = str_eq l.user_id new.user_id && str_eq l.role_id new.role_id

abbrev pub role_permission_clash : RolePermissionRecord → RolePermissionRecord → Bool
role_permission_clash new l =
    str_eq l.role_id new.role_id && str_eq l.permission_id new.permission_id

abbrev pub token_clash : AccessTokenRecord → AccessTokenRecord → Bool
token_clash new k = str_eq k.id new.id || str_eq k.token_hash new.token_hash

abbrev pub by_subject : String → UserRecord → Bool
by_subject subject u = str_eq u.subject subject

abbrev pub by_id : String → UserRecord → Bool
by_id id u = str_eq u.id id

abbrev pub role_named : String → RoleRecord → Bool
role_named name r = str_eq r.name name

abbrev pub permission_named : String → PermissionRecord → Bool
permission_named name p = str_eq p.name name

abbrev pub by_hash : String → AccessTokenRecord → Bool
by_hash hash k = str_eq k.token_hash hash

-- The joins of `identityForUser` and `rolesForUser`: the names of the roles that a user has.
unfoldable pub roles_of : Access → String → List String
unfolding distinct order_by
roles_of a user = distinct (
    order_by (λ n. n)
      (map (λ r. r.name)
        (filter (λ r. any (λ l. str_eq l.role_id r.id && str_eq l.user_id user) a.user_roles)
          a.roles)))

-- Whether a row of role permissions is for this permission and a role of this user.
abbrev pub reaches : Access → String → PermissionRecord → RolePermissionRecord → Bool
reaches a user p l =
    str_eq l.permission_id p.id
    && any (λ k. str_eq k.role_id l.role_id && str_eq k.user_id user) a.user_roles

unfoldable pub permissions_of : Access → String → List String
unfolding distinct order_by
permissions_of a user = distinct (
    order_by (λ n. n)
      (map (λ p. p.name) (filter (λ p. any (reaches a user p) a.role_permissions) a.permissions)))

unfoldable pub role_permissions_of : Access → String → List String
unfolding distinct order_by
role_permissions_of a role = distinct (
    order_by (λ n. n)
      (map (λ p. p.name)
        (filter
          (λ p. any (λ l. str_eq l.permission_id p.id && str_eq l.role_id role) a.role_permissions)
          a.permissions)))

module _ (kit : Kit) where
  -- `First(&row)`. A table is given in the order of its identifiers, unless one row at most can match.
  unfoldable pub first : {R : Type 0} → (Access → List R) → (R → Bool) → Sql R
  unfolding statement
  first table test = statement kit.host (λ t. found t (find test (table t.access)))

  -- The same where nothing is an answer and not an error.
  unfoldable pub first_or_none : {R : Type 0} → (Access → List R) → (R → Bool) → Sql (Option R)
  unfolding statement
  first_or_none table test = statement kit.host (λ t. ok (find test (table t.access), t))

  -- A query that gives a value.
  unfoldable pub select : {A : Type 0} → (Access → A) → Sql A
  unfolding statement
  select query = statement kit.host (λ t. ok (query t.access, t))

  unfoldable pub create_user_row : UserRecord → Sql (Unit {0})
  unfolding statement
  create_user_row u = statement kit.host λ t.
      added (λ rows. record t.access { users = rows }) t (insert (user_clash u) u t.access.users)

  unfoldable pub create_role_row : RoleRecord → Sql (Unit {0})
  unfolding statement
  create_role_row r = statement kit.host λ t.
      added (λ rows. record t.access { roles = rows }) t (insert (role_clash r) r t.access.roles)

  unfoldable pub create_permission_row : PermissionRecord → Sql (Unit {0})
  unfolding statement
  create_permission_row p = statement kit.host λ t.
      added (λ rows. record t.access { permissions = rows }) t
        (insert (permission_clash p) p t.access.permissions)

  unfoldable pub create_user_role : UserRoleRecord → Sql (Unit {0})
  unfolding statement
  create_user_role l = statement kit.host λ t.
      added (λ rows. record t.access { user_roles = rows }) t
        (insert (user_role_clash l) l t.access.user_roles)

  unfoldable pub create_role_permission : RolePermissionRecord → Sql (Unit {0})
  unfolding statement
  create_role_permission l = statement kit.host λ t.
      added (λ rows. record t.access { role_permissions = rows }) t
        (insert (role_permission_clash l) l t.access.role_permissions)

  unfoldable pub create_token : AccessTokenRecord → Sql (Unit {0})
  unfolding statement
  create_token k = statement kit.host λ t.
      added (λ rows. record t.access { tokens = rows }) t (insert (token_clash k) k t.access.tokens)

  -- `FirstOrCreate`
  abbrev pub or_create : {R : Type 0} → R → Sql (Unit {0}) → Option R → Sql R
  or_create new creating (some r) = pure r
  or_create new creating none = creating >> pure new

  -- An update of the users that satisfy a test: the number of rows affected.
  unfoldable pub update_users : (UserRecord → Bool) → (UserRecord → UserRecord) → Sql ℕ
  unfolding statement
  update_users test change = statement kit.host λ t. ok (
    rows_affected test t.access.users,
    with_access (record t.access { users = update_where test change t.access.users }) t,
  )

  unfoldable pub revoke_row : String → ℕ → Sql (Unit {0})
  unfolding statement
  revoke_row id time = statement kit.host λ t. ok (
    tt,
    with_access
        (record t.access {
          tokens =
              update_where (λ k. str_eq k.id id) (λ k. record k { revoked_at = some time })
                t.access.tokens;
        })
        t,
  )

  unfoldable pub delete_user_roles : String → Sql (Unit {0})
  unfolding statement
  delete_user_roles user = statement kit.host λ t. ok (
    tt,
    with_access
        (record t.access {
          user_roles = filter (λ l. not (str_eq l.user_id user)) t.access.user_roles;
        })
        t,
  )

  unfoldable pub delete_role_permissions : String → Sql (Unit {0})
  unfolding statement
  delete_role_permissions role = statement kit.host λ t. ok (
    tt,
    with_access
        (record t.access {
          role_permissions = filter (λ l. not (str_eq l.role_id role)) t.access.role_permissions;
        })
        t,
  )

  -- `randomToken`
  unfoldable pub random_token : Sql String
  random_token w =
      if kit.host.fault w.calls
      then (err entropy, tick w)
      else (ok (kit.host.fresh w.calls), tick w)

  -- `HashPassword`
  unfoldable pub hashed : String → Sql (List ℕ)
  unfolding hash_password
  hashed password w =
      if kit.host.fault w.calls
      then (err entropy, tick w)
      else (ok (hash_password kit.id_key (kit.salt w.calls) (kit.bytes password)), tick w)
