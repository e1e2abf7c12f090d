-- ===== src/Rbac/Tokens.antt =====
-- internal/security/rbac/token.go, and what service.go does with tokens: issue, revoke, authenticate,
-- authorize. A lifetime is not negative.
use ai_council.Prelude.{
  ℕ, ◌+◌, String, Bool, true, false, not, ◌||◌, Option, none, some, List, str_eq, any, ltb,
  order_by, if◌then◌else◌,
}
use ai_council.Storage.Tables.{UserRecord, AccessTokenRecord, Access}
use ai_council.Storage.Sql.{unauthorized, forbidden, Sql, ◌>>=◌, ◌>>◌, pure, fail, now}
use ai_council.Rbac.{
  Kit, Identity, missing_as, by_subject, by_id, by_hash, roles_of, permissions_of, first,
  first_or_none, select, create_token, revoke_row, random_token,
}
use ai_council.Rbac.Wildcard.{grants}

abbrev pub is_revoked : AccessTokenRecord → Bool
is_revoked k = elim k.revoked_at [ none ↦ false | some time ↦ true ]

-- The users in the order of their identifiers.
abbrev pub users_by_id : Access → List UserRecord
users_by_id a = order_by (λ u. u.id) a.users

abbrev pub holds_hash : String → UserRecord → Bool
holds_hash hash u = str_eq u.token_hash hash

abbrev pub new_token : Kit → UserRecord → String → String → ℕ → ℕ → AccessTokenRecord
new_token kit user plain id time ttl = record {
  id = id;
  user_id = user.id;
  token_hash = kit.sha256 plain;
  expires_at = time + ttl;
  revoked_at = none;
  created_at = time;
}

module _ (kit : Kit) where
  unfoldable pub issue_token_for_user : UserRecord → ℕ → Sql (String × AccessTokenRecord)
  issue_token_for_user user ttl = if user.disabled then fail unauthorized else (do
    plain ← random_token kit
    id ← random_token kit
    time ← now kit.host
    let row = new_token kit user plain id time ttl
    create_token kit row
    pure (plain, row))

  unfoldable pub issue_token : String → ℕ → Sql (String × AccessTokenRecord)
  issue_token user_id ttl = do
    user ←
        missing_as unauthorized
          (first kit users_by_id (λ u. by_id user_id u || by_subject user_id u))
    issue_token_for_user user ttl

  unfoldable pub revoke_token : String → Sql (Unit {0})
  revoke_token token = do
    row ← missing_as unauthorized (first kit (λ a. a.tokens) (by_hash (kit.sha256 token)))
    if is_revoked row then pure tt else (do time ← now kit.host; revoke_row kit row.id time)

  unfoldable pub identity_for_user : String → Sql Identity
  identity_for_user user_id = do
    user ← missing_as unauthorized (first kit (λ a. a.users) (by_id user_id))
    if user.disabled then fail unauthorized else (do
      roles ← select kit (λ a. roles_of a user.id)
      permissions ← select kit (λ a. permissions_of a user.id)
      pure (record {
        user_id = user.id;
        subject = user.subject;
        roles = roles;
        permissions = permissions;
        expires_at = none;
      }))

  abbrev pub expiring : ℕ → Identity → Sql Identity
  expiring time identity = pure (record identity { expires_at = some time })

  -- An access token that is stored.
  unfoldable pub by_access_token : String → AccessTokenRecord → Sql Identity
  by_access_token hash row =
      if not (str_eq row.token_hash hash) || is_revoked row then fail unauthorized else (do
        time ← now kit.host
        if ltb time row.expires_at
            then identity_for_user row.user_id >>= expiring row.expires_at
            else fail unauthorized)

  -- A long-lived token on the row of its user.
  unfoldable pub by_legacy_token : String → Sql Identity
  by_legacy_token hash = do
    user ← missing_as unauthorized (first kit users_by_id (holds_hash hash))
    if user.disabled || not (str_eq user.token_hash hash)
        then fail unauthorized
        else identity_for_user user.id

  abbrev pub by_token : String → Option AccessTokenRecord → Sql Identity
  by_token hash (some row) = by_access_token hash row
  by_token hash none = by_legacy_token hash

  unfoldable pub authenticate : String → Sql Identity
  authenticate token = do
    row ← first_or_none kit (λ a. a.tokens) (by_hash (kit.sha256 token))
    by_token (kit.sha256 token) row

  -- The answer tells whether there was a token to revoke.
  unfoldable pub revoke_present : Option AccessTokenRecord → Sql Bool
  revoke_present none = pure false
  revoke_present (some row) = if is_revoked row then pure false else (do
    time ← now kit.host
    if ltb time row.expires_at
        then (do later ← now kit.host; revoke_row kit row.id later; pure true)
        else pure false)

  unfoldable pub revoke_presented_token : String → Sql Bool
  revoke_presented_token token = do
    row ← first_or_none kit (λ a. a.tokens) (by_hash (kit.sha256 token))
    revoke_present row

  unfoldable pub authorize : String → String → Sql (Unit {0})
  authorize token role = do
    identity ← authenticate token
    if any (λ r. str_eq r role) identity.roles then pure tt else fail forbidden

  unfoldable pub authorize_permission : String → String → Sql (Unit {0})
  authorize_permission token permission = do
    identity ← authenticate token
    if any (λ granted. grants granted permission) identity.permissions
        then pure tt
        else fail forbidden
