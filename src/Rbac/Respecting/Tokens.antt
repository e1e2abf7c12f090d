-- ===== src/Rbac/Respecting/Tokens.antt =====
-- What the operations on tokens, of internal/security/rbac/token.go and service.go, keep.
use ai_council.Prelude.{ℕ, String, Option, none, some, not, str_eq, ltb, ◌||◌}
use ai_council.Storage.Tables.{UserRecord, AccessTokenRecord, Tables}
use ai_council.Storage.Sql.{now, unauthorized}
use ai_council.Rbac.{
  Kit, missing_as, by_subject, by_id, by_hash, roles_of, permissions_of, first, first_or_none,
  select, create_token, revoke_row, random_token,
}
use ai_council.Rbac.Tokens.{
  is_revoked, users_by_id, holds_hash, issue_token_for_user, issue_token, revoke_token,
  identity_for_user, by_access_token, by_legacy_token, by_token, authenticate, revoke_present,
  revoke_presented_token,
}
use ai_council.Rbac.Keeping.{
  Keeps, >>=-keeps, if-keeps, now-keeps, first-keeps, first_or_none-keeps, select-keeps,
  random_token-keeps,
}
use ai_council.Rbac.Respecting.{Respects}

module _ (kit : Kit) (P : Tables → Type 0) where
  pub identity_for_user-keeps : (user_id : String) → Keeps P (identity_for_user kit user_id)
  unfolding identity_for_user
  identity_for_user-keeps user_id =
      >>=-keeps P (missing_as unauthorized (first kit (λ a. a.users) (by_id user_id))) _
        (first-keeps P kit (λ a. a.users) (by_id user_id))
        (λ user.
          if-keeps P user.disabled _ _ (λ w p. p)
            (>>=-keeps P (select kit (λ a. roles_of a user.id)) _ (select-keeps P kit _) (λ roles.
              >>=-keeps P (select kit (λ a. permissions_of a user.id)) _ (select-keeps P kit _)
                (λ permissions w p. p))))

  by_access_token-keeps :
      (hash : String) (row : AccessTokenRecord) → Keeps P (by_access_token kit hash row)
  unfolding by_access_token
  by_access_token-keeps hash row =
      if-keeps P (not (str_eq row.token_hash hash) || is_revoked row) _ _ (λ w p. p)
        (>>=-keeps P (now kit.host) _ (now-keeps P kit.host) (λ time.
          if-keeps P (ltb time row.expires_at) _ _
            (>>=-keeps P (identity_for_user kit row.user_id) _ (identity_for_user-keeps row.user_id)
              (λ identity w p. p))
            (λ w p. p)))

  by_legacy_token-keeps : (hash : String) → Keeps P (by_legacy_token kit hash)
  unfolding by_legacy_token
  by_legacy_token-keeps hash =
      >>=-keeps P (missing_as unauthorized (first kit users_by_id (holds_hash hash))) _
        (first-keeps P kit users_by_id (holds_hash hash))
        (λ user.
          if-keeps P (user.disabled || not (str_eq user.token_hash hash)) _ _ (λ w p. p)
            (identity_for_user-keeps user.id))

  by_token-keeps : (hash : String) (o : Option AccessTokenRecord) → Keeps P (by_token kit hash o)
  by_token-keeps hash none = by_legacy_token-keeps hash
  by_token-keeps hash (some row) = by_access_token-keeps hash row

  pub authenticate-keeps : (token : String) → Keeps P (authenticate kit token)
  unfolding authenticate
  authenticate-keeps token =
      >>=-keeps P (first_or_none kit (λ a. a.tokens) (by_hash (kit.sha256 token))) _
        (first_or_none-keeps P kit _ _) (by_token-keeps (kit.sha256 token))

module _ (kit : Kit) (P : Tables → Type 0) (r : Respects kit P) where
  pub issue_token_for_user-keeps :
      (user : UserRecord) (ttl : ℕ) → Keeps P (issue_token_for_user kit user ttl)
  unfolding issue_token_for_user
  issue_token_for_user-keeps user ttl =
      if-keeps P user.disabled _ _ (λ w p. p)
        (>>=-keeps P (random_token kit) _ (random_token-keeps P kit) (λ plain.
          >>=-keeps P (random_token kit) _ (random_token-keeps P kit) (λ id.
            >>=-keeps P (now kit.host) _ (now-keeps P kit.host)
              (λ time. >>=-keeps P (create_token kit _) _ (r.token _) (λ u w p. p)))))

  pub issue_token-keeps : (user_id : String) (ttl : ℕ) → Keeps P (issue_token kit user_id ttl)
  unfolding issue_token
  issue_token-keeps user_id ttl =
      >>=-keeps P
        (missing_as unauthorized
          (first kit users_by_id (λ u. by_id user_id u || by_subject user_id u)))
        _ (first-keeps P kit users_by_id (λ u. by_id user_id u || by_subject user_id u))
        (λ user. issue_token_for_user-keeps user ttl)

  pub revoke_token-keeps : (token : String) → Keeps P (revoke_token kit token)
  unfolding revoke_token
  revoke_token-keeps token =
      >>=-keeps P (missing_as unauthorized (first kit (λ a. a.tokens) (by_hash (kit.sha256 token))))
        _ (first-keeps P kit (λ a. a.tokens) (by_hash (kit.sha256 token)))
        (λ row.
          if-keeps P (is_revoked row) _ _ (λ w p. p)
            (>>=-keeps P (now kit.host) _ (now-keeps P kit.host) (λ time. r.revoked row.id time)))

  revoke_present-keeps : (o : Option AccessTokenRecord) → Keeps P (revoke_present kit o)
  unfolding revoke_present
  revoke_present-keeps none w p = p
  revoke_present-keeps (some row) w p =
      if-keeps P (is_revoked row) _ _ (λ v q. q)
        (>>=-keeps P (now kit.host) _ (now-keeps P kit.host) (λ time.
          if-keeps P (ltb time row.expires_at) _ _
            (>>=-keeps P (now kit.host) _ (now-keeps P kit.host) (λ later.
              >>=-keeps P (revoke_row kit row.id later) _ (r.revoked row.id later) (λ u v q. q)))
            (λ v q. q)))
        w p

  pub revoke_presented_token-keeps : (token : String) → Keeps P (revoke_presented_token kit token)
  unfolding revoke_presented_token
  revoke_presented_token-keeps token =
      >>=-keeps P (first_or_none kit (λ a. a.tokens) (by_hash (kit.sha256 token))) _
        (first_or_none-keeps P kit _ _) revoke_present-keeps
