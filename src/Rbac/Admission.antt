-- ===== src/Rbac/Admission.antt =====
-- Who is let in by `Authenticate` of internal/security/rbac/service.go, and with which rights.
use ai_council.Prelude.{
  ◌≡◌, refl, inl, inr, sym, ap, ◌∙◌, ℕ, suc, String, true, false, not, ◌||◌, Option, none, some,
  List, find, str_eq, ltb, ◌<◌, ltb→lt, arith,
}
use ai_council.Storage.Tables.{UserRecord, AccessTokenRecord, Access}
use ai_council.Storage.Sql.{ok, World, fail, now, unauthorized}
use ai_council.Rbac.{
  Kit, Identity, by_id, by_hash, missing_as, first, first_or_none, select, roles_of, permissions_of,
}
use ai_council.Rbac.Tokens.{
  is_revoked, users_by_id, holds_hash, identity_for_user, by_access_token, by_legacy_token,
  by_token, authenticate,
}
use ai_council.Rbac.Inversion.{
  Gives, stepped, >>=-ok, missing_as-ok, first-ok, first_or_none-ok, select-ok, if-ok, now-ok,
}

-- The identity of a user: the names of the roles and permissions that the tables link to the user.
abbrev pub identity_of : Access → UserRecord → Option ℕ → Identity
identity_of a user expiry = record {
  user_id = user.id;
  subject = user.subject;
  roles = roles_of a user.id;
  permissions = permissions_of a user.id;
  expires_at = expiry;
}

pub record IsIdentity (a : Access) (id : String) (user : UserRecord) (i : Identity) : Type 0 where
  pub stored : find (by_id id) a.users ≡ some user
  pub enabled : user.disabled ≡ false
  pub rights : i ≡ identity_of a user none

rights_of :
    (user : UserRecord) (w u1 u2 : World) (roles permissions : List String) (i : Identity)
    → u1 ≡ stepped w.tables w
    → roles_of u1.tables.access user.id ≡ roles
    → u2 ≡ stepped u1.tables u1
    → permissions_of u2.tables.access user.id ≡ permissions
    → ok (record {
      user_id = user.id;
      subject = user.subject;
      roles = roles;
      permissions = permissions;
      expires_at = none;
    })
      ≡ ok i
    → i ≡ identity_of w.tables.access user none
rights_of user w u1 u2 roles permissions i s1 r s2 q h =
    let t1 : u1.tables ≡ w.tables = ap (λ (x : World). x.tables) s1 in
    let t2 : u2.tables ≡ w.tables = ap (λ (x : World). x.tables) s2 ∙ t1 in
    rw (← t1) (rw (r, t1, ← t2) (rw q (sym (cc h))))

module _ (kit : Kit) where
  pub identity_for_user-IsIdentity :
      (id : String) (w v : World) (i : Identity)
      → Gives (identity_for_user kit id) w i v
      → (user : UserRecord) × IsIdentity w.tables.access id user i
  unfolding identity_for_user
  identity_for_user-IsIdentity id w v i h =
      let (user, u1, h1, k1) =
        >>=-ok (missing_as unauthorized (first kit (λ a. a.users) (by_id id))) _ w v i h in
      let (f, s1) =
        first-ok kit (λ a. a.users) (by_id id) w u1 user
          (missing_as-ok unauthorized (first kit (λ a. a.users) (by_id id)) w u1 user h1) in
      elim (if-ok user.disabled (fail unauthorized) _ u1 v i k1) [
        | inl (e, k) ↦ absurd (cc (k.0))
        | inr (e, k) ↦
            let (roles, u2, h2, k2) = >>=-ok (select kit (λ a. roles_of a user.id)) _ u1 v i k in
            let (r, s2) = select-ok kit (λ a. roles_of a user.id) u1 u2 roles h2 in
            let (permissions, u3, h3, k3) =
              >>=-ok (select kit (λ a. permissions_of a user.id)) _ u2 v i k2 in
            let (q, s3) = select-ok kit (λ a. permissions_of a user.id) u2 u3 permissions h3 in
            (
              user,
              record {
                stored = f;
                enabled = e;
                rights = rights_of user w u1 u2 roles permissions i s1 r s2 q k3.0;
              },
            )
      ]

-- A stored token that is neither revoked nor, at this instant, expired.
pub record IsCurrent (hash : String) (a : Access) (time : ℕ) (row : AccessTokenRecord)
    : Type 0 where
  pub stored : find (by_hash hash) a.tokens ≡ some row
  pub standing : is_revoked row ≡ false
  pub valid : time < row.expires_at

-- What stands behind an identity that `Authenticate` gives at this instant.
pub data Grounds (hash : String) (a : Access) (time : ℕ) (i : Identity) : Type 0 where
  by_row :
      (row : AccessTokenRecord) (user : UserRecord)
      → IsCurrent hash a time row
      → find (by_id row.user_id) a.users ≡ some user
      → user.disabled ≡ false
      → i ≡ identity_of a user (some row.expires_at)
      → Grounds hash a time i
  by_user :
      (holder user : UserRecord)
      → find (by_hash hash) a.tokens ≡ none
      → find (holds_hash hash) (users_by_id a) ≡ some holder
      → find (by_id holder.id) a.users ≡ some user
      → user.disabled ≡ false
      → i ≡ identity_of a user none
      → Grounds hash a time i

module _ (kit : Kit) (hash : String) where
  row-Grounds :
      (row : AccessTokenRecord) (a : Access) (user : UserRecord) (j i : Identity) (time : ℕ)
      → find (by_hash hash) a.tokens ≡ some row
      → is_revoked row ≡ false
      → ltb time row.expires_at ≡ true
      → IsIdentity a row.user_id user j
      → ok (record j { expires_at = some row.expires_at }) ≡ ok i
      → Grounds hash a time i
  row-Grounds row a user j i time f v l is h =
      by_row row user (record { stored = f; standing = v; valid = ltb→lt time row.expires_at l })
        is.stored is.enabled
        (sym (cc h)
          ∙ ap (λ (x : Identity). record x { expires_at = some row.expires_at }) is.rights)

  by_access_token-Grounds :
      (row : AccessTokenRecord) (w v : World) (i : Identity)
      → find (by_hash hash) w.tables.access.tokens ≡ some row
      → Gives (by_access_token kit hash row) w i v
      → Grounds hash w.tables.access (kit.host.clock w.calls) i
  unfolding by_access_token
  by_access_token-Grounds row w v i f h =
      elim (if-ok (not (str_eq row.token_hash hash) || is_revoked row) (fail unauthorized) _ w v i
        h) [
          | inl (e, k) ↦ absurd (cc (k.0))
          | inr (e, k) ↦
              let (time, u1, h1, k1) = >>=-ok (now kit.host) _ w v i k in
              let (t1, c) = now-ok kit.host w u1 time h1 in
              elim (if-ok (ltb time row.expires_at) _ (fail unauthorized) u1 v i k1) [
                | inl (l, m) ↦
                    let (j, u2, h2, k2) = >>=-ok (identity_for_user kit row.user_id) _ u1 v i m in
                    let (user, is) = identity_for_user-IsIdentity kit row.user_id u1 u2 j h2 in
                    row-Grounds row w.tables.access user j i (kit.host.clock w.calls) f
                      (ground arith) (rw c l) (rw t1 at is) k2.0
                | inr (l, m) ↦ absurd (cc (m.0))
              ]
        ]

  by_legacy_token-Grounds :
      (w v : World) (i : Identity) (time : ℕ)
      → find (by_hash hash) w.tables.access.tokens ≡ none
      → Gives (by_legacy_token kit hash) w i v
      → Grounds hash w.tables.access time i
  unfolding by_legacy_token
  by_legacy_token-Grounds w v i time f h =
      let (holder, u1, h1, k1) =
        >>=-ok (missing_as unauthorized (first kit users_by_id (holds_hash hash))) _ w v i h in
      let (g, s1) =
        first-ok kit users_by_id (holds_hash hash) w u1 holder
          (missing_as-ok unauthorized (first kit users_by_id (holds_hash hash)) w u1 holder h1) in
      elim (if-ok (holder.disabled || not (str_eq holder.token_hash hash)) (fail unauthorized) _ u1
        v i k1) [
          | inl (e, k) ↦ absurd (cc (k.0))
          | inr (e, k) ↦
              let (user, is) = identity_for_user-IsIdentity kit holder.id u1 v i k in
              let is' : IsIdentity w.tables.access holder.id user i =
                rw (ap (λ (x : World). x.tables) s1) at is in
              by_user holder user f g is'.stored is'.enabled is'.rights
        ]

  by_token-Grounds :
      (o : Option AccessTokenRecord) (w v : World) (i : Identity)
      → find (by_hash hash) w.tables.access.tokens ≡ o
      → Gives (by_token kit hash o) w i v
      → Grounds hash w.tables.access (kit.host.clock w.calls) i
  by_token-Grounds none w v i f h = by_legacy_token-Grounds w v i (kit.host.clock w.calls) f h
  by_token-Grounds (some row) w v i f h = by_access_token-Grounds row w v i f h

module _ (kit : Kit) where
  -- Whoever is let in has a token that is stored, not revoked and, at the instant that the clock gives
  -- to this call behind its first query, not expired, or else, where no such token is stored, the
  -- long-lived one; the user is enabled, and the identity has exactly the roles and permissions that
  -- the tables link to the user.
  pub authenticate-Grounds :
      (token : String) (w : World) (i : Identity)
      → (authenticate kit token w).0 ≡ ok i
      → Grounds (kit.sha256 token) w.tables.access (kit.host.clock (suc w.calls)) i
  unfolding authenticate
  authenticate-Grounds token w i h =
      let hash = kit.sha256 token in
      let (row, u1, h1, k1) =
        >>=-ok (first_or_none kit (λ a. a.tokens) (by_hash hash)) (by_token kit hash) w
          (authenticate kit token w).1 i (h, refl) in
      let (f, s1) = first_or_none-ok kit (λ a. a.tokens) (by_hash hash) w u1 row h1 in
      let t1 : u1.tables ≡ w.tables = ap (λ (x : World). x.tables) s1 in
      let c1 : u1.calls ≡ suc w.calls = ap (λ (x : World). x.calls) s1 in
      rw (t1, c1) at (by_token-Grounds kit hash row u1 (authenticate kit token w).1 i (rw t1 f) k1)
