-- ===== src/Rbac/Running.antt =====
-- What a statement of internal/security/rbac does where the database does not fail.
use ai_council.Prelude.{
  ◌≡◌, refl, ℕ, suc, ◌≤◌, Bool, true, false, Option, some, none, String, List, find, arith, ltb,
  eq_refl,
}
use ai_council.Storage.Tables.{UserRecord, AccessTokenRecord, Access}
use ai_council.Storage.Sql.{ok, World, now, statement}
use ai_council.Rbac.{Kit, by_id, by_hash, first, first_or_none, select, roles_of, permissions_of}
use ai_council.Rbac.Tokens.{is_revoked, identity_for_user, by_access_token, authenticate}
use ai_council.Rbac.Inversion.{stepped}
use ai_council.Rbac.Admission.{identity_of}

-- The database does not fail from this world on.
abbrev pub IsReliable : Kit → World → Type 0
IsReliable kit w = (n : ℕ) → w.calls ≤ n → kit.host.fault n ≡ false

module _ (kit : Kit) where
  first-run :
      {R : Type 0} (table : Access → List R) (test : R → Bool) (w : World) (r : R)
      → IsReliable kit w
      → find test (table w.tables.access) ≡ some r
      → first kit table test w ≡ (ok r, stepped w.tables w)
  unfolding first statement
  first-run table test w r calm f = rw (calm w.calls (omega arith), f) refl

  first_or_none-run :
      {R : Type 0} (table : Access → List R) (test : R → Bool) (w : World) (o : Option R)
      → IsReliable kit w
      → find test (table w.tables.access) ≡ o
      → first_or_none kit table test w ≡ (ok o, stepped w.tables w)
  unfolding first_or_none statement
  first_or_none-run table test w o calm f = rw (calm w.calls (omega arith), f) refl

  select-run :
      {A : Type 0} (query : Access → A) (w : World)
      → IsReliable kit w
      → select kit query w ≡ (ok (query w.tables.access), stepped w.tables w)
  unfolding select statement
  select-run query w calm = rw (calm w.calls (omega arith)) refl

  now-run : (w : World) → now kit.host w ≡ (ok (kit.host.clock w.calls), stepped w.tables w)
  unfolding now
  now-run w = refl

  later : (w : World) → IsReliable kit w → IsReliable kit (stepped w.tables w)
  later w calm n h = calm n (omega arith)

  identity_for_user-run :
      (id : String) (w : World) (user : UserRecord)
      → IsReliable kit w
      → find (by_id id) w.tables.access.users ≡ some user
      → user.disabled ≡ false
      → (identity_for_user kit id w).0 ≡ ok (identity_of w.tables.access user none)
  unfolding identity_for_user
  identity_for_user-run id w user calm f e =
      let u1 = stepped w.tables w in
      let u2 = stepped u1.tables u1 in
      rw
        (
          first-run (λ a. a.users) (by_id id) w user calm f,
          e,
          select-run (λ a. roles_of a user.id) u1 (later w calm),
          select-run (λ a. permissions_of a user.id) u2 (later u1 (later w calm)),
        )
        refl

  -- A token that is stored, standing and not expired lets its enabled user in.
  pub authenticate-run :
      (token : String) (w : World) (row : AccessTokenRecord) (user : UserRecord)
      → IsReliable kit w
      → find (by_hash (kit.sha256 token)) w.tables.access.tokens ≡ some row
      → row.token_hash ≡ kit.sha256 token
      → is_revoked row ≡ false
      → ltb (kit.host.clock (suc w.calls)) row.expires_at ≡ true
      → find (by_id row.user_id) w.tables.access.users ≡ some user
      → user.disabled ≡ false
      → (authenticate kit token w).0 ≡ ok (identity_of w.tables.access user (some row.expires_at))
  unfolding authenticate by_access_token
  authenticate-run token w row user calm f same v l g e =
      let u1 = stepped w.tables w in
      let u2 = stepped u1.tables u1 in
      rw
        (
          first_or_none-run (λ a. a.tokens) (by_hash (kit.sha256 token)) w (some row) calm f,
          same,
          eq_refl (kit.sha256 token),
          v,
          now-run u1,
          l,
          identity_for_user-run row.user_id u2 user (later u1 (later w calm)) g e,
        )
        refl
