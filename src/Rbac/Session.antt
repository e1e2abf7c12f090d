-- ===== src/Rbac/Session.antt =====
-- From a log-in of internal/security/rbac/service.go to the requests that its token lets in.
use ai_council.Prelude.{
  ◌≡◌, refl, subst, sym, ap, ◌∙◌, inl, inr, ℕ, suc, String, true, false, some, List, ◌∷◌, find, any,
  ltb, eq_refl, Bool-cases,
}
use ai_council.Storage.Tables.{UserRecord, AccessTokenRecord, Tables}
use ai_council.Storage.Sql.{
  Error, Result, ok, err, World, ◌>>=◌, pure, fail, now, insert, unauthorized,
}
use ai_council.Rbac.{
  Kit, Identity, by_hash, by_subject, token_clash, missing_as, added, first, create_token,
  random_token,
}
use ai_council.Rbac.Tokens.{
  is_revoked, new_token, issue_token_for_user, identity_for_user, authenticate,
}
use ai_council.Rbac.Accounts.{login, may_log_in}
use ai_council.Rbac.Inversion.{Gives, >>=-ok, if-ok, statement-ok}
use ai_council.Rbac.Admission.{IsIdentity, identity_for_user-IsIdentity}
use ai_council.Rbac.Respecting.Tokens.{identity_for_user-keeps}
use ai_council.Rbac.Running.{IsReliable, authenticate-run}

-- The row of an issued token is the first with its hash.
record IsIssued (kit : Kit) (user : UserRecord) (plain : String) (row : AccessTokenRecord)
    (t : Tables) : Type 0 where
  stored : find (by_hash (kit.sha256 plain)) t.access.tokens ≡ some row
  hashed : row.token_hash ≡ kit.sha256 plain
  owner : row.user_id ≡ user.id
  standing : is_revoked row ≡ false

module _ (kit : Kit) where
  create_token-first :
      (row : AccessTokenRecord) (w v : World)
      → Gives (create_token kit row) w tt v
      → find (by_hash row.token_hash) v.tables.access.tokens ≡ some row
  unfolding create_token
  create_token-first row w v h =
      let (t, e, s) =
        statement-ok kit.host
          (λ (t : Tables).
            added (λ rows. record t.access { tokens = rows }) t
              (insert (token_clash row) row t.access.tokens))
          w v tt h in
      elim (Bool-cases (any (token_clash row) w.tables.access.tokens)) [
        | inl c ↦ absurd (cc (let k : err Error.duplicate ≡ ok (unit_of t) = rw c at e in k))
        | inr c ↦
            let q : row ∷ w.tables.access.tokens ≡ t.access.tokens =
              ap (tokens_of w.tables) (rw c at e) in
            rw (s, ← q, eq_refl row.token_hash) refl
      ]
    where
      unit_of : Tables → Unit {0} × Tables
      unit_of x = (tt, x)

      tokens_of : Tables → Result (Unit {0} × Tables) → List AccessTokenRecord
      tokens_of d (ok (u, x)) = x.access.tokens
      tokens_of d (err x) = d.access.tokens

  new_token-IsIssued :
      (user : UserRecord) (plain : String) (row : AccessTokenRecord) (u3 u4 v : World)
      (issued : String × AccessTokenRecord)
      → row.token_hash ≡ kit.sha256 plain
      → row.user_id ≡ user.id
      → is_revoked row ≡ false
      → Gives (create_token kit row) u3 tt u4
      → Gives (pure (plain, row)) u4 issued v
      → IsIssued kit user issued.0 issued.1 v.tables
  new_token-IsIssued user plain row u3 u4 v issued same owner standing h k =
      let p : plain ≡ issued.0 = cc (k.0) in
      let q : row ≡ issued.1 = cc (k.0) in
      rw (← p, ← q, ← k.1)
        (record {
          stored =
              subst (λ n. find (by_hash n) u4.tables.access.tokens ≡ some row) same
                (create_token-first row u3 u4 h);
          hashed = same;
          owner = owner;
          standing = standing;
        })

  issue_token_for_user-IsIssued :
      (user : UserRecord) (ttl : ℕ) (w v : World) (issued : String × AccessTokenRecord)
      → Gives (issue_token_for_user kit user ttl) w issued v
      → IsIssued kit user issued.0 issued.1 v.tables
  unfolding issue_token_for_user
  issue_token_for_user-IsIssued user ttl w v issued h =
      elim (if-ok user.disabled (fail unauthorized) _ w v issued h) [
        | inl (e, k) ↦ absurd (cc (k.0))
        | inr (e, k) ↦
            let (plain, u1, h1, k1) = >>=-ok (random_token kit) _ w v issued k in
            let (id, u2, h2, k2) = >>=-ok (random_token kit) _ u1 v issued k1 in
            let (time, u3, h3, k3) = >>=-ok (now kit.host) _ u2 v issued k2 in
            let row = new_token kit user plain id time ttl in
            let (u, u4, h4, k4) = >>=-ok (create_token kit row) _ u3 v issued k3 in
            new_token-IsIssued user plain row u3 u4 v issued refl refl refl h4 k4
      ]

  resumed :
      (user owner : UserRecord) (plain : String) (row : AccessTokenRecord) (j : Identity)
      (x : World)
      → IsReliable kit x
      → ltb (kit.host.clock (suc x.calls)) row.expires_at ≡ true
      → IsIssued kit user plain row x.tables
      → IsIdentity x.tables.access user.id owner j
      → (authenticate kit plain x).0 ≡ ok (record j { expires_at = some row.expires_at })
  resumed user owner plain row j x calm l issued is =
      authenticate-run kit plain x row owner calm issued.stored issued.hashed issued.standing l
        (rw issued.owner is.stored) is.enabled
      ∙ ap (λ (k : Identity). ok (record k { expires_at = some row.expires_at })) (sym is.rights)

  logged_in :
      (user : UserRecord) (issued : String × AccessTokenRecord) (token : String) (i : Identity)
      (u2 v : World)
      → IsIssued kit user issued.0 issued.1 u2.tables
      → Gives {A = String × Identity}
          (identity_for_user kit user.id >>= (λ identity.
            pure (issued.0, record identity { expires_at = some issued.1.expires_at })))
          u2
          (token, i)
          v
      → (x : World) → x.tables ≡ v.tables
      → IsReliable kit x
      → (e : ℕ) → i.expires_at ≡ some e
      → ltb (kit.host.clock (suc x.calls)) e ≡ true
      → (authenticate kit token x).0 ≡ ok i
  logged_in user issued token i u2 v is_issued h x same calm e expiry l =
      let (j, u3, h3, k3) = >>=-ok (identity_for_user kit user.id) _ u2 v (token, i) h in
      let (owner, is) = identity_for_user-IsIdentity kit user.id u2 u3 j h3 in
      let read : u3.tables ≡ u2.tables =
        ap (λ (y : World). y.tables) (sym h3.1)
        ∙ identity_for_user-keeps kit (λ t. t ≡ u2.tables) user.id u2 refl in
      let there : x.tables ≡ u2.tables = same ∙ ap (λ (y : World). y.tables) (sym k3.1) ∙ read in
      let t : issued.0 ≡ token = cc (k3.0) in
      let q : record j { expires_at = some issued.1.expires_at } ≡ i = cc (k3.0) in
      let d : issued.1.expires_at ≡ e = cc (ap (λ (y : Identity). y.expires_at) q, expiry) in
      rw (← t, ← q)
        (resumed user owner issued.0 issued.1 j x calm (rw d l) (rw there is_issued) (rw there is))

  -- The token of a log-in lets its user in with the same identity, as long as it has not expired, the
  -- tables are as the log-in left them, and the database does not fail.
  pub login-authenticate :
      (subject password : String) (ttl : ℕ) (w v x : World) (token : String) (i : Identity) (e : ℕ)
      → Gives {A = String × Identity} (login kit subject password ttl) w (token, i) v
      → x.tables ≡ v.tables
      → IsReliable kit x
      → i.expires_at ≡ some e
      → ltb (kit.host.clock (suc x.calls)) e ≡ true
      → (authenticate kit token x).0 ≡ ok i
  unfolding login
  login-authenticate subject password ttl w v x token i e h same calm expiry l =
      let (user, u1, h1, k1) =
        >>=-ok (missing_as unauthorized (first kit (λ a. a.users) (by_subject subject))) _ w v
          (token, i) h in
      elim (if-ok (may_log_in kit password user) _ (fail unauthorized) u1 v (token, i) k1) [
        | inl (q, k) ↦
            let (issued, u2, h2, k2) =
              >>=-ok (issue_token_for_user kit user ttl) _ u1 v (token, i) k in
            logged_in user issued token i u2 v
              (issue_token_for_user-IsIssued user ttl u1 u2 issued h2) k2 x same calm e expiry l
        | inr (q, k) ↦ absurd (cc (k.0))
      ]
