-- ===== src/Rbac/Revocation.antt =====
-- A token that was revoked, in internal/security/rbac/token.go and service.go.
use ai_council.Prelude.{
  ◌≡◌, ◌≢◌, refl, ap, inl, inr, ℕ, String, Bool, true, false, some, List, [], ◌∷◌, any, find,
  str_eq, eq_iff, eq_refl, if◌then◌else◌, arith,
}
use ai_council.Storage.Tables.{AccessTokenRecord, Tables, update_where}
use ai_council.Storage.Sql.{Error, ok, err, World, unauthorized, pure, now}
use ai_council.Rbac.{
  missing_as, Kit, Identity, by_hash, token_clash, with_access, added, create_token, revoke_row,
  first,
}
use ai_council.Rbac.Tokens.{is_revoked, authenticate, revoke_token}
use ai_council.Rbac.Keeping.{Keeps, Kept, statement-keeps}
use ai_council.Rbac.Respecting.{Respects}
use ai_council.Rbac.Respecting.Statements.{tokens_only-Respects}
use ai_council.Rbac.Inversion.{Gives, >>=-ok, missing_as-ok, first-ok, if-ok, statement-ok, now-ok}
use ai_council.Rbac.Admission.{by_row, by_user, authenticate-Grounds}
use ai_council.Rbac.Calls.{Call, perform_all, perform_all-keeps}

-- The token with this hash is there, and revoked.
abbrev pub IsRevoked : String → Tables → Type 0
IsRevoked hash t =
    (k : AccessTokenRecord) × (find (by_hash hash) t.access.tokens ≡ some k) × (is_revoked k ≡ true)

abbrev revoke_at : ℕ → AccessTokenRecord → AccessTokenRecord
revoke_at time k = record k { revoked_at = some time }

-- The token with this hash, after an update of the tokens with an identifier.
find-revoked :
    (hash id : String) (time : ℕ) (ks : List AccessTokenRecord) (k : AccessTokenRecord)
    → find (by_hash hash) ks ≡ some k
    → find (by_hash hash) (update_where (λ x. str_eq x.id id) (revoke_at time) ks)
      ≡ some (if str_eq k.id id then revoke_at time k else k)
find-revoked hash id time [] k h = absurd (cc)
find-revoked hash id time (x ∷ ks) k h = ground (arith, find-revoked hash id time ks k)

update-IsRevoked :
    (hash id : String) (time : ℕ) (ks : List AccessTokenRecord)
    → (k : AccessTokenRecord) × (find (by_hash hash) ks ≡ some k) × (is_revoked k ≡ true)
    → (k : AccessTokenRecord) × (find
          (by_hash hash)
          (update_where (λ x. str_eq x.id id) (revoke_at time) ks)
        ≡ some k)
      × (is_revoked k ≡ true)
update-IsRevoked hash id time ks (k, f, v) = (
  if str_eq k.id id then revoke_at time k else k,
  find-revoked hash id time ks k f,
  after_ (str_eq k.id id),
)
  where
    after_ : (b : Bool) → is_revoked (if b then revoke_at time k else k) ≡ true
    after_ true = refl
    after_ false = v

find-no_clash :
    (hash : String) (new : AccessTokenRecord) (ks : List AccessTokenRecord) (k : AccessTokenRecord)
    → find (by_hash hash) ks ≡ some k
    → any (token_clash new) ks ≡ false
    → by_hash hash new ≡ false
find-no_clash hash new [] k h c = absurd (cc)
find-no_clash hash new (x ∷ ks) k h c = ground (
  arith,
  find-no_clash hash new ks k,
  eq_iff x.token_hash hash,
  eq_iff new.token_hash hash,
  eq_refl hash,
)

module _ (kit : Kit) (hash : String) where
  create_token-IsRevoked : (new : AccessTokenRecord) → Keeps (IsRevoked hash) (create_token kit new)
  unfolding create_token
  create_token-IsRevoked new =
      statement-keeps (IsRevoked hash) kit.host _
        (λ t p. kept t p (any (token_clash new) t.access.tokens) refl)
    where
      kept :
          (t : Tables) (p : IsRevoked hash t) (b : Bool)
          → any (token_clash new) t.access.tokens ≡ b
          → Kept (IsRevoked hash) (
              added
                (λ rows. record t.access { tokens = rows })
                t
                (if b then err Error.duplicate else ok (new ∷ t.access.tokens)))
      kept t p true e = tt
      kept t (k, f, v) false e = (k, rw (find-no_clash hash new t.access.tokens k f e) f, v)

  pub IsRevoked-Respects : Respects kit (IsRevoked hash)
  unfolding revoke_row
  IsRevoked-Respects =
      tokens_only-Respects kit (IsRevoked hash) (λ t p rows. p) (λ t p rows. p) (λ t p rows. p)
        (λ t p rows. p) (λ t p rows. p) create_token-IsRevoked
        (λ id time.
          statement-keeps (IsRevoked hash) kit.host
            (λ t. ok (
              tt,
              with_access
                  (record t.access {
                    tokens = update_where (λ k. str_eq k.id id) (revoke_at time) t.access.tokens;
                  })
                  t,
            ))
            (λ t p. update-IsRevoked hash id time t.access.tokens p))

module _ (kit : Kit) where
  -- With a revoked token nobody is let in.
  authenticate-IsRevoked :
      (token : String) (w : World) (i : Identity)
      → IsRevoked (kit.sha256 token) w.tables
      → (authenticate kit token w).0 ≢ ok i
  authenticate-IsRevoked token w i (k, f, v) h = elim (authenticate-Grounds kit token w i h) [
    | by_row row user c s e r ↦ let q : row ≡ k = cc (c.stored, f) in cc (rw q at c.standing, v)
    | by_user holder user n s t e r ↦ cc (n, f)
  ]

  abbrev IsStored : String → AccessTokenRecord → Tables → Type 0
  IsStored hash row t = find (by_hash hash) t.access.tokens ≡ some row

  revoke_row-IsRevoked :
      (hash : String) (row : AccessTokenRecord) (time : ℕ) (w v : World)
      → find (by_hash hash) w.tables.access.tokens ≡ some row
      → Gives (revoke_row kit row.id time) w tt v
      → IsRevoked hash v.tables
  unfolding revoke_row
  revoke_row-IsRevoked hash row time w v f h =
      let (t, e, s) =
        statement-ok kit.host
          (λ (t : Tables). ok (
            tt,
            with_access
                (record t.access {
                  tokens = update_where (λ k. str_eq k.id row.id) (revoke_at time) t.access.tokens;
                })
                t,
          ))
          w v tt h in
      let p : find (by_hash hash)
            (update_where (λ k. str_eq k.id row.id) (revoke_at time) w.tables.access.tokens)
          ≡ some (revoke_at time row) =
        rw (eq_refl row.id) at (find-revoked hash row.id time w.tables.access.tokens row f) in
      let q : t.access.tokens
          ≡ update_where (λ k. str_eq k.id row.id) (revoke_at time) w.tables.access.tokens =
        cc e in
      rw (s, q) (revoke_at time row, p, refl)

  revoke_token-IsRevoked :
      (token : String) (w v : World)
      → Gives (revoke_token kit token) w tt v
      → IsRevoked (kit.sha256 token) v.tables
  unfolding revoke_token
  revoke_token-IsRevoked token w v h =
      let hash = kit.sha256 token in
      let (row, u1, h1, k1) =
        >>=-ok (missing_as unauthorized (first kit (λ a. a.tokens) (by_hash hash))) _ w v tt h in
      let (f, s1) =
        first-ok kit (λ a. a.tokens) (by_hash hash) w u1 row
          (missing_as-ok unauthorized (first kit (λ a. a.tokens) (by_hash hash)) w u1 row h1) in
      let t1 : u1.tables ≡ w.tables = ap (λ (x : World). x.tables) s1 in
      elim (if-ok (is_revoked row) (pure tt) _ u1 v tt k1) [
        | inl (e, k) ↦ rw (← k.1) (row, rw t1 f, e)
        | inr (e, k) ↦
            let (time, u2, h2, k2) = >>=-ok (now kit.host) _ u1 v tt k in
            let (t2, c) = now-ok kit.host u1 u2 time h2 in
            let start : IsStored hash row u2.tables = rw (t2, t1) f in
            revoke_row-IsRevoked hash row time u2 v start k2
      ]

  -- A token that was revoked lets nobody in any more, whatever calls of the service are made later, and
  -- whichever of them fail.
  pub revoked_stays_out :
      (token : String) (w v : World) (cs : List Call) (i : Identity)
      → Gives (revoke_token kit token) w tt v
      → (authenticate kit token (perform_all kit v cs)).0 ≢ ok i
  revoked_stays_out token w v cs i h =
      let hash = kit.sha256 token in
      authenticate-IsRevoked token (perform_all kit v cs) i (
        perform_all-keeps kit (IsRevoked hash) (IsRevoked-Respects kit hash) cs v
          (revoke_token-IsRevoked token w v h))
