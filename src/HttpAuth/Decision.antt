-- ===== src/HttpAuth/Decision.antt =====
-- When a handler runs behind the checks of internal/transport/council/auth.go.
use ai_council.Prelude.{
  ◌≡◌, ◌⊎◌, refl, sym, ap, inl, inr, String, Bool, true, false, Option, none, some, any-In,
  is_empty, eq_iff, Bool-cases, if◌then◌else◌,
}
use ai_council.Storage.Tables.{Tables}
use ai_council.Storage.Sql.{Result, ok, err, Error, World}
use ai_council.Rbac.{Kit, Identity}
use ai_council.Rbac.Wildcard.{grants}
use ai_council.Rbac.Tokens.{authenticate}
use ai_council.Rbac.Grants.{IsGranted, HasRightsOf, authenticate-HasRightsOf}
use ai_council.Rbac.Respecting.Tokens.{authenticate-keeps}
use ai_council.HttpAuth.{
  SessionOptions, HttpRequest, passed, rejected, cookie, is_public_rbac_path, rbac_route_permission,
  identity_has_permission, authenticate_request, rbac_auth, tried, try_bearer, by_cookie, or_cookie,
  admit, decide, denied, Tried, is_forbidden,
}
use ai_council.HttpAuth.Header.{bearer, is_blank}

-- The database grants a permission that covers this one to the user of the identity.
abbrev pub Covers : Tables → Identity → String → Type 0
Covers t i permission =
    (granted : String) × IsGranted t.access i.user_id granted × (grants granted permission ≡ true)

-- A request that comes through to its handler although its path is not public.
pub record IsEntitled (t : Tables) (r : HttpRequest) (i : Identity) : Type 0 where
  pub permission : String
  pub mapped : rbac_route_permission r.method r.path ≡ some permission
  pub entitled : (permission ≡ "") ⊎ Covers t i permission

module _ (kit : Kit) where
  authenticate_tables :
      (token : String) (w : World) → (authenticate kit token w).1.tables ≡ w.tables
  authenticate_tables token w = authenticate-keeps kit (λ t. t ≡ w.tables) token w refl

  module _ (options : SessionOptions) (i : Identity) where
    by_cookie-HasRightsOf :
        (value : Option String) (w : World)
        → (by_cookie kit options value w).0 ≡ ok i
        → HasRightsOf w.tables.access i
    by_cookie-HasRightsOf none w h = absurd (cc)
    by_cookie-HasRightsOf (some value) w h = checked (is_blank value) h
      where
        checked :
            (b : Bool)
            → (if b then (err Error.unauthorized, w) else authenticate kit value w).0 ≡ ok i
            → HasRightsOf w.tables.access i
        checked true q = absurd (cc)
        checked false q = authenticate-HasRightsOf kit value w i q

    tried-ok : (r : Result Identity) → tried kit options r ≡ some (ok i) → r ≡ ok i
    tried-ok (ok j) h = cc
    tried-ok (err e) h = elim (Bool-cases (is_forbidden e)) [
      | inl q ↦ absurd (cc (let k : some (err e) ≡ some (ok i) = rw q at h in k))
      | inr q ↦ absurd (cc (let k : none ≡ some (ok i) = rw q at h in k))
    ]

    try_bearer-HasRightsOf :
        (token : Option String) (w : World)
        → (try_bearer kit options token w).0 ≡ some (ok i)
        → HasRightsOf w.tables.access i
    try_bearer-HasRightsOf none w h = absurd (cc)
    try_bearer-HasRightsOf (some token) w h =
        authenticate-HasRightsOf kit token w i (tried-ok (authenticate kit token w).0 h)

    try_bearer-tables :
        (token : Option String) (w : World) → (try_bearer kit options token w).1.tables ≡ w.tables
    try_bearer-tables none w = refl
    try_bearer-tables (some token) w = authenticate_tables token w

    or_cookie-HasRightsOf :
        (value : Option String) (t : Tried kit options) (w v : World)
        → v.tables ≡ w.tables
        → (t ≡ some (ok i) → HasRightsOf w.tables.access i)
        → (or_cookie kit options value (t, v)).0 ≡ ok i
        → HasRightsOf w.tables.access i
    or_cookie-HasRightsOf value (some r) w v e k h = k (ap (λ (x : Result Identity). some x) h)
    or_cookie-HasRightsOf value none w v e k h = rw e at (by_cookie-HasRightsOf value v h)

    authenticate_request-HasRightsOf :
        (r : HttpRequest) (w : World)
        → (authenticate_request kit options r w).0 ≡ ok i
        → HasRightsOf w.tables.access i
    unfolding authenticate_request
    authenticate_request-HasRightsOf r w h =
        let token = bearer r.authorization in
        or_cookie-HasRightsOf (cookie options.cookie_name r.cookies)
          (try_bearer kit options token w).0 w (try_bearer kit options token w).1
          (try_bearer-tables token w) (try_bearer-HasRightsOf token w) h

  module _ (options : SessionOptions) (r : HttpRequest) where
    covering :
        (t : Tables) (i : Identity) (permission : String)
        → HasRightsOf t.access i
        → identity_has_permission i permission ≡ true
        → Covers t i permission
    unfolding identity_has_permission
    covering t i permission rights h =
        let (granted, k, g) = any-In (λ n. grants n permission) i.permissions h in
        (granted, (rights.permissions granted).0 k, g)

    admit-passed :
        (t : Tables) (i : Identity) (j : Option Identity) (o : Option String)
        → HasRightsOf t.access i
        → rbac_route_permission r.method r.path ≡ o
        → admit kit options i o ≡ passed j
        → (j ≡ some i) × IsEntitled t r i
    admit-passed t i j none rights m h = absurd (cc)
    admit-passed t i j (some p) rights m h = elim (Bool-cases (is_empty p)) [
      | inl e ↦ (
        sym (cc (let k : passed (some i) ≡ passed j = rw e at h in k)),
        record { permission = p; mapped = m; entitled = inl ((eq_iff p "").0 e) },
      )
      | inr e ↦ elim (Bool-cases (identity_has_permission i p)) [
        | inl q ↦ (
          sym (cc (let k : passed (some i) ≡ passed j = rw (e, q) at h in k)),
          record { permission = p; mapped = m; entitled = inr (covering t i p rights q) },
        )
        | inr q ↦ absurd (cc (let k : denied kit options ≡ passed j = rw (e, q) at h in k))
      ]
    ]

    decide-passed :
        (t : Tables) (a : Result Identity) (o : Option Identity)
        → ((i : Identity) → a ≡ ok i → HasRightsOf t.access i)
        → decide kit options r a ≡ passed o
        → (i : Identity) × (a ≡ ok i) × (o ≡ some i) × IsEntitled t r i
    decide-passed t (ok i) o rights h =
        let (e, k) =
          admit-passed t i o (rbac_route_permission r.method r.path) (rights i refl) refl h in
        (i, refl, e, k)
    decide-passed t (err e) o rights h = elim (Bool-cases (is_forbidden e)) [
      | inl q ↦ absurd (cc (let k : denied kit options ≡ passed o = rw q at h in k))
      | inr q ↦ absurd (cc (let k : rejected 401 "unauthorized" _ ≡ passed o = rw q at h in k))
    ]

    -- A handler runs only for a public path, or for an identity that was authenticated, on a path that is
    -- mapped: to no permission, or to one that the database covers for the user, by way of a role.
    pub rbac_auth-passed :
        (service : Bool) (w : World) (o : Option Identity)
        → (rbac_auth kit options service r w).0 ≡ passed o
        → (is_public_rbac_path r.method r.path ≡ true)
          ⊎ ((i : Identity) × ((authenticate_request kit options r w).0 ≡ ok i)
              × (o ≡ some i)
              × IsEntitled w.tables r i)
    unfolding rbac_auth
    rbac_auth-passed service w o h = elim (Bool-cases (is_public_rbac_path r.method r.path)) [
      | inl e ↦ inl e
      | inr e ↦ elim (Bool-cases service) [
        | inl s ↦ inr (
            decide-passed w.tables (authenticate_request kit options r w).0 o
              (λ i q. authenticate_request-HasRightsOf options i r w q) (rw (e, s) at h))
        | inr s ↦ absurd (
            cc (
              let k : rejected 401 "unauthorized" "rbac service unavailable" ≡ passed o =
                rw (e, s) at h in
              k))
      ]
    ]
