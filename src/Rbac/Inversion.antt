-- ===== src/Rbac/Inversion.antt =====
-- What a statement of internal/security/rbac that succeeds has read or written.
use ai_council.Prelude.{
  ◌≡◌, ◌⊎◌, refl, ap, sym, inl, inr, ℕ, suc, Bool, true, false, Option, none, some, List, find,
  Bool-cases, arith, if◌then◌else◌,
}
use ai_council.Storage.Tables.{Access, Tables}
use ai_council.Storage.Sql.{
  Error, Result, ok, err, Host, World, Sql, ◌>>=◌, continue, settle, tick, statement, now,
}
use ai_council.Rbac.{Kit, found, missing_as, instead, first, first_or_none, select}

-- A run from `w` that gives `a` and ends in `v`.
abbrev pub Gives : {A : Type 0} → Sql A → World → A → World → Type 0
Gives m w a v = ((m w).0 ≡ ok a) × ((m w).1 ≡ v)

-- The world after one call to the outside that writes `t`.
abbrev pub stepped : Tables → World → World
stepped t w = record { tables = t; calls = suc w.calls }

continue-ok :
    {A B : Type 0} (r : Result A) (f : A → Sql B) (w v : World) (b : B)
    → (continue r f w).0 ≡ ok b
    → (continue r f w).1 ≡ v
    → (a : A) × (r ≡ ok a) × (Gives (f a) w b v)
continue-ok (ok a) f w v b h e = (a, refl, (h, e))
continue-ok (err x) f w v b h e = absurd (cc)

pub >>=-ok :
    {A B : Type 0} (m : Sql A) (f : A → Sql B) (w v : World) (b : B)
    → Gives (m >>= f) w b v
    → (a : A) × (u : World) × (Gives m w a u) × (Gives (f a) u b v)
>>=-ok m f w v b (h, e) =
    let (a, r, k) = continue-ok (m w).0 f (m w).1 v b h e in (a, (m w).1, (r, refl), k)

pub missing_as-ok :
    {A : Type 0} (e : Error) (m : Sql A) (w v : World) (a : A)
    → Gives (missing_as e m) w a v
    → Gives m w a v
missing_as-ok {A} e m w v a (h, k) = (instead-ok (m w).0 h, k)
  where
    instead-ok : (r : Result A) → instead e r ≡ ok a → r ≡ ok a
    instead-ok (ok b) q = q
    instead-ok (err Error.not_found) q = absurd (cc)
    instead-ok (err Error.duplicate) q = absurd (cc)
    instead-ok (err Error.encoding) q = absurd (cc)
    instead-ok (err Error.driver) q = absurd (cc)
    instead-ok (err Error.illegal_transition) q = absurd (cc)
    instead-ok (err Error.concurrent_transition) q = absurd (cc)
    instead-ok (err Error.approval_not_active) q = absurd (cc)
    instead-ok (err Error.unauthorized) q = absurd (cc)
    instead-ok (err Error.forbidden) q = absurd (cc)
    instead-ok (err Error.invalid_password) q = absurd (cc)
    instead-ok (err Error.entropy) q = absurd (cc)

settle-ok :
    {A : Type 0} (r : Result (A × Tables)) (w v : World) (a : A)
    → (settle r (tick w)).0 ≡ ok a
    → (settle r (tick w)).1 ≡ v
    → (t : Tables) × (r ≡ ok (a, t)) × (v ≡ stepped t w)
settle-ok (ok (b, t)) w v a h e = (t, ground arith, ground arith)
settle-ok (err x) w v a h e = absurd (cc)

pub statement-ok :
    {A : Type 0} (host : Host) (effect : Tables → Result (A × Tables)) (w v : World) (a : A)
    → Gives (statement host effect) w a v
    → (t : Tables) × (effect w.tables ≡ ok (a, t)) × (v ≡ stepped t w)
unfolding statement
statement-ok host effect w v a (h, e) = elim (Bool-cases (host.fault w.calls)) [
  | inl f ↦ absurd (cc (let k : err Error.driver ≡ ok a = rw f at h in k))
  | inr f ↦ settle-ok (effect w.tables) w v a (rw f at h) (rw f at e)
]

found-ok :
    {R : Type 0} (o : Option R) (t t' : Tables) (r : R)
    → found t o ≡ ok (r, t')
    → (o ≡ some r) × (t' ≡ t)
found-ok none t t' r h = absurd (cc)
found-ok (some x) t t' r h = (ground arith, ground arith)

pub now-ok :
    (host : Host) (w v : World) (time : ℕ)
    → Gives (now host) w time v
    → (v.tables ≡ w.tables) × (host.clock w.calls ≡ time)
unfolding now
now-ok host w v time (h, e) = (ap (λ (x : World). x.tables) (sym e), cc h)

module _ (kit : Kit) where
  pub first-ok :
      {R : Type 0} (table : Access → List R) (test : R → Bool) (w v : World) (r : R)
      → Gives (first kit table test) w r v
      → (find test (table w.tables.access) ≡ some r) × (v ≡ stepped w.tables w)
  unfolding first
  first-ok table test w v r h =
      let (t, e, s) = statement-ok kit.host (λ t. found t (find test (table t.access))) w v r h in
      let (f, q) = found-ok (find test (table w.tables.access)) w.tables t r e in (f, rw q at s)

  pub first_or_none-ok :
      {R : Type 0} (table : Access → List R) (test : R → Bool) (w v : World) (o : Option R)
      → Gives (first_or_none kit table test) w o v
      → (find test (table w.tables.access) ≡ o) × (v ≡ stepped w.tables w)
  unfolding first_or_none
  first_or_none-ok table test w v o h =
      let (t, e, s) = statement-ok kit.host (λ t. ok (find test (table t.access), t)) w v o h in
      let q : w.tables ≡ t = cc e in (cc e, rw (← q) at s)

  pub select-ok :
      {A : Type 0} (query : Access → A) (w v : World) (a : A)
      → Gives (select kit query) w a v
      → (query w.tables.access ≡ a) × (v ≡ stepped w.tables w)
  unfolding select
  select-ok query w v a h =
      let (t, e, s) = statement-ok kit.host (λ t. ok (query t.access, t)) w v a h in
      let q : w.tables ≡ t = cc e in (cc e, rw (← q) at s)

pub if-ok :
    {A : Type 0} (b : Bool) (m n : Sql A) (w v : World) (a : A)
    → Gives (if b then m else n) w a v
    → ((b ≡ true) × (Gives m w a v)) ⊎ ((b ≡ false) × (Gives n w a v))
if-ok true m n w v a h = inl (refl, h)
if-ok false m n w v a h = inr (refl, h)
