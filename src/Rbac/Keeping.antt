-- ===== src/Rbac/Keeping.antt =====
-- What the operations of internal/security/rbac keep: whatever every statement that writes keeps, each
-- operation keeps, on every path, errors and roll-backs included.
use ai_council.Prelude.{
  String, Bool, true, false, Option, none, some, List, ◌∷◌, any, Bool-cases, inl, inr,
  if◌then◌else◌, find,
}
use ai_council.Storage.Tables.{Access, Tables}
use ai_council.Storage.Sql.{
  Result, ok, err, Host, World, Sql, ◌>>=◌, pure, continue, settle, finish, statement, transaction,
  now, tick,
}
use ai_council.Rbac.Catalog.{ignored}
use ai_council.Rbac.{
  Kit, found, with_access, added, first, first_or_none, select, or_create, random_token, hashed,
}

abbrev pub Keeps : {A : Type 0} → (Tables → Type 0) → Sql A → Type 0
Keeps P m = (w : World) → P w.tables → P (m w).1.tables

module _ (P : Tables → Type 0) where
  continue-keeps :
      {A B : Type 0} (r : Result A) (f : A → Sql B) (w : World)
      → ((a : A) → Keeps P (f a))
      → P w.tables
      → P (continue r f w).1.tables
  continue-keeps (ok a) f w k p = k a w p
  continue-keeps (err e) f w k p = p

  pub >>=-keeps :
      {A B : Type 0} (m : Sql A) (f : A → Sql B)
      → Keeps P m
      → ((a : A) → Keeps P (f a))
      → Keeps P (m >>= f)
  >>=-keeps m f km kf w p = continue-keeps (m w).0 f (m w).1 kf (km w p)

  pub if-keeps :
      {A : Type 0} (b : Bool) (m n : Sql A) → Keeps P m → Keeps P n → Keeps P (if b then m else n)
  if-keeps true m n km kn = km
  if-keeps false m n km kn = kn

  -- What an effect on the tables keeps.
  abbrev pub Kept : {A : Type 0} → Result (A × Tables) → Type 0
  Kept (ok (a, t)) = P t
  Kept (err e) = Unit

  settle-keeps :
      {A : Type 0} (r : Result (A × Tables)) (w : World)
      → Kept r
      → P w.tables
      → P (settle r w).1.tables
  settle-keeps (ok (a, t)) w k p = k
  settle-keeps (err e) w k p = p

  module _ (host : Host) where
    pub statement-keeps :
        {A : Type 0} (effect : Tables → Result (A × Tables))
        → ((t : Tables) → P t → Kept (effect t))
        → Keeps P (statement host effect)
    unfolding statement
    statement-keeps effect k w p = elim (Bool-cases (host.fault w.calls)) [
      | inl e ↦ rw e p
      | inr e ↦ rw e (settle-keeps (effect w.tables) (tick w) (k w.tables p) p)
    ]

    finish-keeps :
        {A : Type 0} (before : Tables) (r : Result A) (w : World)
        → P before
        → P w.tables
        → P (finish host before (r, w)).1.tables
    unfolding finish
    finish-keeps before (err e) w b p = b
    finish-keeps before (ok a) w b p = elim (Bool-cases (host.fault w.calls)) [
      | inl e ↦ rw e b
      | inr e ↦ rw e p
    ]

    pub transaction-keeps : {A : Type 0} (m : Sql A) → Keeps P m → Keeps P (transaction host m)
    unfolding transaction
    transaction-keeps m k w p = elim (Bool-cases (host.fault w.calls)) [
      | inl e ↦ rw e p
      | inr e ↦ rw e (finish-keeps w.tables (m (tick w)).0 (m (tick w)).1 p (k (tick w) p))
    ]

    pub now-keeps : Keeps P (now host)
    unfolding now
    now-keeps w p = p

  found-Kept : {R : Type 0} (t : Tables) (o : Option R) → P t → Kept (found t o)
  found-Kept t none p = tt
  found-Kept t (some r) p = p

  -- A new row, and a row that may be left out.
  pub added-Kept :
      {R : Type 0} (put : List R → Access) (t : Tables) (r : Result (List R))
      → ((rows : List R) → P (with_access (put rows) t))
      → Kept (added put t r)
  added-Kept put t (ok rows) k = k rows
  added-Kept put t (err e) k = tt

  pub ignored-Kept :
      {R : Type 0} (clash : R → Bool) (row : R) (rows : List R) (put : List R → Access) (t : Tables)
      → P t
      → P (with_access (put (row ∷ rows)) t)
      → Kept (ignored clash row rows put t)
  ignored-Kept clash row rows put t p q = elim (Bool-cases (any clash rows)) [
    | inl e ↦ rw e p
    | inr e ↦ rw e q
  ]

  module _ (kit : Kit) where
    pub first-keeps :
        {R : Type 0} (table : Access → List R) (test : R → Bool) → Keeps P (first kit table test)
    unfolding first
    first-keeps table test =
        statement-keeps kit.host (λ t. found t (find test (table t.access)))
          (λ t p. found-Kept t (find test (table t.access)) p)

    pub first_or_none-keeps :
        {R : Type 0} (table : Access → List R) (test : R → Bool)
        → Keeps P (first_or_none kit table test)
    unfolding first_or_none
    first_or_none-keeps table test =
        statement-keeps kit.host (λ t. ok (find test (table t.access), t)) (λ t p. p)

    pub select-keeps : {A : Type 0} (query : Access → A) → Keeps P (select kit query)
    unfolding select
    select-keeps query = statement-keeps kit.host (λ t. ok (query t.access, t)) (λ t p. p)

    pub random_token-keeps : Keeps P (random_token kit)
    unfolding random_token
    random_token-keeps w p = elim (Bool-cases (kit.host.fault w.calls)) [
      | inl e ↦ rw e p
      | inr e ↦ rw e p
    ]

    pub hashed-keeps : (password : String) → Keeps P (hashed kit password)
    unfolding hashed
    hashed-keeps password w p = elim (Bool-cases (kit.host.fault w.calls)) [
      | inl e ↦ rw e p
      | inr e ↦ rw e p
    ]

    pub or_create-keeps :
        {R : Type 0} (new : R) (creating : Sql (Unit {0})) (row : Option R)
        → Keeps P creating
        → Keeps P (or_create kit new creating row)
    or_create-keeps new creating none k w p = >>=-keeps creating (λ _. pure new) k (λ u v q. q) w p
    or_create-keeps new creating (some r) k w p = p
