-- ===== src/Storage/Sql.antt =====
-- What the repositories of internal/storage/sqlite use of the database: single statements, each of
-- which the driver may fail, and transactions, which roll back.
use ai_council.Prelude.{
  ◌⊎◌, inl, inr, refl, ℕ, suc, ◌≡◌, String, Bool, List, ◌∷◌, if◌then◌else◌, any,
}
use ai_council.Storage.Tables.{Tables}

-- The error values of the package, and those of internal/security/rbac; `driver` is any error of the
-- database itself, and `entropy` one of `crypto/rand`.
pub data Error : Type 0 where
  not_found duplicate encoding driver illegal_transition concurrent_transition approval_not_active :
      Error
  unauthorized forbidden invalid_password entropy : Error

pub data Result (A : Type 0) : Type 0 where
  ok : A → Result A
  err : Error → Result A

-- What is outside the program: which calls fail, what `rand` and the clock give at each call.
pub record Host : Type 0 where
  pub fault : ℕ → Bool
  pub fresh : ℕ → String
  pub clock : ℕ → ℕ

-- The database, and the number of calls to the outside so far.
pub record World : Type 0 where
  pub tables : Tables
  pub calls : ℕ

abbrev pub Sql : Type 0 → Type 0
Sql A = World → Result A × World

abbrev pub continue : {A B : Type 0} → Result A → (A → Sql B) → Sql B
continue (ok a) f w = f a w
continue (err e) f w = (err e, w)

infixl 10 ◌>>=◌ ◌>>◌
abbrev pub ◌>>=◌ : {A B : Type 0} → Sql A → (A → Sql B) → Sql B
◌>>=◌ m f w = continue (m w).0 f (m w).1

abbrev pub ◌>>◌ : {A B : Type 0} → Sql A → Sql B → Sql B
m >> n = m >>= λ _. n

abbrev pub pure : {A : Type 0} → A → Sql A
pure a w = (ok a, w)

abbrev pub fail : {A : Type 0} → Error → Sql A
fail e w = (err e, w)

abbrev pub tick : World → World
tick w = record w { calls = suc w.calls }

abbrev pub settle : {A : Type 0} → Result (A × Tables) → World → Result A × World
settle (ok (a, t)) w = (ok a, record w { tables = t })
settle (err e) w = (err e, w)

-- An insert that a primary key or a unique index may refuse.
abbrev pub insert : {R : Type 0} → (R → Bool) → R → List R → Result (List R)
insert clash row rows = if any clash rows then err duplicate else ok (row ∷ rows)

module _ (host : Host) where
  -- One statement: it fails and changes nothing, or it has its effect.
  unfoldable pub statement : {A : Type 0} → (Tables → Result (A × Tables)) → Sql A
  statement effect w =
      if host.fault w.calls then (err driver, tick w) else settle (effect w.tables) (tick w)

  -- `newID()`, `time.Now()`
  unfoldable pub new_id : Sql String
  new_id w = (ok (host.fresh w.calls), tick w)

  unfoldable pub now : Sql ℕ
  now w = (ok (host.clock w.calls), tick w)

  -- The commit, or the rollback to the tables before the transaction.
  unfoldable pub finish : {A : Type 0} → Tables → Result A × World → Result A × World
  finish before (err e, w) = (err e, record w { tables = before })
  finish before (ok a, w) =
      if host.fault w.calls
      then (err driver, record { tables = before; calls = suc w.calls })
      else (ok a, tick w)

  -- `db.Transaction(func(tx) error {… })`
  unfoldable pub transaction : {A : Type 0} → Sql A → Sql A
  unfolding finish
  transaction body w =
      if host.fault w.calls then (err driver, tick w) else finish w.tables (body (tick w))

pub Result-cases :
    {A : Type 0} (r : Result A) → ((a : A) × (r ≡ ok a)) ⊎ ((e : Error) × (r ≡ err e))
Result-cases (ok a) = inl (a, refl)
Result-cases (err e) = inr (e, refl)
