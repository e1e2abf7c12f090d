-- ===== src/Storage/Approvals.antt =====
-- internal/storage/sqlite/approval_repository.go: approvals of a plan, and their consumption.
pub mod Consumption
mod Examples
use Prim.Native.Nat.{Ordering}
use Prim.Native.String.{compare}
use ai_council.Prelude.{
  ℕ, ℤ, String, Bool, true, false, Option, none, some, List, [], ◌∷◌, str_eq, int_eq, ◌==◌, ltb,
  ◌&&◌, ◌||◌, filter, if◌then◌else◌,
}
use ai_council.Storage.Tables.{ApprovalRecord, TaskRecord, Tables, update_where, rows_affected}
use ai_council.Storage.Sql.{
  Result, ok, err, Error, not_found, approval_not_active, Host, World, Sql, ◌>>=◌, ◌>>◌, pure, fail,
  insert, statement, now, transaction,
}

abbrev is_none : Option ℕ → Bool
is_none none = true
is_none (some n) = false

abbrev with_approvals : Tables → Result (List ApprovalRecord) → Result (Unit {0} × Tables)
with_approvals t (ok rows) = ok (tt, record t { approvals = rows })
with_approvals t (err e) = err e

-- `invalidated_at IS NULL` for a run, and the further tests of the other statements
abbrev pub is_valid : String → ApprovalRecord → Bool
is_valid run a = str_eq a.run_id run && is_none a.invalidated_at

abbrev pub is_approved : String → ℤ → ApprovalRecord → Bool
is_approved run plan a =
    is_valid run a && (int_eq a.plan_version plan && str_eq a.decision "approved")

abbrev pub is_active : String → ℤ → String → ApprovalRecord → Bool
is_active run plan hash a =
    is_approved run plan a && (str_eq a.snapshot_hash hash && is_none a.consumed_at)

abbrev pub is_startable : String → ℤ → String → TaskRecord → Bool
is_startable run plan hash r =
    str_eq r.id run
    && (str_eq r.state "AWAITING_APPROVAL"
        && (int_eq r.plan_version plan && (str_eq r.approval_hash hash && r.approval_granted)))

abbrev pub invalidated : ℕ → ApprovalRecord → ApprovalRecord
invalidated time a = record a { invalidated_at = some time }

abbrev pub consumed : ℕ → ApprovalRecord → ApprovalRecord
consumed time a = record a { consumed_at = some time }

abbrev pub started : TaskRecord → TaskRecord
started r = record r { state = "EXECUTING" }

-- `Order("created_at DESC").First`, which breaks ties by the primary key
abbrev pub precedes : ApprovalRecord → ApprovalRecord → Bool
precedes a b =
    ltb b.created_at a.created_at
    || (a.created_at == b.created_at && elim (compare a.id b.id) [ Ordering.lt ↦ true | _ ↦ false ])

unfoldable pub latest : List ApprovalRecord → Option ApprovalRecord
latest [] = none
latest (a ∷ as_) = elim (latest as_) [
  | none ↦ some a
  | some b ↦ if precedes b a then some b else some a
]

abbrev or_not_found : Tables → Option ApprovalRecord → Result (ApprovalRecord × Tables)
or_not_found t none = err not_found
or_not_found t (some a) = ok (a, t)

-- `errors.Is(err, errApprovalNotActive)` turns this error into the answer `false`.
abbrev answer : Result (Unit {0}) → Result Bool
answer (ok _) = ok true
answer (err approval_not_active) = ok false
answer (err e) = err e

module _ (host : Host) where
  unfoldable pub save : ApprovalRecord → Sql (Unit {0})
  unfolding statement
  save a = statement host λ t. with_approvals t (insert (λ b. str_eq b.id a.id) a t.approvals)

  unfoldable pub current : String → ℤ → Sql ApprovalRecord
  unfolding statement
  current run plan =
      statement host λ t. or_not_found t (latest (filter (is_approved run plan) t.approvals))

  unfoldable pub invalidate : String → Sql (Unit {0})
  unfolding statement now
  invalidate run = do
    time ← now host
    statement host λ t.
        ok (tt, record t { approvals = update_where (is_valid run) (invalidated time) t.approvals })

  -- The update that marks the matching active approvals as used: the number of rows affected.
  mark_consumed : String → ℤ → String → ℕ → Sql ℕ
  unfolding statement
  mark_consumed run plan hash time = statement host λ t. ok (
    rows_affected (is_active run plan hash) t.approvals,
    record t { approvals = update_where (is_active run plan hash) (consumed time) t.approvals },
  )

  mark_started : String → ℤ → String → Sql ℕ
  unfolding statement
  mark_started run plan hash = statement host λ t. ok (
    rows_affected (is_startable run plan hash) t.tasks,
    record t { tasks = update_where (is_startable run plan hash) started t.tasks },
  )

  unfoldable pub consume : String → ℤ → String → Sql Bool
  unfolding mark_consumed now
  consume run plan hash = do
    time ← now host
    affected ← mark_consumed run plan hash time
    pure (affected == 1)

  -- The body of the transaction, which fails unless exactly one approval and one task match.
  unfoldable pub consume_and_start : String → ℤ → String → ℕ → Sql (Unit {0})
  unfolding mark_consumed mark_started
  consume_and_start run plan hash time = do
    approvals ← mark_consumed run plan hash time
    if approvals == 1
        then (do
          tasks ← mark_started run plan hash
          if tasks == 1 then pure tt else fail approval_not_active)
        else fail approval_not_active

  -- Where the package returns `errors.Is(err, errApprovalNotActive)` as `false, nil`.
  abbrev answered : Sql (Unit {0}) → Sql Bool
  answered m w = (answer (m w).0, (m w).1)

  unfoldable pub consume_and_mark_executing : String → ℤ → String → Sql Bool
  unfolding consume_and_start transaction now
  consume_and_mark_executing run plan hash = do
    time ← now host
    answered (transaction host (consume_and_start run plan hash time))
