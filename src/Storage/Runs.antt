-- ===== src/Storage/Runs.antt =====
-- internal/storage/sqlite/run_repository.go: runs with a version, and their audit trail.
pub mod Effect
pub mod Trail
pub mod Calls
pub mod Loading
mod Examples
use ai_council.Prelude.{
  ℕ, suc, ◌+◌, ◌%◌, ◌^◌, String, Bool, true, false, Option, none, some, List, [], ◌∷◌, str_eq, ◌==◌,
  ◌&&◌, ◌||◌, find, filter, sort_by, if◌then◌else◌,
}
use ai_council.RunState.{State, can_transition}
use ai_council.Storage.Tables.{RunRecord, AuditRecord, Tables, update_where, rows_affected}
use ai_council.Storage.Sql.{
  Result, ok, err, Error, not_found, illegal_transition, concurrent_transition, Host, Sql, ◌>>=◌,
  ◌>>◌, pure, fail, insert, statement, new_id, transaction,
}

abbrev pub is_run : String → RunRecord → Bool
is_run id r = str_eq r.id id

abbrev pub of_run : String → AuditRecord → Bool
of_run id e = str_eq e.run_id id

-- The primary key and the unique index (run_id, sequence).
abbrev pub audit_clash : AuditRecord → AuditRecord → Bool
audit_clash new e = str_eq e.id new.id || (str_eq e.run_id new.run_id && e.sequence == new.sequence)

abbrev or_not_found : {A : Type 0} → Tables → Option A → Result (A × Tables)
or_not_found t none = err not_found
or_not_found t (some a) = ok (a, t)

abbrev with_runs : Tables → Result (List RunRecord) → Result (Unit {0} × Tables)
with_runs t (ok rows) = ok (tt, record t { runs = rows })
with_runs t (err e) = err e

abbrev with_audits : Tables → Result (List AuditRecord) → Result (Unit {0} × Tables)
with_audits t (ok rows) = ok (tt, record t { audits = rows })
with_audits t (err e) = err e

abbrev pub uint64 : ℕ → ℕ
uint64 n = n % 2 ^ 64

-- `Where("id = ? AND version = ?", id, current.Version)`
abbrev pub at_version : RunRecord → RunRecord → Bool
at_version current r = is_run current.id r && r.version == current.version

-- The row that a transition writes, and the audit record that it adds.
abbrev pub moved : State → ℕ → RunRecord → RunRecord
moved next version r = record r { state = next; version = version }

module _ (host : Host) where
  -- `tx.First(&run, "id = ?", id)`
  unfoldable pub first_run : String → Sql RunRecord
  unfolding statement
  first_run id = statement host (λ t. or_not_found t (find (is_run id) t.runs))

  create_run : RunRecord → Sql (Unit {0})
  unfolding statement
  create_run run = statement host (λ t. with_runs t (insert (is_run run.id) run t.runs))

  create_audit : AuditRecord → Sql (Unit {0})
  unfolding statement
  create_audit event =
      statement host (λ t. with_audits t (insert (audit_clash event) event t.audits))

  unfoldable pub create : String → State → Sql (Unit {0})
  unfolding transaction create_run create_audit new_id
  create id state = transaction host (do
    create_run (record { id = id; state = state; version = 1 })
    fresh ← new_id host
    create_audit (record {
      id = fresh;
      run_id = id;
      sequence = 1;
      kind = "run.created";
      actor = "system";
      detail = "run created";
    }))

  -- The number of rows affected.
  update_run : RunRecord → State → ℕ → Sql ℕ
  unfolding statement
  update_run current next next_version = statement host λ t. ok (
    rows_affected (at_version current) t.runs,
    record t { runs = update_where (at_version current) (moved next next_version) t.runs },
  )

  -- What `Transition` does after it has read the row `current`.
  unfoldable pub advance : RunRecord → State → String → String → Sql (Unit {0})
  unfolding update_run create_audit new_id
  advance current next actor detail =
      if can_transition current.state next
      then (do
        affected ← update_run current next (uint64 (current.version + 1))
        if affected == 1
            then (do
              fresh ← new_id host
              create_audit (record {
                id = fresh;
                run_id = current.id;
                sequence = uint64 (current.version + 1);
                kind = "state.transition";
                actor = actor;
                detail = detail;
              }))
            else fail concurrent_transition)
      else fail illegal_transition

  unfoldable pub transition : String → State → String → String → Sql (Unit {0})
  unfolding transaction first_run advance
  transition id next actor detail =
      transaction host (do current ← first_run id; advance current next actor detail)

  unfoldable pub load : String → Sql (RunRecord × List AuditRecord)
  unfolding first_run sort_by
  load id = do
    run ← first_run id
    events ← statement host (λ t. ok (sort_by (λ e. e.sequence) (filter (of_run id) t.audits), t))
    pure (run, events)
