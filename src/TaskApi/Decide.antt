-- ===== src/TaskApi/Decide.antt =====
-- `approveTask`, `rejectTask` and `cancelTask` of internal/transport/council/routes.go.
use ai_council.Prelude.{
  ℕ, pos, String, true, false, Option, none, some, str_eq, int_eq, is_empty, itoa, not, ◌||◌,
  if◌then◌else◌,
}
use ai_council.RunState.{State, state_eq}
use ai_council.Storage.Tables.{ApprovalRecord}
use ai_council.Storage.Sql.{now, Sql, ◌>>=◌ as then_sql}
use ai_council.Storage.Approvals.{save, invalidate}
use ai_council.TaskApi.{
  Task, ApprovalRequest, EventData, Server, Act, ◌>>=◌, ◌>>◌, pure, refuse, the_ctx, set_task,
  db_call, or_refuse, append_event, persist_task,
}

approval_of : Task → ApprovalRequest → ℕ → ℕ → ApprovalRecord
unfolding itoa
approval_of t r nanos time = record {
  id = itoa (pos nanos);
  run_id = t.id;
  plan_version = r.plan_version;
  snapshot_hash = r.approval_hash;
  decision = "approved";
  actor = "user";
  created_at = time;
  invalidated_at = none;
  consumed_at = none;
}

module _ (server : Server) where
  -- `Save` of a record with an identifier and a time from the clock
  pub save_approval : Task → ApprovalRequest → Sql (Unit {0})
  unfolding now save approval_of
  save_approval t r =
      then_sql (now server.host)
        λ nanos. then_sql (now server.host) λ time. save server.host (approval_of t r nanos time)

  unfoldable pub record_approval : Task → ApprovalRequest → Act (Unit {0})
  unfolding invalidate save_approval
  record_approval t r =
      if server.db
      then (do
        dropped ← db_call (invalidate server.host t.id)
        or_refuse "approval_persistence_failed" dropped
        saved ← db_call (save_approval t r)
        or_refuse "approval_persistence_failed" saved)
      else pure tt

  -- What follows the checks of `approveTask`.
  unfoldable pub grant : ApprovalRequest → Act (Unit {0})
  unfolding record_approval persist_task append_event
  grant r = do
    c ← the_ctx
    set_task (record c.task { approval_hash = r.approval_hash })
    record_approval c.task r
    d ← the_ctx
    set_task (record d.task { approved = true })
    saved ← persist_task server
    or_refuse "task_persistence_failed" saved
    appended ← append_event server "approval.created" (EventData.the_approval r)
    or_refuse "event_persistence_failed" appended

  -- The request is `none` where the body is not JSON.
  unfoldable pub approve_task : Option ApprovalRequest → Act (Unit {0})
  unfolding grant state_eq
  approve_task none = refuse 400 "invalid_approval"
  approve_task (some r) = if is_empty r.approval_hash then refuse 400 "invalid_approval" else (do
    c ← the_ctx
    if not (state_eq c.task.state State.awaiting_approval)
          || not (int_eq r.plan_version c.task.plan_version)
        then refuse 409 "invalid_state"
        else if not (str_eq r.approval_hash c.task.approval_hash)
        then refuse 409 "approval_mismatch"
        else grant r)

  -- Both ignore the errors of the database.
  unfoldable pub withdraw : String → Act (Unit {0})
  unfolding persist_task append_event
  withdraw kind = do
    c ← the_ctx
    set_task (record c.task { state = State.cancelled; approved = false })
    persist_task server
    append_event server kind (EventData.the_state State.cancelled)
    pure tt

  unfoldable pub reject_task : Act (Unit {0})
  unfolding withdraw
  reject_task = withdraw "approval.rejected"

  unfoldable pub cancel_task : Act (Unit {0})
  unfolding withdraw
  cancel_task = withdraw "state.changed"
