-- ===== src/Storage/Approvals/Examples.antt =====
-- Approvals of internal/storage/sqlite/approval_repository.go on a small database.
use ai_council.Prelude.{pos, ◌≤◌, ◌≡◌, refl, true, none, List, [], ◌∷◌}
use ai_council.Storage.Tables.{ApprovalRecord, TaskRecord, no_tables}
use ai_council.Storage.Sql.{World}
use ai_council.Storage.Fixtures.{calm}
use ai_council.Storage.Approvals.{consume_and_mark_executing}
use ai_council.Storage.Approvals.Consumption.{Call, starting, grants, consumed_at_most_once}

abbrev approval : ApprovalRecord
approval = record {
  id = "a";
  run_id = "task-1";
  plan_version = pos 1;
  snapshot_hash = "h";
  decision = "approved";
  actor = "user";
  created_at = 5;
  invalidated_at = none;
  consumed_at = none;
}

abbrev task : TaskRecord
task = record {
  id = "task-1";
  workspace_id = "w";
  requirement = "q";
  acceptance_json = "[]";
  state = "AWAITING_APPROVAL";
  plan_version = pos 1;
  approval_hash = "h";
  approval_granted = true;
  plan_json = "{}";
  verification_json = "null";
}

abbrev approved : World
approved = record {
  tables = record no_tables { approvals = approval ∷ []; tasks = task ∷ [] };
  calls = 0;
}

abbrev twice : List Call
twice = starting "task-1" (pos 1) "h" ∷ starting "task-1" (pos 1) "h" ∷ []

one_grant : grants calm "task-1" (pos 1) "h" approved twice ≡ 1
unfolding grants consume_and_mark_executing
one_grant = refl

consumed_at_most_once_example : grants calm "task-1" (pos 1) "h" approved twice ≤ 1
consumed_at_most_once_example = consumed_at_most_once calm "task-1" (pos 1) "h" approved twice
