-- ===== src/TaskService/Examples.antt =====
-- A task of internal/app/task/service.go that is executed twice under one approval.
use ai_council.Prelude.{◌≡◌, ◌⊎◌, refl, pos, true, none, some, [], ◌∷◌, length}
use ai_council.RunState.{State, can_transition}
use ai_council.Schema.{no_plan}
use ai_council.Storage.Tables.{ApprovalRecord, no_tables}
use ai_council.Storage.Approvals.{current, latest}
use ai_council.Storage.Fixtures.{calm}
use ai_council.TaskService.{Session, Service, execute}
use ai_council.TaskService.Consent.{Consented, execute-Consented}

abbrev service : Service
service = record {
  host = calm;
  digest = record { marshal = λ p. some "plan"; sha256_hex = λ s. s };
  council = none;
  runner = λ e. some true;
}

abbrev approval : ApprovalRecord
approval = record {
  id = "a";
  run_id = "r";
  plan_version = pos 1;
  snapshot_hash = "plan";
  decision = "approved";
  actor = "user";
  created_at = 5;
  invalidated_at = none;
  consumed_at = none;
}

abbrev approved : Session
approved = record {
  task = record {
    id = "r";
    run_id = "r";
    workspace_id = "w";
    requirement = "q";
    acceptance = some ("ok" ∷ []);
    state = State.awaiting_approval;
    plan_version = pos 1;
    plan = record no_plan { version = pos 1 };
  };
  world = record {
    tables = record no_tables {
      runs = record { id = "r"; state = State.awaiting_approval; version = 7 } ∷ [];
      approvals = approval ∷ [];
    };
    calls = 0;
  };
  executed = [];
}

-- The second execution runs too.
twice : length (execute service "two" (execute service "one" approved).1).1.executed ≡ 2
unfolding execute current latest can_transition
twice = refl

execute-Consented_example :
    ((execute service "one" approved).1.executed ≡ [])
    ⊎ Consented service "one" approved (execute service "one" approved).1.executed
execute-Consented_example = execute-Consented service "one" approved
