-- ===== src/Runner/Examples.antt =====
-- A request of internal/runner/grpc/service.go on a small workspace, which counts what ran.
use ai_council.Prelude.{ℕ, suc, ◌≡◌, refl, true, false, pos, none, some, [], ◌∷◌}
use ai_council.Schema.{Command, no_plan}
use ai_council.Approval.{Digest, accepted, hash_mismatch, hash, verify}
use ai_council.TaskApi.{Task, Request, Response}
use ai_council.TaskApi.Execute.{request_of}
use ai_council.RunState.{State as TaskState}
use ai_council.Runner.Idempotency.{Backend, get, begin, release, complete}
use ai_council.Runner.Service.{
  Transaction, Ran, applied, State, responded, plan_of, execute_approved_plan, carry_out,
  succeeded_so_far, answers, step_of,
}
use ai_council.Runner.Repeat.{repeat_does_nothing}
use ai_council.Runner.Handover.{sent_request_accepted}
use ai_council.Runner.Outcome.{Succeeded, carry_out-Succeeded}

abbrev digest : Digest
digest = record { marshal = λ p. some "plan"; sha256_hex = λ s. s }

abbrev backend : Backend
backend = record { db = true; fault = λ n. false; marshal = λ r. some "{}"; unmarshal = λ s. none }

abbrev transaction : Transaction ℕ
transaction = record {
  Snapshots = Unit;
  apply = λ ps n. (applied tt, suc n);
  restore = λ s n. (true, n);
}

abbrev run : Command → ℕ → Ran × ℕ
run c n = (
  record {
    exit_code = pos 0;
    stdout = "";
    stderr = "";
    duration_ms = pos 1;
    timed_out = false;
    failed = false;
  },
  suc n,
)

abbrev command : Command
command = record {
  executable = "go";
  args = none;
  work_dir = ".";
  timeout_seconds = pos 60;
  purpose = "test";
}

abbrev task : Task
task = record {
  id = "task-1";
  state = TaskState.awaiting_approval;
  workspace_id = "w";
  requirement = "q";
  acceptance = none;
  plan_version = pos 1;
  approval_hash = "plan";
  approved = true;
  plan = record no_plan { version = pos 1; commands = some (command ∷ []) };
  verification = none;
  events = [];
}

abbrev idle : State ℕ
idle = record { store = record { running = []; done = []; rows = []; calls = 0 }; workspace = 0 }

abbrev forged : Request
forged = record {
  request_id = "task-1:1";
  run_id = "task-1";
  workspace_id = "w";
  plan_version = pos 1;
  approval_hash = "other";
  acceptance = [];
  patches = [];
  commands = [];
  verification_commands = [];
}

abbrev genuine : Request
genuine = record forged { approval_hash = "plan" }

done :
    (execute_approved_plan digest backend transaction run genuine idle).0
    ≡ responded (succeeded_so_far "task-1:1")
unfolding execute_approved_plan get begin verify hash carry_out complete release
done = refl

repeat_does_nothing_example :
    execute_approved_plan digest backend transaction run genuine
      (execute_approved_plan digest backend transaction run genuine idle).1
    ≡ (
      responded (succeeded_so_far "task-1:1"),
      (execute_approved_plan digest backend transaction run genuine idle).1,
    )
repeat_does_nothing_example =
    repeat_does_nothing digest backend transaction run genuine idle (succeeded_so_far "task-1:1")
      refl done

refused : verify digest "other" "task-1" "w" (plan_of forged) ≡ hash_mismatch
unfolding verify hash
refused = refl

hashed : hash digest "task-1" "w" task.plan ≡ some "plan"
unfolding hash
hashed = refl

sent_request_accepted_example :
    verify digest
      (request_of task).approval_hash
      (request_of task).run_id
      (request_of task).workspace_id
      (plan_of (request_of task))
    ≡ accepted
sent_request_accepted_example = sent_request_accepted digest task refl refl hashed

abbrev report : Response
report = record (succeeded_so_far "r") {
  steps = step_of "command" command (run command 0).0 "SUCCEEDED" ∷ [];
}

passed :
    carry_out digest backend transaction run task.plan (succeeded_so_far "r") 0
    ≡ answers (report, 1)
unfolding carry_out step_of
passed = refl

carry_out-Succeeded_example :
    Succeeded digest backend transaction run task.plan (succeeded_so_far "r") 0 (report, 1)
carry_out-Succeeded_example =
    carry_out-Succeeded digest backend transaction run task.plan (succeeded_so_far "r") 0
      (report, 1) passed refl
