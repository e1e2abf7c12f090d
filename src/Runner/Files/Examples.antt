-- ===== src/Runner/Files/Examples.antt =====
-- A transaction of internal/runner/files/transaction.go on one file.
use ai_council.Prelude.{
  false≢true, eq_iff, pos, ℕ, ◌≡◌, refl, false, true, none, some, List, [], ◌∷◌, codes, str_eq,
  ◌==◌, if◌then◌else◌,
}
use ai_council.Schema.{Patch, Command, ExecutionPlan, no_plan}
use ai_council.Approval.{Digest}
use ai_council.TaskApi.{Response}
use ai_council.Runner.Idempotency.{Backend}
use ai_council.Runner.Service.{Ran, succeeded_so_far, answers, step_of, carry_out}
use ai_council.Runner.Rollback.{file_transaction, IsUndone, failed_execution-IsUndone}
use ai_council.Runner.Diff.{apply_unified_diff, header}
use ai_council.Runner.Files.{Disk, Os, Snapshot, applied, failed, apply, restore}
use ai_council.Runner.Files.Atomic.{apply_all_or_nothing, restore_after_apply}

-- The system call `broken` fails.
abbrev os : ℕ → Os
os broken = record {
  resolve_write = λ p. some p;
  bytes = codes;
  hash_bytes = λ l. "h";
  fault = λ n. n == broken;
  stat_fault = λ n. false;
}

abbrev disk : Disk
disk = record {
  at = λ p. if str_eq p "f" then some (record { content = codes "a\n"; mode = 420 }) else none;
  calls = 0;
}

abbrev patches : List Patch
patches =
    record { path = "f"; unified_diff = "@@ -1 +1 @@\n-a\n+b\n"; before_hash = "h" }
    ∷ record { path = "g"; unified_diff = "@@ -0,0 +1 @@\n+new\n"; before_hash = "" }
    ∷ []

-- The second file cannot be written, and the first one is restored.
second_fails : (apply (os 5) patches disk).0 ≡ failed
unfolding apply apply_unified_diff header
second_fails = refl

apply_all_or_nothing_example : (apply (os 5) patches disk).1.at "f" ≡ disk.at "f"
apply_all_or_nothing_example = apply_all_or_nothing (os 5) (λ n. refl) patches disk "f" second_fails

abbrev snapshots : List Snapshot
snapshots =
    record { path = "f"; existed = true; mode = 420; content = codes "a\n" }
    ∷ record { path = "g"; existed = false; mode = 384; content = [] }
    ∷ []

both_applied : (apply (os 99) patches disk).0 ≡ applied snapshots
unfolding apply apply_unified_diff header
both_applied = refl

undone : (restore (os 99) snapshots (apply (os 99) patches disk).1).0 ≡ true
unfolding restore apply apply_unified_diff header
undone = refl

restore_after_apply_example :
    (restore (os 99) snapshots (apply (os 99) patches disk).1).1.at "g" ≡ disk.at "g"
restore_after_apply_example =
    restore_after_apply (os 99) (λ n. refl) patches disk snapshots (apply (os 99) patches disk).1
      "g" both_applied (λ q h. refl) undone

-- A plan that changes a file, and then runs a command that fails.
abbrev command : Command
command = record {
  executable = "go";
  args = none;
  work_dir = ".";
  timeout_seconds = pos 60;
  purpose = "test";
}

abbrev plan : ExecutionPlan
plan = record no_plan { version = pos 1; patches = some patches; commands = some (command ∷ []) }

abbrev exits_with_one : Command → Disk → Ran × Disk
exits_with_one c d = (
  record {
    exit_code = pos 1;
    stdout = "";
    stderr = "";
    duration_ms = pos 1;
    timed_out = false;
    failed = false;
  },
  d,
)

abbrev digest : Digest
digest = record { marshal = λ p. some "plan"; sha256_hex = λ s. s }

abbrev backend : Backend
backend = record { db = false; fault = λ n. false; marshal = λ r. some "{}"; unmarshal = λ s. none }

abbrev report : Response
report = record (succeeded_so_far "r") {
  status = "FAILED";
  error_code = "command_failed:go";
  steps = step_of "command" command (exits_with_one command disk).0 "FAILED" ∷ [];
}

abbrev final : Disk
final = (restore (os 99) snapshots (apply (os 99) patches disk).1).1

command_failed :
    carry_out digest backend
      (file_transaction (os 99))
      exits_with_one
      plan
      (succeeded_so_far "r")
      disk
    ≡ answers (report, final)
unfolding carry_out apply restore apply_unified_diff header
command_failed = refl

failed_execution-IsUndone_example : IsUndone disk (report, final)
failed_execution-IsUndone_example =
    failed_execution-IsUndone digest backend (os 99) (λ n. refl) exits_with_one (λ c d p. refl) plan
      (succeeded_so_far "r") disk (report, final) refl command_failed
      (λ e. false≢true ((eq_iff "FAILED" "SUCCEEDED").1 e))
