-- ===== src/Approval.antt =====
-- internal/approval/snapshot.go: the hash that an approval is given for.
pub mod Binding
mod Examples
use ai_council.Prelude.{String, Bool, Option, none, some, str_eq, non_nil, if◌then◌else◌}
use ai_council.Schema.{ExecutionPlan}

pub record Payload : Type 0 where
  pub run_id : String
  pub workspace_id : String
  pub plan : ExecutionPlan

-- `json.Marshal` on a payload, with `none` for its error, and the digest in hexadecimal.
pub record Digest : Type 0 where
  pub marshal : Payload → Option String
  pub sha256_hex : String → String

-- The plan that is hashed: without `nil` in the slices that are executed, and without the recovery
-- guidance.
abbrev pub canonical : ExecutionPlan → ExecutionPlan
canonical plan = record plan {
  acceptance = non_nil plan.acceptance;
  patches = non_nil plan.patches;
  commands = non_nil plan.commands;
  verification_commands = non_nil plan.verification_commands;
  recovery = none;
}

abbrev pub payload : String → String → ExecutionPlan → Payload
payload run workspace plan = record {
  run_id = run;
  workspace_id = workspace;
  plan = canonical plan;
}

pub data Verdict : Type 0 where
  accepted hash_mismatch marshal_failed : Verdict

module _ (digest : Digest) where
  abbrev pub digested : Option String → Option String
  digested none = none
  digested (some raw) = some (digest.sha256_hex raw)

  -- `Hash`, with `none` for an error
  unfoldable pub hash : String → String → ExecutionPlan → Option String
  hash run workspace plan = digested (digest.marshal (payload run workspace plan))

  unfoldable pub verify : String → String → String → ExecutionPlan → Verdict
  verify want run workspace plan = elim (hash run workspace plan) [
    | none ↦ marshal_failed
    | some got ↦ if str_eq want got then accepted else hash_mismatch
  ]
