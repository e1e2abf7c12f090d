-- ===== src/Schema.antt =====
-- internal/council/schema/types.go: the documents that the council and the runner exchange.
use ai_council.Prelude.{ℕ, ℤ, String, List, Option, Slice}

pub record WorkspaceFile : Type 0 where
  pub path : String
  pub content : List ℕ  -- bytes

pub record Evidence : Type 0 where
  pub path : String
  pub line : ℤ
  pub claim : String

pub record TaskBrief : Type 0 where
  pub requirement : String
  pub constraints : Slice String
  pub acceptance : Slice String
  pub workspace_facts : Slice Evidence
  pub workspace_files : Slice WorkspaceFile

pub record FileChange : Type 0 where
  pub path : String
  pub operation : String
  pub rationale : String

pub record Proposal : Type 0 where
  pub id : String
  pub summary : String
  pub approach : Slice String
  pub files : Slice FileChange
  pub risks : Slice String
  pub tests : Slice String
  pub evidence : Slice Evidence

pub record PeerReview : Type 0 where
  pub reviewer_seat_id : String
  pub proposal_alias : List ℕ  -- code points
  pub correctness : Slice String
  pub risks : Slice String
  pub missing : Slice String
  pub verdict : String

pub record Command : Type 0 where
  pub executable : String
  pub args : Slice String
  pub work_dir : String
  pub timeout_seconds : ℤ
  pub purpose : String

pub record Patch : Type 0 where
  pub path : String
  pub unified_diff : String
  pub before_hash : String

pub record ExecutionPlan : Type 0 where
  pub version : ℤ
  pub patches : Slice Patch
  pub commands : Slice Command
  pub verification_commands : Slice Command
  pub acceptance : Slice String
  pub recovery : Slice String

pub record CouncilDecision : Type 0 where
  pub selected_aliases : Slice String
  pub reasons : Slice String
  pub rejected : Slice (String × Slice String)
  pub plan_summary : Slice String
  pub plan : ExecutionPlan

pub record RedTeamReport : Type 0 where
  pub blocking : Slice String
  pub non_blocking : Slice String
  pub recommendation : String

-- `schema.ExecutionPlan{}`
abbrev pub no_plan : ExecutionPlan
no_plan = record {
  version = ℤ.pos 0;
  patches = Option.none;
  commands = Option.none;
  verification_commands = Option.none;
  acceptance = Option.none;
  recovery = Option.none;
}
