-- ===== src/Council/Fixtures.antt =====
-- Seats, providers and documents for the examples of the council.
use ai_council.Prelude.{ℕ, pos, String, none, some, List, [], ◌∷◌}
use ai_council.Schema.{
  TaskBrief, Proposal, PeerReview, CouncilDecision, RedTeamReport, ExecutionPlan, Command, no_plan,
}
use ai_council.Provider.{Usage, ModelProvider, Registry, new_registry}
use ai_council.Council.Engine.{Seat, Generated, Dialogue, aliased}

abbrev pub seat : String → Seat
seat id = record { id = id; provider = "p"; model = "m"; role = "r"; proposal_alias = [] }

abbrev pub alice : Seat
alice = seat "alice"

abbrev pub bob : Seat
bob = seat "bob"

abbrev pub no_usage : Usage
no_usage = record { input_tokens = pos 0; output_tokens = pos 0; estimated_cost_micros = pos 0 }

abbrev provider : ModelProvider
provider = record {
  name = "p";
  generate = λ i j r. some (record { content = "x"; usage = no_usage });
}

abbrev pub registry : Registry
registry = new_registry (provider ∷ [])

abbrev pub proposal : Proposal
proposal = record {
  id = "1";
  summary = "s";
  approach = none;
  files = none;
  risks = none;
  tests = none;
  evidence = none;
}

abbrev pub peer_review : PeerReview
peer_review = record {
  reviewer_seat_id = "";
  proposal_alias = [];
  correctness = none;
  risks = none;
  missing = none;
  verdict = "ok";
}

abbrev pub command : Command
command = record {
  executable = "go";
  args = none;
  work_dir = "";
  timeout_seconds = pos 60;
  purpose = "test";
}

abbrev pub plan : ExecutionPlan
plan = record no_plan { version = pos 1; commands = some (command ∷ []) }

abbrev pub decision : CouncilDecision
decision = record {
  selected_aliases = none;
  reasons = none;
  rejected = none;
  plan_summary = none;
  plan = plan;
}

abbrev pub findings : RedTeamReport
findings = record { blocking = none; non_blocking = none; recommendation = "go" }

abbrev pub dialogue : Dialogue
dialogue = record {
  propose_prompt = λ b. b.requirement;
  review_prompt = λ a p. p.summary;
  judge_prompt = λ ps rs. "judge";
  repair_prompt = "repair";
  red_team_prompt = λ d. "attack";
  read_proposal = λ s. some proposal;
  read_review = λ s. some peer_review;
  read_decision = λ s. some decision;
  read_report = λ s. some findings;
}

abbrev pub brief : TaskBrief
brief = record {
  requirement = "do it";
  constraints = none;
  acceptance = none;
  workspace_facts = none;
  workspace_files = none;
}

abbrev pub proposed : ℕ → Seat → Generated Proposal
proposed i s = record { seat = aliased i s; value = proposal; usage = no_usage }

abbrev pub proposals : List (Generated Proposal)
proposals = proposed 0 alice ∷ proposed 1 bob ∷ []
