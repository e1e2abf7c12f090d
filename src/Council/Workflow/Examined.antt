-- ===== src/Council/Workflow/Examined.antt =====
-- What stands behind a plan of internal/council/workflow.go: proposals, blind and complete reviews, a
-- judge from outside, and a report that blocks nothing.
use ai_council.Prelude.{ℕ, ◌≡◌, ◌≢◌, false, some, List, [], map, any, copied, str_eq, All}
use ai_council.Schema.{Proposal, PeerReview, ExecutionPlan, CouncilDecision, RedTeamReport}
use ai_council.Provider.{Registry}
use ai_council.Council.SafePath.{Platform}
use ai_council.Council.Plan.Checks.{IsExecutable}
use ai_council.Council.Engine.{Seat, Generated, ok, Dialogue, judge, red_team}
use ai_council.Council.Engine.Proposals.{aliased_from}
use ai_council.Council.Review.{get_elem?}
use ai_council.Council.Review.Coverage.{IsBlind}
use ai_council.Council.Review.Complete.{Covers}
use ai_council.Council.Workflow.{Workflow}

-- What a plan has gone through
pub record IsExamined (dialogue : Dialogue) (platform : Platform) (w : Workflow)
    (plan : ExecutionPlan) : Type 0 where
  pub registry : Registry
  pub proposals : List (Generated Proposal)
  pub reviews : List (Generated PeerReview)
  pub decision : Generated CouncilDecision
  pub report : Generated RedTeamReport
  pub proposed : map (λ g. g.seat) proposals ≡ aliased_from 0 w.proposers
  pub blind : All (IsBlind dialogue registry proposals) reviews
  pub complete :
      (i : ℕ) (r : Seat) (place : ℕ) (target : Generated Proposal)
      → get_elem? w.reviewers i ≡ some r
      → get_elem? proposals place ≡ some target
      → target.seat.id ≢ r.id
      → Covers dialogue registry proposals r place reviews
  pub outsider : any (λ p. str_eq p.seat.id w.judge_seat.id) proposals ≡ false
  pub judged : judge dialogue registry proposals reviews w.judge_seat ≡ ok decision
  pub attacked : red_team dialogue registry decision.value w.red_team_seat ≡ ok report
  pub executable : IsExecutable platform decision.value report.value
  pub result : record decision.value.plan { acceptance = copied [] } ≡ plan
