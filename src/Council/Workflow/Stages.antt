-- ===== src/Council/Workflow/Stages.antt =====
-- How a deliberation of internal/council/workflow.go goes through its stages.
use ai_council.Prelude.{ℕ, ◌≡◌, refl, Option, none, some, List, [], ◌∷◌, ◌++◌}
use ai_council.Schema.{
  TaskBrief, Proposal, PeerReview, ExecutionPlan, CouncilDecision, RedTeamReport,
}
use ai_council.Provider.{Registry}
use ai_council.Council.SafePath.{Platform}
use ai_council.Council.Plan.{Built, built, refused, build_execution_plan}
use ai_council.Council.Engine.{
  Generated, Outcome, ok, err, progress_failed, Dialogue, propose, judge, red_team,
}
use ai_council.Council.Workflow.{
  Stage, analyzing, proposing, reviewing, judging, redteam, Workflow, ReviewSchedule, Reporting,
  continue, lift, report, plan_of, registered, ◌>>=◌, ◌>>◌, analyze, deliberate_progress,
}

-- A step of a computation that succeeds has succeeded itself.
lift_ok :
    {A B : Type 0} (o : Outcome A) (f : A → Reporting B) (stages : List Stage) {b : B}
    → ((lift o >>= f) stages).0 ≡ ok b
    → (a : A) × (o ≡ ok a) × ((f a stages).0 ≡ ok b)
lift_ok (ok a) f stages h = (a, refl, h)
lift_ok (err e) f stages h = cc

plan_of_ok : (b : Built) {plan : ExecutionPlan} → plan_of b ≡ ok plan → b ≡ built plan
plan_of_ok (built plan) h = cc
plan_of_ok (refused e) h = cc

report_ok :
    {B : Type 0} (progress : Option (Stage → Option ℕ)) (stage : Stage) (n : Reporting B)
    (stages : List Stage) {b : B}
    → ((report progress stage >> n) stages).0 ≡ ok b
    → (later : List Stage) × ((n later).0 ≡ ok b)
unfolding report
report_ok none stage n stages h = (stages, h)
report_ok (some progress) stage n stages {b} h = accepted (progress stage) h
  where
    accepted :
        (answer : Option ℕ)
        → (continue {A = Unit {0}}
            (elim answer as (λ x. Outcome (Unit {0}) × List Stage) [
              | none ↦ (ok tt, stages ++ stage ∷ [])
              | some e ↦ (err (progress_failed e), stages ++ stage ∷ [])
            ]).0
            (λ _. n)
            (elim answer as (λ x. Outcome (Unit {0}) × List Stage) [
              | none ↦ (ok tt, stages ++ stage ∷ [])
              | some e ↦ (err (progress_failed e), stages ++ stage ∷ [])
            ]).1).0
          ≡ ok b
        → (later : List Stage) × ((n later).0 ≡ ok b)
    accepted none h = (stages ++ stage ∷ [], h)
    accepted (some e) h = cc

module _ (dialogue : Dialogue) (platform : Platform) (review : ReviewSchedule dialogue)
    (w : Workflow) (brief : TaskBrief) where
  -- What a deliberation with a plan rests on.
  pub record IsDeliberated (plan : ExecutionPlan) : Type 0 where
    pub registry : Option Registry
    pub proposals : List (Generated Proposal)
    pub reviews : List (Generated PeerReview)
    pub decision : Generated CouncilDecision
    pub findings : Generated RedTeamReport
    pub analyzed : analyze w brief.requirement ≡ ok registry
    pub proposed : propose dialogue platform registry brief w.proposers ≡ ok proposals
    pub reviewed : review.outcome (registered registry) proposals w.reviewers ≡ ok reviews
    pub judged : judge dialogue (registered registry) proposals reviews w.judge_seat ≡ ok decision
    pub attacked :
        red_team dialogue (registered registry) decision.value w.red_team_seat ≡ ok findings
    pub planned : build_execution_plan platform decision.value findings.value [] ≡ built plan

  -- A deliberation gives a plan only by way of all stages: the analysis accepts the brief, every
  -- stage answers, and the plan is built from the decision and the red team's findings.
  pub deliberate_progress_ok :
      (progress : Option (Stage → Option ℕ)) (plan : ExecutionPlan)
      → (deliberate_progress dialogue platform review w brief progress []).0 ≡ ok plan
      → IsDeliberated plan
  unfolding deliberate_progress
  deliberate_progress_ok progress plan h =
      let (registry, analyzed, h₁) = lift_ok (analyze w brief.requirement) _ [] h in
      let (s₁, h₂) = report_ok progress analyzing _ [] h₁ in
      let (proposals, proposed, h₃) =
        lift_ok (propose dialogue platform registry brief w.proposers) _ s₁ h₂ in
      let (s₂, h₄) = report_ok progress proposing _ s₁ h₃ in
      let (reviews, reviewed, h₅) =
        lift_ok (review.outcome (registered registry) proposals w.reviewers) _ s₂ h₄ in
      let (s₃, h₆) = report_ok progress reviewing _ s₂ h₅ in
      let (decision, judged, h₇) =
        lift_ok (judge dialogue (registered registry) proposals reviews w.judge_seat) _ s₃ h₆ in
      let (s₄, h₈) = report_ok progress judging _ s₃ h₇ in
      let (findings, attacked, h₉) =
        lift_ok (red_team dialogue (registered registry) decision.value w.red_team_seat) _ s₄ h₈ in
      let (s₅, final) = report_ok progress redteam _ s₄ h₉ in
      record {
        registry = registry;
        proposals = proposals;
        reviews = reviews;
        decision = decision;
        findings = findings;
        analyzed = analyzed;
        proposed = proposed;
        reviewed = reviewed;
        judged = judged;
        attacked = attacked;
        planned = plan_of_ok (build_execution_plan platform decision.value findings.value []) final;
      }
