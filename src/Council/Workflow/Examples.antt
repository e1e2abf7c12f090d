-- ===== src/Council/Workflow/Examples.antt =====
-- A deliberation of internal/council/workflow.go from the brief to the plan.
use ai_council.Prelude.{some, [], ◌∷◌}
use ai_council.Council.Fixtures.{seat, alice, bob, dialogue, registry}
use ai_council.Council.Workflow.{Workflow, ReviewSchedule}
use ai_council.Council.Review.InOrder.{in_order, in_order-Reviews}

abbrev workflow : Workflow
workflow = record {
  engine = some (some registry);
  proposers = alice ∷ bob ∷ [];
  reviewers = alice ∷ bob ∷ [];
  judge_seat = seat "judge";
  red_team_seat = seat "red";
}

-- The reviewers one after the other
abbrev calm : ReviewSchedule dialogue
calm = record { outcome = in_order dialogue; possible = in_order-Reviews dialogue }
