-- ===== src/RunState/Examples.antt =====
-- Runs of internal/core/runstate/state.go at concrete states.
use mathlib.Core.List.{Memᴰ}
use ai_council.Prelude.{arith, ◌≡◌, refl, inl, inr, true, List, [], ◌∷◌}
use ai_council.RunState.{
  State, verifying, replanning, reviewing, judging, red_team, awaiting_approval, executing,
  succeeded, cancelled, can_transition,
}
use ai_council.RunState.Paths.{
  IsRun, end_state, route, executing_needs_approval, live_reaches_succeeded,
}

abbrev replan : List State
replan = reviewing ∷ judging ∷ red_team ∷ awaiting_approval ∷ executing ∷ []

executing_needs_approval_example : Memᴰ awaiting_approval (replanning ∷ replan)
unfolding can_transition
executing_needs_approval_example =
    executing_needs_approval verifying replanning replan (λ e. cc) (ground arith) refl

live_reaches_succeeded_example :
    (can_transition verifying cancelled ≡ true)
    × IsRun verifying (route verifying)
    × (end_state verifying (route verifying) ≡ succeeded)
live_reaches_succeeded_example =
    live_reaches_succeeded verifying
      (λ h. elim h [ inl e ↦ cc e | inr k ↦ elim k [ inl e ↦ cc e | inr e ↦ cc e ] ])
