-- ===== src/RunState/Paths.antt =====
-- What the transition table of internal/core/runstate/state.go allows over whole runs.
use mathlib.Core.List.{Memᴰ}
use ai_council.Prelude.{◌≡◌, ◌≢◌, refl, ◌⊎◌, inl, inr, true, List, [], ◌∷◌, arith}
use ai_council.RunState.{
  State, draft, analyzing, proposing, reviewing, judging, red_team, awaiting_approval, executing,
  verifying, replanning, succeeded, failed, cancelled, can_transition,
}

-- The states that a run visits after `s`, each by a legal transition.
abbrev pub IsRun : State → List State → Type 0
IsRun s [] = Unit
IsRun s (t ∷ ts) = (can_transition s t ≡ true) × IsRun t ts

-- The state in which such a run ends.
abbrev pub end_state : State → List State → State
end_state s [] = s
end_state s (t ∷ ts) = end_state t ts

abbrev pub IsTerminal : State → Type 0
IsTerminal s = (s ≡ succeeded) ⊎ (s ≡ failed) ⊎ (s ≡ cancelled)

executing_pred : (s : State) → can_transition s executing ≡ true → s ≡ awaiting_approval
unfolding can_transition
executing_pred s h = ground arith

-- A run that starts elsewhere than in AWAITING_APPROVAL and that comes to EXECUTING by at least one
-- step passes through AWAITING_APPROVAL on the way: after a replanning too, a new approval is due.
pub executing_needs_approval :
    (s t : State) (path : List State)
    → s ≢ awaiting_approval
    → IsRun s (t ∷ path)
    → end_state s (t ∷ path) ≡ executing
    → Memᴰ awaiting_approval (t ∷ path)
executing_needs_approval s t [] away run ends =
    absurd (away (executing_pred s (ground (arith, run.0))))
executing_needs_approval s awaiting_approval (u ∷ path) away run ends = Memᴰ.head refl
executing_needs_approval s t (u ∷ path) away run ends =
    Memᴰ.tail (executing_needs_approval t u path (λ e. cc) run.1 ends)

-- The shortest way to SUCCEEDED.
abbrev pub route : State → List State
route draft =
    analyzing ∷ proposing ∷ reviewing ∷ judging ∷ red_team ∷ awaiting_approval ∷ executing
    ∷ verifying ∷ succeeded ∷ []
route analyzing =
    proposing ∷ reviewing ∷ judging ∷ red_team ∷ awaiting_approval ∷ executing ∷ verifying
    ∷ succeeded ∷ []
route proposing =
    reviewing ∷ judging ∷ red_team ∷ awaiting_approval ∷ executing ∷ verifying ∷ succeeded ∷ []
route reviewing = judging ∷ red_team ∷ awaiting_approval ∷ executing ∷ verifying ∷ succeeded ∷ []
route judging = red_team ∷ awaiting_approval ∷ executing ∷ verifying ∷ succeeded ∷ []
route red_team = awaiting_approval ∷ executing ∷ verifying ∷ succeeded ∷ []
route awaiting_approval = executing ∷ verifying ∷ succeeded ∷ []
route executing = verifying ∷ succeeded ∷ []
route verifying = succeeded ∷ []
route replanning =
    reviewing ∷ judging ∷ red_team ∷ awaiting_approval ∷ executing ∷ verifying ∷ succeeded ∷ []
route _ = []

-- A run is never stuck: a state that is not final can be cancelled at once, and some legal run goes
-- from it to SUCCEEDED.
pub live_reaches_succeeded :
    (s : State)
    → ¬ (IsTerminal s)
    → (can_transition s cancelled ≡ true) × IsRun s (route s) × (end_state s (route s) ≡ succeeded)
unfolding can_transition
live_reaches_succeeded succeeded h = absurd (h (inl refl))
live_reaches_succeeded failed h = absurd (h (inr (inl refl)))
live_reaches_succeeded cancelled h = absurd (h (inr (inr refl)))
live_reaches_succeeded _ h = ground arith
