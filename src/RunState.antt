-- ===== src/RunState.antt =====
-- internal/core/runstate/state.go: the states of a run and its legal transitions.
pub mod Paths
mod Examples
use ai_council.Prelude.{
  Bool, true, false, Option, none, some, List, [], ◌∷◌, any, ◌≡◌, ◌↔◌, refl, arith,
}

pub data State : Type 0 where
  draft analyzing proposing reviewing judging red_team awaiting_approval executing verifying
        replanning succeeded failed cancelled :
      State

pub State-discrete : Discrete State
State-discrete = hlevel

-- `a == b` on states.
unfoldable pub state_eq : State → State → Bool
unfolding State-discrete
state_eq a b = elim (State-discrete a b) [ yes _ ↦ true | no _ ↦ false ]

-- The map `legalTransitions`: the set of states that each key leads to.
unfoldable pub legal_transitions : State → Option (List State)
legal_transitions draft = some (analyzing ∷ cancelled ∷ [])
legal_transitions analyzing = some (proposing ∷ failed ∷ cancelled ∷ [])
legal_transitions proposing = some (reviewing ∷ failed ∷ cancelled ∷ [])
legal_transitions reviewing = some (judging ∷ failed ∷ cancelled ∷ [])
legal_transitions judging = some (red_team ∷ failed ∷ cancelled ∷ [])
legal_transitions red_team = some (judging ∷ awaiting_approval ∷ failed ∷ cancelled ∷ [])
legal_transitions awaiting_approval = some (executing ∷ cancelled ∷ [])
legal_transitions executing = some (verifying ∷ failed ∷ cancelled ∷ [])
legal_transitions verifying = some (succeeded ∷ replanning ∷ failed ∷ cancelled ∷ [])
legal_transitions replanning = some (reviewing ∷ failed ∷ cancelled ∷ [])
legal_transitions _ = none

unfoldable pub can_transition : State → State → Bool
unfolding legal_transitions state_eq
can_transition from to = elim (legal_transitions from) [
  | none ↦ false
  | some next_states ↦ any (state_eq to) next_states
]

pub state_eq_iff : (a b : State) → (state_eq a b ≡ true) ↔ (a ≡ b)
unfolding state_eq
state_eq_iff a b =
    elim (State-discrete a b) as (λ d. (elim d [ yes _ ↦ true | no _ ↦ false ] ≡ true) ↔ (a ≡ b)) [
      | yes e ↦ (λ h. e, λ h. refl)
      | no n ↦ (λ h. ground arith, λ h. elim (n h) [ ])
    ]
