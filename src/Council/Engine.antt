-- ===== src/Council/Engine.antt =====
-- The stages of `Engine` in internal/council/engine.go but for the reviews.
pub mod Proposals
mod Examples
use ai_council.Prelude.{
  ℕ, ℤ, pos, zero, suc, String, Bool, true, false, Option, none, some, List, [], ◌∷◌, any, str_eq,
  items, if◌then◌else◌,
}
use ai_council.Schema.{TaskBrief, Proposal, PeerReview, CouncilDecision, RedTeamReport}
use ai_council.Provider.{Message, Usage, Request, Response, ModelProvider, Registry}
use ai_council.Council.Alias.{proposal_alias}
use ai_council.Council.SafePath.{Platform}
use ai_council.Council.Plan.{PlanError}
use ai_council.Council.Workspace.{WorkspaceError, validate_workspace_files}

pub record Seat : Type 0 where
  pub id : String
  pub provider : String
  pub model : String
  pub role : String
  pub proposal_alias : List ℕ  -- code points

pub record Generated (T : Type 0) : Type 0 where
  pub seat : Seat
  pub value : T
  pub usage : Usage

pub data CouncilError : Type 0 where
  registry_required no_proposers nothing_to_review judge_is_proposer : CouncilError
  provider_failed invalid_artifact : CouncilError
  engine_required requirement_required seats_incomplete : CouncilError
  provider_not_found : String → CouncilError
  invalid_workspace : WorkspaceError → CouncilError
  invalid_plan : PlanError → CouncilError
  progress_failed : ℕ → CouncilError

pub data Outcome (A : Type 0) : Type 0 where
  ok : A → Outcome A
  err : CouncilError → Outcome A

infixl 10 ◌>>=◌
abbrev pub ◌>>=◌ : {A B : Type 0} → Outcome A → (A → Outcome B) → Outcome B
ok a >>= f = f a
err e >>= f = err e

-- The texts of the prompts (`fmt.Sprintf` and `json.Marshal`), and `json.Unmarshal` of the answers,
-- with `none` for its error.
pub record Dialogue : Type 0 where
  pub propose_prompt : TaskBrief → String
  pub review_prompt : List ℕ → Proposal → String
  pub judge_prompt : List (Generated Proposal) → List (Generated PeerReview) → String
  pub repair_prompt : String
  pub red_team_prompt : CouncilDecision → String
  pub read_proposal : String → Option Proposal
  pub read_review : String → Option PeerReview
  pub read_decision : String → Option CouncilDecision
  pub read_report : String → Option RedTeamReport

abbrev pub ask : String → String → Request
ask model content = record {
  model = model;
  messages = record { role = "user"; content = content } ∷ [];
}

abbrev pub or_err : {A : Type 0} → CouncilError → Option A → Outcome A
or_err e none = err e
or_err e (some a) = ok a

-- The seat under its alias
abbrev pub aliased : ℕ → Seat → Seat
aliased i seat = record seat { proposal_alias = proposal_alias (pos i) }

-- The first error in the order of the seats, or all values.
unfoldable pub collect : {A : Type 0} → List (Outcome A) → Outcome (List A)
collect [] = ok []
collect (o ∷ os) = do a ← o; rest ← collect os; ok (a ∷ rest)

module _ (dialogue : Dialogue) (registry : Registry) where
  -- What the goroutine of seat number `i` leaves in `results[i]` and `errs[i]`.
  unfoldable pub propose_seat : TaskBrief → ℕ → Seat → Outcome (Generated Proposal)
  propose_seat brief i seat = do
    p ← or_err (provider_not_found seat.provider) (registry seat.provider)
    resp ← or_err provider_failed (p.generate i 0 (ask seat.model (dialogue.propose_prompt brief)))
    proposal ← or_err invalid_artifact (dialogue.read_proposal resp.content)
    ok (record { seat = aliased i seat; value = proposal; usage = resp.usage })

  unfoldable pub propose_seats : TaskBrief → ℕ → List Seat → List (Outcome (Generated Proposal))
  propose_seats brief i [] = []
  propose_seats brief i (seat ∷ seats) =
      propose_seat brief i seat ∷ propose_seats brief (suc i) seats

  judge_decision : ModelProvider → Seat → Response → Outcome (Generated CouncilDecision)
  judge_decision p judge resp = elim (dialogue.read_decision resp.content) [
    | some decision ↦ ok (record { seat = judge; value = decision; usage = resp.usage })
    | none ↦ do
      again ← or_err invalid_artifact (p.generate 0 1 (ask judge.model dialogue.repair_prompt))
      decision ← or_err invalid_artifact (dialogue.read_decision again.content)
      ok (record { seat = judge; value = decision; usage = again.usage })
  ]

  unfoldable pub judge :
      List (Generated Proposal)
      → List (Generated PeerReview)
      → Seat
      → Outcome (Generated CouncilDecision)
  unfolding judge_decision
  judge proposals reviews seat =
      if any (λ p. str_eq p.seat.id seat.id) proposals then err judge_is_proposer else (do
        p ← or_err (provider_not_found seat.provider) (registry seat.provider)
        resp ←
            or_err provider_failed
              (p.generate 0 0 (ask seat.model (dialogue.judge_prompt proposals reviews)))
        judge_decision p seat resp)

  unfoldable pub red_team : CouncilDecision → Seat → Outcome (Generated RedTeamReport)
  red_team decision seat = do
    p ← or_err (provider_not_found seat.provider) (registry seat.provider)
    resp ←
        or_err provider_failed (p.generate 0 0 (ask seat.model (dialogue.red_team_prompt decision)))
    report ← or_err invalid_artifact (dialogue.read_report resp.content)
    ok (record { seat = seat; value = report; usage = resp.usage })

abbrev workspace_checked : Option WorkspaceError → Outcome (Unit {0})
workspace_checked none = ok tt
workspace_checked (some e) = err (invalid_workspace e)

abbrev pub no_seats : List Seat → Bool
no_seats [] = true
no_seats (s ∷ ss) = false

module _ (dialogue : Dialogue) (platform : Platform) where
  propose_with : Registry → TaskBrief → List Seat → Outcome (List (Generated Proposal))
  unfolding propose_seats propose_seat collect
  propose_with registry brief seats = if no_seats seats then err no_proposers else (do
    checked ← workspace_checked (validate_workspace_files platform (items brief.workspace_files))
    collect (propose_seats dialogue registry brief 0 seats))

  -- `Propose`; the registry is `none` where it is `nil`.
  unfoldable pub propose :
      Option Registry → TaskBrief → List Seat → Outcome (List (Generated Proposal))
  unfolding propose_with
  propose none brief seats = err registry_required
  propose (some registry) brief seats = propose_with registry brief seats
