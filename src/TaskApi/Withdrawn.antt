-- ===== src/TaskApi/Withdrawn.antt =====
-- A task that was rejected or cancelled, internal/transport/council/routes.go.
use ai_council.Prelude.{
  ◌⊎◌, ◌≡◌, refl, Bool, true, false, Option, none, some, List, [], ◌∷◌, arith, ◌∙◌, is_empty, sym,
  ap, Bool-cases, inl, inr,
}
use mathlib.Core.Bool.{true≢false}
use ai_council.Schema.{ExecutionPlan}
use ai_council.RunState.{State, state_eq, state_eq_iff}
use ai_council.Council.Workflow.{Stage}
use ai_council.TaskApi.{Request, ApprovalRequest, Server, Ctx, council_failures, transition_task}
use ai_council.TaskApi.Start.{
  guard_draft, begin_analysis, report_stage, mark_failed, fail_deliberation, conclude,
}
use ai_council.TaskApi.Execute.{Runner, execute_task, may_execute}
use ai_council.TaskApi.Decide.{approve_task, reject_task, cancel_task}
use ai_council.TaskApi.Effects.{
  Core, core, Ends, bind-Ends, always-Ends, Ends-always, if-Ends, core-transition_task,
}
use ai_council.TaskApi.Withdrawal.{core-withdraw}
use ai_council.TaskApi.Interleavings.{Section, perform, perform_all}

-- The states that a withdrawn task can be in: a deliberation that is under way may still report its
-- stage.
abbrev is_withdrawn : State → Bool
is_withdrawn State.proposing = true
is_withdrawn State.reviewing = true
is_withdrawn State.judging = true
is_withdrawn State.red_team = true
is_withdrawn State.failed = true
is_withdrawn State.cancelled = true
is_withdrawn _ = false

differs : (s t : State) → is_withdrawn s ≡ true → is_withdrawn t ≡ false → state_eq s t ≡ false
differs s t h k = elim (Bool-cases (state_eq s t)) [
  | inl e ↦ elim (true≢false (sym h ∙ ap is_withdrawn ((state_eq_iff s t).0 e) ∙ k)) [ ]
  | inr e ↦ e
]

module _ (server : Server) (before : List Request) where
  abbrev IsDead : Core → Type 0
  IsDead k = (is_withdrawn k.state ≡ true) × (k.approved ≡ false) × (k.sent ≡ before)

  moved-IsDead :
      (s : State) (c : Ctx)
      → is_withdrawn s ≡ true
      → IsDead (core c)
      → IsDead (core (transition_task server s c).1)
  moved-IsDead s c w (d, a, e) = rw (core-transition_task server s c) (w, a, e)

  withdraw-IsDead :
      (c : Ctx) (k : Core)
      → IsDead (core c)
      → k ≡ record (core c) { state = State.cancelled; approved = false }
      → IsDead k
  withdraw-IsDead c k (d, a, e) h = rw h (refl, refl, e)

  begin-IsDead : (c : Ctx) → IsDead (core c) → IsDead (core (begin_analysis server c).1)
  unfolding begin_analysis guard_draft
  begin-IsDead c (d, a, e) = Ends-always IsDead (begin_analysis server c) (
      bind-Ends (λ a k. ⊥) (λ a. IsDead) IsDead (guard_draft server c) _
        (if-Ends (λ a k. ⊥) IsDead (state_eq c.task.state State.draft) _ _ c
          (λ x. not_draft ((state_eq_iff c.task.state State.draft).0 x)) (λ x. (d, a, e)))
        (λ a d x. elim x [ ]))
    where
      not_draft : c.task.state ≡ State.draft → ⊥
      not_draft x = ground arith

  report-IsDead :
      (s : Stage) (c : Ctx) → IsDead (core c) → IsDead (core (report_stage server s c).1)
  unfolding report_stage transition_task
  report-IsDead Stage.analyzing c h = h
  report-IsDead Stage.proposing c h = moved-IsDead State.proposing c refl h
  report-IsDead Stage.reviewing c h = moved-IsDead State.reviewing c refl h
  report-IsDead Stage.judging c h = moved-IsDead State.judging c refl h
  report-IsDead Stage.redteam c h = moved-IsDead State.red_team c refl h

  mark_failed-Ends : (c : Ctx) → IsDead (core c) → Ends (λ a. IsDead) IsDead (mark_failed server c)
  unfolding mark_failed
  mark_failed-Ends c h =
      if-Ends (λ a. IsDead) IsDead (state_eq c.task.state State.failed) _ _ c (λ e. h)
        (λ e.
          bind-Ends (λ a. IsDead) (λ a. IsDead) IsDead (transition_task server State.failed c) _
            (always-Ends IsDead (transition_task server State.failed c)
              (moved-IsDead State.failed c refl h))
            (λ a d j. j))

  fail-IsDead : (c : Ctx) → IsDead (core c) → IsDead (core (fail_deliberation server c).1)
  unfolding fail_deliberation
  fail-IsDead c h =
      let d = record c { counts = council_failures ∷ c.counts } in
      Ends-always IsDead (fail_deliberation server c) (
        bind-Ends (λ a. IsDead) (λ a. IsDead) IsDead (mark_failed server d) _ (mark_failed-Ends d h)
          (λ a d j. j))

  conclude-IsDead :
      (plan : Option ExecutionPlan) (c : Ctx)
      → IsDead (core c)
      → IsDead (core (conclude server plan c).1)
  unfolding conclude
  conclude-IsDead plan c (d, a, e) =
      rw (differs c.task.state State.draft d refl, differs c.task.state State.analyzing d refl)
        (d, a, e)

  approve-IsDead :
      (r : Option ApprovalRequest) (c : Ctx)
      → IsDead (core c)
      → IsDead (core (approve_task server r c).1)
  unfolding approve_task
  approve-IsDead none c h = h
  approve-IsDead (some r) c (d, a, e) = Ends-always IsDead (approve_task server (some r) c) (
      if-Ends (λ a. IsDead) IsDead (is_empty r.approval_hash) _ _ c (λ x. (d, a, e))
        (λ x. rw (differs c.task.state State.awaiting_approval d refl) (d, a, e)))

  execute-IsDead :
      (runner : Option Runner) (c : Ctx)
      → IsDead (core c)
      → IsDead (core (execute_task server runner c).1)
  unfolding execute_task may_execute
  execute-IsDead none c (d, a, e) =
      rw
        (
          differs c.task.state State.awaiting_approval d refl,
          differs c.task.state State.executing d refl,
          a,
        )
        (d, refl, e)
  execute-IsDead (some runner) c (d, a, e) =
      rw
        (
          differs c.task.state State.awaiting_approval d refl,
          differs c.task.state State.executing d refl,
          a,
        )
        (d, refl, e)

  sections-IsDead :
      (ss : List Section) (c : Ctx) → IsDead (core c) → IsDead (core (perform_all server ss c))
  unfolding perform_all perform reject_task cancel_task
  sections-IsDead [] c h = h
  sections-IsDead (Section.beginning ∷ ss) c h = sections-IsDead ss _ (begin-IsDead c h)
  sections-IsDead (Section.failing ∷ ss) c h = sections-IsDead ss _ (fail-IsDead c h)
  sections-IsDead (Section.rejecting ∷ ss) c h =
      sections-IsDead ss _ (withdraw-IsDead c _ h (core-withdraw server "approval.rejected" c))
  sections-IsDead (Section.cancelling ∷ ss) c h =
      sections-IsDead ss _ (withdraw-IsDead c _ h (core-withdraw server "state.changed" c))
  sections-IsDead (Section.reporting stage ∷ ss) c h =
      sections-IsDead ss _ (report-IsDead stage c h)
  sections-IsDead (Section.concluding plan ∷ ss) c h =
      sections-IsDead ss _ (conclude-IsDead plan c h)
  sections-IsDead (Section.approving r ∷ ss) c h = sections-IsDead ss _ (approve-IsDead r c h)
  sections-IsDead (Section.executing runner ∷ ss) c h =
      sections-IsDead ss _ (execute-IsDead runner c h)
  sections-IsDead (Section.meanwhile w ∷ ss) c h = sections-IsDead ss (record c { world = w }) h

module _ (server : Server) where
  -- Once a task has been rejected or cancelled, in whatever state it was, no order of handlers, not
  -- even a deliberation that is still under way, sends a request for it to the runner.
  pub withdrawn_sends_nothing :
      (s : Section) (ss : List Section) (c : Ctx)
      → (s ≡ Section.rejecting) ⊎ (s ≡ Section.cancelling)
      → (perform_all server (s ∷ ss) c).sent ≡ c.sent
  unfolding perform_all perform reject_task cancel_task
  withdrawn_sends_nothing s ss c (inl e) =
      rw e
        (sections-IsDead server c.sent ss (reject_task server c).1
          (rw (core-withdraw server "approval.rejected" c) (refl, refl, refl))).2
  withdrawn_sends_nothing s ss c (inr e) =
      rw e
        (sections-IsDead server c.sent ss (cancel_task server c).1
          (rw (core-withdraw server "state.changed" c) (refl, refl, refl))).2
