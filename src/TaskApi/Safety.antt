-- ===== src/TaskApi/Safety.antt =====
-- What the handlers of internal/transport/council/routes.go keep true of a task, in whatever order
-- their sections run.
use mathlib.Core.List.{Memᴰ}
use ai_council.Prelude.{
  ◌≡◌, ◌≢◌, ◌⊎◌, refl, String, Bool, true, false, Option, none, some, List, ◌∷◌, Bool-cases, inl,
  inr, arith, All, sym, ◌∙◌,
}
use ai_council.Schema.{ExecutionPlan}
use ai_council.RunState.{State, state_eq, state_eq_iff}
use ai_council.Approval.{Digest, hash}
use ai_council.Council.Workflow.{Stage}
use ai_council.TaskApi.{
  transition_task, council_failures, Task, Request, ApprovalRequest, Server, Ctx,
}
use ai_council.TaskApi.Effects.{
  Core, core, Ends, bind-Ends, always-Ends, Ends-always, if-Ends, core-transition_task, move-Ends,
}
use ai_council.TaskApi.Start.{
  guard_draft, begin_analysis, report_stage, fail_deliberation, mark_failed, conclude,
  is_before_plan, store_hash, await_approval, with_plan,
}
use ai_council.TaskApi.Execute.{request_of}

-- A state other than the first ones and AWAITING_APPROVAL
abbrev pub is_late : State → Bool
is_late State.draft = false
is_late State.analyzing = false
is_late State.awaiting_approval = false
is_late _ = true

-- The version and the hash that an approval must name.
abbrev pub key : Core → ApprovalRequest
key k = record { plan_version = k.plan_version; approval_hash = k.approval_hash }

module _ (digest : Digest) (seen : List ApprovalRequest) where
  -- A request is that of a task whose hash is the hash of its plan, and was approved.
  pub record IsApproved (r : Request) : Type 0 where
    pub task : Task
    pub sends : r ≡ request_of task
    pub hashed : hash digest task.id task.workspace_id task.plan ≡ some task.approval_hash
    pub given :
        Memᴰ (record { plan_version = task.plan_version; approval_hash = task.approval_hash }) seen

  pub record IsSound (k : Core) : Type 0 where
    pub hashed :
        (k.state ≡ State.awaiting_approval) ⊎ (k.approved ≡ true)
        → hash digest k.id k.workspace_id k.plan ≡ some k.approval_hash
    pub given : k.approved ≡ true → Memᴰ (key k) seen
    pub before : (k.state ≡ State.draft) ⊎ (k.state ≡ State.analyzing) → k.approved ≡ false
    pub executing : k.state ≡ State.executing → k.approved ≡ true
    pub sent : All IsApproved k.sent

  pub state-IsSound :
      (s : State) (k : Core)
      → is_late s ≡ true
      → (s ≡ State.executing → k.approved ≡ true)
      → IsSound k
      → IsSound (record k { state = s })
  state-IsSound s k late approved i = record {
    hashed = λ h. elim h [ inl e ↦ ground arith | inr e ↦ i.hashed (inr e) ];
    given = i.given;
    before = λ h. ground arith;
    executing = approved;
    sent = i.sent;
  }

  -- A task that is not approved
  pub unapproved-IsSound :
      (k : Core)
      → k.approved ≡ false
      → k.state ≢ State.executing
      → (k.state ≡ State.awaiting_approval
          → hash digest k.id k.workspace_id k.plan ≡ some k.approval_hash)
      → All IsApproved k.sent
      → IsSound k
  unapproved-IsSound k e not_executing h s = record {
    hashed = λ p. elim p [ inl q ↦ h q | inr q ↦ ground arith ];
    given = λ p. ground arith;
    before = λ p. e;
    executing = λ p. elim (not_executing p) [ ];
    sent = s;
  }

module _ (server : Server) (seen : List ApprovalRequest) where
  abbrev Sound : Core → Type 0
  Sound = IsSound server.digest seen

  pub moved-IsSound :
      (s : State) (c : Ctx)
      → is_late s ≡ true
      → (s ≡ State.executing → c.task.approved ≡ true)
      → Sound (core c)
      → Sound (core (transition_task server s c).1)
  moved-IsSound s c late approved i =
      rw (core-transition_task server s c)
        (state-IsSound server.digest seen s (core c) late approved i)

  pub report-IsSound :
      (s : Stage) (c : Ctx) → Sound (core c) → Sound (core (report_stage server s c).1)
  unfolding report_stage transition_task
  report-IsSound Stage.analyzing c i = i
  report-IsSound Stage.proposing c i = moved-IsSound State.proposing c refl (λ e. ground arith) i
  report-IsSound Stage.reviewing c i = moved-IsSound State.reviewing c refl (λ e. ground arith) i
  report-IsSound Stage.judging c i = moved-IsSound State.judging c refl (λ e. ground arith) i
  report-IsSound Stage.redteam c i = moved-IsSound State.red_team c refl (λ e. ground arith) i

  mark_failed-Ends : (c : Ctx) → Sound (core c) → Ends (λ a. Sound) Sound (mark_failed server c)
  unfolding mark_failed
  mark_failed-Ends c i =
      if-Ends (λ a. Sound) Sound (state_eq c.task.state State.failed) _ _ c (λ e. i)
        (λ e.
          bind-Ends (λ a. Sound) (λ a. Sound) Sound (transition_task server State.failed c) _
            (always-Ends Sound (transition_task server State.failed c)
              (moved-IsSound State.failed c refl (λ e. ground arith) i))
            (λ a d j. j))

  pub fail-IsSound : (c : Ctx) → Sound (core c) → Sound (core (fail_deliberation server c).1)
  unfolding fail_deliberation
  fail-IsSound c i = Ends-always Sound (fail_deliberation server c) (
      bind-Ends (λ a. Sound) (λ a. Sound) Sound
        (mark_failed server (record c { counts = council_failures ∷ c.counts })) _
        (mark_failed-Ends (record c { counts = council_failures ∷ c.counts }) i) (λ a d j. j))

  guard_draft-Ends :
      (c : Ctx)
      → Sound (core c)
      → Ends (λ a k. Sound k × (k.state ≡ State.draft)) Sound (guard_draft server c)
  unfolding guard_draft
  guard_draft-Ends c i =
      if-Ends (λ a k. Sound k × (k.state ≡ State.draft)) Sound (state_eq c.task.state State.draft) _
        _ c (λ e. (i, (state_eq_iff c.task.state State.draft).0 e)) (λ e. i)

  analyzing-IsSound :
      (k : Core) → k.state ≡ State.draft → Sound k → Sound (record k { state = State.analyzing })
  analyzing-IsSound k e i = record {
    hashed = λ h. elim h [ inl e ↦ ground arith | inr e ↦ i.hashed (inr e) ];
    given = i.given;
    before = λ h. i.before (inl e);
    executing = λ e. ground arith;
    sent = i.sent;
  }

  pub begin-IsSound : (c : Ctx) → Sound (core c) → Sound (core (begin_analysis server c).1)
  unfolding begin_analysis guard_draft
  begin-IsSound c i = Ends-always Sound (begin_analysis server c) (
      bind-Ends (λ a k. Sound k × (k.state ≡ State.draft)) (λ a. Sound) Sound (guard_draft server c)
        _ (guard_draft-Ends c i)
        (λ a d (j, e). move-Ends server Sound _ State.analyzing d (analyzing-IsSound (core d) e j)))

  is_before_approved : (k : Core) → is_before_plan k.state ≡ true → Sound k → k.approved ≡ false
  is_before_approved k e i = elim (Bool-cases (state_eq k.state State.draft)) [
    | inl d ↦ i.before (inl ((state_eq_iff k.state State.draft).0 d))
    | inr d ↦ i.before (inr ((state_eq_iff k.state State.analyzing).0 (rw d at e)))
  ]

  -- The core of a task with the plan of the council
  planned :
      (plan : Option ExecutionPlan) (t : Task)
      → ((with_plan plan t).approved ≡ t.approved) × ((with_plan plan t).state ≡ t.state)
  unfolding with_plan
  planned none t = (refl, refl)
  planned (some plan) t = ground arith

  abbrev Hashed : Unit {0} → Core → Type 0
  Hashed a k =
      (k.approved ≡ false)
      × (hash server.digest k.id k.workspace_id k.plan ≡ some k.approval_hash)
      × All (IsApproved server.digest seen) k.sent

  store_hash-Ends :
      (c : Ctx) (h : Option String)
      → h ≡ hash server.digest c.task.id c.task.workspace_id c.task.plan
      → c.task.approved ≡ false
      → Sound (core c)
      → Ends Hashed Sound (store_hash server h c)
  unfolding store_hash
  store_hash-Ends c none e a i = i
  store_hash-Ends c (some h) e a i = (a, sym e, i.sent)

  await_approval-Ends :
      (t : Task) (c : Ctx)
      → t.approved ≡ false
      → t.state ≢ State.executing
      → t.state ≢ State.awaiting_approval
      → All (IsApproved server.digest seen) c.sent
      → Ends (λ a. Sound) Sound (await_approval server t c)
  unfolding await_approval
  await_approval-Ends t c e x y s =
      bind-Ends Hashed (λ a. Sound) Sound
        (store_hash server (hash server.digest t.id t.workspace_id t.plan) (record c { task = t }))
        _
        (store_hash-Ends (record c { task = t }) _ refl e
          (unapproved-IsSound server.digest seen (core (record c { task = t })) e x
            (λ p. elim (y p) [ ]) s))
        (λ a d (f, h, s').
          move-Ends server Sound "task_persistence_failed" State.awaiting_approval d (
            unapproved-IsSound server.digest seen
              (record (core d) { state = State.awaiting_approval }) f (λ p. ground arith) (λ p. h)
              s'))

  before_not :
      (s : State) → is_before_plan s ≡ true → (s ≢ State.executing) × (s ≢ State.awaiting_approval)
  unfolding state_eq
  before_not s h = ((λ e. cc), (λ e. cc))

  pub conclude-IsSound :
      (plan : Option ExecutionPlan) (c : Ctx)
      → Sound (core c)
      → Sound (core (conclude server plan c).1)
  unfolding conclude
  conclude-IsSound plan c i = Ends-always Sound (conclude server plan c) (
      if-Ends (λ a. Sound) Sound (is_before_plan c.task.state) _ _ c
        (λ e.
          let (p, q) = planned plan c.task in
          let (x, y) = before_not c.task.state e in
          await_approval-Ends (with_plan plan c.task) c (p ∙ is_before_approved (core c) e i)
            (λ h. x (sym q ∙ h)) (λ h. y (sym q ∙ h)) i.sent)
        (λ e. i))
