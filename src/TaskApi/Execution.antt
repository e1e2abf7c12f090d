-- ===== src/TaskApi/Execution.antt =====
-- `executeTask` of internal/transport/council/routes.go sends approved plans only.
use ai_council.Prelude.{
  ◌≡◌, refl, Bool, true, false, Option, none, some, List, ◌∷◌, Bool-cases, inl, inr, arith, not,
  ◌&&◌,
}
use ai_council.RunState.{State, state_eq, state_eq_iff}
use ai_council.Storage.Sql.{Result, ok, err}
use ai_council.Storage.Approvals.{consume_and_mark_executing}
use ai_council.TaskApi.{
  Response, EventData, ApprovalRequest, Server, Ctx, Answer, go, refused, executions,
  execution_failures, append_event, persist_task, or_refuse,
}
use ai_council.TaskApi.Effects.{
  Core, core, Ends, bind-Ends, always-Ends, Ends-always, if-Ends, or_refuse-Ends, core-append_event,
  core-persist_task,
}
use ai_council.TaskApi.Execute.{
  Runner, request_of, execute_task, may_execute, use_approval, change_state, start_executing, send,
  enter, finish, answered, run_plan, is_success,
}
use ai_council.TaskApi.Safety.{is_late, IsSound, state-IsSound}

module _ (server : Server) (seen : List ApprovalRequest) where
  abbrev Sound : Core → Type 0
  Sound = IsSound server.digest seen

  -- While a plan is executed
  abbrev Ready : Core → Type 0
  Ready k = Sound k × (k.approved ≡ true)

  approved :
      (c : Ctx)
      → Sound (core c)
      → (not c.task.approved && not (state_eq c.task.state State.executing)) ≡ false
      → c.task.approved ≡ true
  approved c i e = elim (Bool-cases (state_eq c.task.state State.executing)) [
    | inl x ↦ i.executing ((state_eq_iff c.task.state State.executing).0 x)
    | inr x ↦ ground arith
  ]

  may_execute-Ends : (c : Ctx) → Sound (core c) → Ends (λ a. Ready) Sound (may_execute server c)
  unfolding may_execute
  may_execute-Ends c i =
      if-Ends (λ a. Ready) Sound
        (not (state_eq c.task.state State.awaiting_approval)
          && not (state_eq c.task.state State.executing))
        _ _ c (λ e. if-Ends (λ a. Ready) Sound (not c.task.approved) _ _ c (λ x. i) (λ x. i))
        (λ e.
          if-Ends (λ a. Ready) Sound
            (not c.task.approved && not (state_eq c.task.state State.executing)) _ _ c (λ x. i)
            (λ x. (i, approved c i x)))

  used-Ends :
      (r : Result Bool) (c : Ctx)
      → Ready (core c)
      → Ends (λ a. Ready) Sound (or_refuse "approval_persistence_failed" r c)
  used-Ends (ok a) c i = i
  used-Ends (err e) c i = i.0

  use_approval-Ends : (c : Ctx) → Ready (core c) → Ends (λ a. Ready) Sound (use_approval server c)
  unfolding use_approval
  use_approval-Ends c i =
      if-Ends (λ a. Ready) Sound server.db _ _ c
        (λ e.
          let called =
            consume_and_mark_executing server.host c.task.id c.task.plan_version
              c.task.approval_hash c.world in
          let d = record c { world = called.1 } in
          bind-Ends (λ a. Ready) (λ a. Ready) Sound
            (or_refuse "approval_persistence_failed" called.0 d) _ (used-Ends called.0 d i)
            (λ consumed d j. if-Ends (λ a. Ready) Sound consumed _ _ d (λ x. j) (λ x. j.0)))
        (λ e. i)

  change_state-Ends :
      (s : State) (c : Ctx) → Ready (core c) → Ends (λ a. Ready) Ready (change_state server s c)
  unfolding change_state
  change_state-Ends s c i =
      bind-Ends (λ a. Ready) (λ a. Ready) Ready
        (append_event server "state.changed" (EventData.the_state s) c)
        (or_refuse "event_persistence_failed")
        (always-Ends Ready (append_event server "state.changed" (EventData.the_state s) c)
          (rw (core-append_event server "state.changed" (EventData.the_state s) c) i))
        (λ a d j. or_refuse-Ends Ready "event_persistence_failed" a d j)

  enter-Ends :
      (s : State) (c : Ctx)
      → is_late s ≡ true
      → Ready (core c)
      → Ends (λ a. Ready) Ready (enter server s c)
  unfolding enter
  enter-Ends s c late (i, a) =
      let d = record c { task = record c.task { state = s } } in
      let j : Ready (core d) = (state-IsSound server.digest seen s (core c) late (λ e. a) i, a) in
      bind-Ends (λ a. Ready) (λ a. Ready) Ready (persist_task server d) _
        (always-Ends Ready (persist_task server d) (rw (core-persist_task server d) j))
        (λ saved e k.
          bind-Ends (λ a. Ready) (λ a. Ready) Ready (or_refuse "task_persistence_failed" saved e) _
            (or_refuse-Ends Ready "task_persistence_failed" saved e k)
            (λ a f l. change_state-Ends s f l))

  Ready-Ends :
      {A : Type 0} (r : Answer A × Ctx) → Ends (λ a. Ready) Ready r → Ends (λ a. Ready) Sound r
  Ready-Ends (go a, c) p = p
  Ready-Ends (refused status code, c) p = p.0

  Sound-Ends :
      {A : Type 0} (r : Answer A × Ctx) → Ends (λ a. Ready) Ready r → Ends (λ a. Sound) Sound r
  Sound-Ends (go a, c) p = p.0
  Sound-Ends (refused status code, c) p = p.0

  -- What is sent is approved.
  sent-IsSound :
      (c : Ctx) → Ready (core c) → Sound (record (core c) { sent = request_of c.task ∷ c.sent })
  sent-IsSound c (i, a) = record {
    hashed = i.hashed;
    given = i.given;
    before = i.before;
    executing = i.executing;
    sent = (
      record { task = c.task; sends = refl; hashed = i.hashed (inr a); given = i.given a },
      i.sent,
    );
  }

  start_executing-Ends :
      (resuming : Bool) (c : Ctx)
      → Ready (core c)
      → Ends (λ a. Ready) Sound (start_executing server resuming c)
  unfolding start_executing
  start_executing-Ends true c i = i
  start_executing-Ends false c i =
      bind-Ends (λ a. Ready) (λ a. Ready) Sound (use_approval server c) _ (use_approval-Ends c i)
        (λ a d (j, x). Ready-Ends (change_state server State.executing _) (
          change_state-Ends State.executing
            (record d { task = record d.task { state = State.executing } })
            (state-IsSound server.digest seen State.executing (core d) refl (λ e. x) j, x)))

  finish-Ends :
      (resp : Option Response) (c : Ctx)
      → Ready (core c)
      → Ends (λ a. Ready) Ready (finish server resp c)
  unfolding finish
  finish-Ends resp c i =
      if-Ends (λ a. Ready) Ready (not (is_success resp)) _ _ c
        (λ e.
          bind-Ends (λ a. Ready) (λ a. Ready) Ready
            (enter server State.failed (record c { counts = execution_failures ∷ c.counts })) _
            (enter-Ends State.failed (record c { counts = execution_failures ∷ c.counts }) refl i)
            (λ a d j. j))
        (λ e.
          let d = record c { task = record c.task { verification = resp } } in
          bind-Ends (λ a. Ready) (λ a. Ready) Ready (enter server State.verifying d) _
            (enter-Ends State.verifying d refl i) (λ a f j. enter-Ends State.succeeded f refl j))

  answered-Ends :
      (resp : Option (Option Response)) (c : Ctx)
      → Ready (core c)
      → Ends (λ a. Ready) Ready (answered server resp c)
  unfolding answered
  answered-Ends none c i = i
  answered-Ends (some resp) c i = finish-Ends resp c i

  run_plan-Ends :
      (runner : Runner) (c : Ctx)
      → Ready (core c)
      → Ends (λ a. Ready) Ready (run_plan server runner c)
  unfolding run_plan send
  run_plan-Ends runner c (i, a) =
      answered-Ends (runner (request_of c.task))
        (record c { sent = request_of c.task ∷ c.sent; counts = executions ∷ c.counts })
        (sent-IsSound c (i, a), a)

  pub execute-IsSound :
      (runner : Option Runner) (c : Ctx)
      → Sound (core c)
      → Sound (core (execute_task server runner c).1)
  unfolding execute_task
  execute-IsSound none c i = Ends-always Sound (execute_task server none c) (
      bind-Ends (λ a. Ready) (λ a. Sound) Sound (may_execute server c) _ (may_execute-Ends c i)
        (λ a d (j, x). j))
  execute-IsSound (some runner) c i = Ends-always Sound (execute_task server (some runner) c) (
      bind-Ends (λ a. Ready) (λ a. Sound) Sound (may_execute server c) _ (may_execute-Ends c i)
        (λ resuming d j.
          bind-Ends (λ a. Ready) (λ a. Sound) Sound (start_executing server resuming d) _
            (start_executing-Ends resuming d j)
            (λ a e k. Sound-Ends (run_plan server runner e) (run_plan-Ends runner e k))))
