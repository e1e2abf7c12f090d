-- ===== src/TaskApi/Withdrawal.antt =====
-- `rejectTask` and `cancelTask` of internal/transport/council/routes.go: the task is cancelled, its
-- approval taken back.
use ai_council.Prelude.{◌≡◌, refl, String, false, List, arith, ◌∙◌}
use ai_council.RunState.{State}
use ai_council.TaskApi.{ApprovalRequest, EventData, Server, Ctx, append_event, persist_task}
use ai_council.TaskApi.Effects.{
  Core, core, bind-Ends, always-Ends, Ends-always, core-append_event, core-persist_task,
}
use ai_council.TaskApi.Decide.{withdraw, reject_task, cancel_task}
use ai_council.TaskApi.Safety.{IsSound, unapproved-IsSound}

module _ (server : Server) where
  -- The task is cancelled, and nothing else has changed.
  abbrev Is : Ctx → Core → Type 0
  Is c k = k ≡ record (core c) { state = State.cancelled; approved = false }

  pub core-withdraw :
      (kind : String) (c : Ctx)
      → core (withdraw server kind c).1
        ≡ record (core c) { state = State.cancelled; approved = false }
  unfolding withdraw
  core-withdraw kind c =
      let d = record c { task = record c.task { state = State.cancelled; approved = false } } in
      Ends-always (Is c) (withdraw server kind c) (
        bind-Ends (λ a. Is c) (λ a. Is c) (Is c) (persist_task server d) _
          (always-Ends (Is c) (persist_task server d) (core-persist_task server d))
          (λ saved x e.
            bind-Ends (λ a. Is c) (λ a. Is c) (Is c)
              (append_event server kind (EventData.the_state State.cancelled) x) _
              (always-Ends (Is c) (append_event server kind (EventData.the_state State.cancelled) x)
                (core-append_event server kind (EventData.the_state State.cancelled) x ∙ e))
              (λ a y f. f)))

  withdraw-IsSound :
      (seen : List ApprovalRequest) (kind : String) (c : Ctx)
      → IsSound server.digest seen (core c)
      → IsSound server.digest seen (core (withdraw server kind c).1)
  withdraw-IsSound seen kind c i = rw (core-withdraw kind c) (
      unapproved-IsSound server.digest seen
        (record (core c) { state = State.cancelled; approved = false }) refl (λ e. ground arith)
        (λ e. ground arith) i.sent)

  pub reject-IsSound :
      (seen : List ApprovalRequest) (c : Ctx)
      → IsSound server.digest seen (core c)
      → IsSound server.digest seen (core (reject_task server c).1)
  unfolding reject_task
  reject-IsSound seen c i = withdraw-IsSound seen "approval.rejected" c i

  pub cancel-IsSound :
      (seen : List ApprovalRequest) (c : Ctx)
      → IsSound server.digest seen (core c)
      → IsSound server.digest seen (core (cancel_task server c).1)
  unfolding cancel_task
  cancel-IsSound seen c i = withdraw-IsSound seen "state.changed" c i
