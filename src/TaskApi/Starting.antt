-- ===== src/TaskApi/Starting.antt =====
-- How `startTask` of internal/transport/council/routes.go ends.
use ai_council.Prelude.{◌≡◌, refl, String, Option, none, some, sym}
use ai_council.Schema.{ExecutionPlan}
use ai_council.RunState.{State}
use ai_council.Approval.{hash}
use ai_council.TaskApi.{Task, Server, Ctx, Answer}
use ai_council.TaskApi.Start.{
  Council, Reader, read_files, with_plan, guard_draft, conclude, await_approval, store_hash,
  is_before_plan, consult, start_task,
}
use ai_council.TaskApi.Effects.{Core, Ends, bind-Ends, always-Ends, if-Ends, weaken-Ends, move-Ends}

abbrev pub Anything : Core → Type 0
Anything k = Unit

-- No claim about the part of a handler.
any-Ends : {A : Type 0} (r : Answer A × Ctx) → Ends (λ (a : A). Anything) Anything r
any-Ends r = always-Ends Anything r tt

module _ (server : Server) where
  -- The task waits for the approval of its plan.
  abbrev pub IsAwaiting : Core → Type 0
  IsAwaiting k =
      (k.state ≡ State.awaiting_approval)
      × (hash server.digest k.id k.workspace_id k.plan ≡ some k.approval_hash)

  abbrev IsHashed : Core → Type 0
  IsHashed k = hash server.digest k.id k.workspace_id k.plan ≡ some k.approval_hash

  store_hash-Ends :
      (c : Ctx) (h : Option String)
      → h ≡ hash server.digest c.task.id c.task.workspace_id c.task.plan
      → Ends (λ a. IsHashed) Anything (store_hash server h c)
  unfolding store_hash
  store_hash-Ends c none e = tt
  store_hash-Ends c (some h) e = sym e

  await-Ends : (t : Task) (c : Ctx) → Ends (λ a. IsAwaiting) Anything (await_approval server t c)
  unfolding await_approval
  await-Ends t c =
      bind-Ends (λ a. IsHashed) (λ a. IsAwaiting) Anything
        (store_hash server (hash server.digest t.id t.workspace_id t.plan) (record c { task = t }))
        _ (store_hash-Ends (record c { task = t }) _ refl)
        (λ a d h.
          weaken-Ends (λ a. IsAwaiting) (λ a. IsAwaiting) IsAwaiting Anything _ (λ a k x. x)
            (λ k x. tt)
            (move-Ends server IsAwaiting "task_persistence_failed" State.awaiting_approval d
              (refl, h)))

  conclude-Ends :
      (plan : Option ExecutionPlan) (c : Ctx)
      → Ends (λ a. IsAwaiting) Anything (conclude server plan c)
  unfolding conclude
  conclude-Ends plan c =
      if-Ends (λ a. IsAwaiting) Anything (is_before_plan c.task.state) _ _ c
        (λ e. await-Ends (with_plan plan c.task) c) (λ e. tt)

  -- Where a start answers without an error, the task waits for an approval, and its approval hash is
  -- the hash of its plan.
  pub start_task-Ends :
      (council : Option Council) (reader : Reader) (c : Ctx)
      → Ends (λ a. IsAwaiting) Anything (start_task server council reader c)
  unfolding start_task
  start_task-Ends none reader c =
      bind-Ends (λ a. Anything) (λ a. IsAwaiting) Anything (guard_draft server c) _
        (any-Ends (guard_draft server c)) (λ a d x. conclude-Ends none d)
  start_task-Ends (some council) reader c =
      bind-Ends (λ a. Anything) (λ a. IsAwaiting) Anything (guard_draft server c) _
        (any-Ends (guard_draft server c))
        (λ a d x.
          bind-Ends (λ a. Anything) (λ a. IsAwaiting) Anything
            (read_files reader council.takes_workspace d.task.workspace_id d) _ (any-Ends _)
            (λ files e y.
              bind-Ends (λ a. Anything) (λ a. IsAwaiting) Anything
                (consult server council d.task.requirement files e) _ (any-Ends _)
                (λ plan f z. conclude-Ends (some plan) f)))
