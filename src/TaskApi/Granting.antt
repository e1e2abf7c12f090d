-- ===== src/TaskApi/Granting.antt =====
-- `approveTask` of internal/transport/council/routes.go keeps the invariant of TaskApi.Safety.
use mathlib.Core.List.{Memᴰ}
use ai_council.Prelude.{
  ◌≡◌, refl, ℤ, String, true, some, List, [], ◌∷◌, inl, arith, not, ◌||◌, sym, subst, ap₂, All,
  int_eq, int_eq_iff, str_eq, eq_iff, is_empty,
}
use ai_council.RunState.{State, state_eq, state_eq_iff}
use ai_council.Approval.{Digest}
use ai_council.Storage.Sql.{Result, ok, err}
use ai_council.Storage.Approvals.{invalidate}
use ai_council.TaskApi.{
  Task, Request, ApprovalRequest, EventData, Server, Ctx, append_event, persist_task, or_refuse,
}
use ai_council.TaskApi.Effects.{
  Core, core, Ends, bind-Ends, always-Ends, Ends-always, if-Ends, or_refuse-Ends, core-append_event,
  core-persist_task,
}
use ai_council.TaskApi.Decide.{approve_task, grant, record_approval, save_approval}
use ai_council.TaskApi.Safety.{IsApproved, IsSound}

abbrev the_key : ℤ → String → ApprovalRequest
the_key x y = record { plan_version = x; approval_hash = y }

module _ (digest : Digest) (seen : List ApprovalRequest) (r : ApprovalRequest) where
  more-IsApproved : (q : Request) → IsApproved digest seen q → IsApproved digest (r ∷ seen) q
  more-IsApproved q p = record {
    task = p.task;
    sends = p.sends;
    hashed = p.hashed;
    given = Memᴰ.tail p.given;
  }

  All-IsApproved :
      (qs : List Request) → All (IsApproved digest seen) qs → All (IsApproved digest (r ∷ seen)) qs
  All-IsApproved [] h = tt
  All-IsApproved (q ∷ qs) (p, h) = (more-IsApproved q p, All-IsApproved qs h)

  more-IsSound : (k : Core) → IsSound digest seen k → IsSound digest (r ∷ seen) k
  more-IsSound k i = record {
    hashed = i.hashed;
    given = λ e. Memᴰ.tail (i.given e);
    before = i.before;
    executing = i.executing;
    sent = All-IsApproved k.sent i.sent;
  }

  -- While an approval that matches the task is recorded
  abbrev pub IsGranting : Core → Type 0
  IsGranting k =
      IsSound digest (r ∷ seen) k
      × (k.state ≡ State.awaiting_approval)
      × (r.plan_version ≡ k.plan_version)
      × (r.approval_hash ≡ k.approval_hash)

  granted-IsSound :
      (k : Core) → IsGranting k → IsSound digest (r ∷ seen) (record k { approved = true })
  granted-IsSound k (i, e, v, h) = record {
    hashed = λ p. i.hashed (inl e);
    given = λ p. Memᴰ.head (ap₂ (λ (x : ℤ) (y : String). the_key x y) (sym v) (sym h));
    before = λ p. ground arith;
    executing = λ p. refl;
    sent = i.sent;
  }

module _ (server : Server) (seen : List ApprovalRequest) (r : ApprovalRequest) where
  abbrev Granting : Core → Type 0
  Granting = IsGranting server.digest seen r

  abbrev Sound : Core → Type 0
  Sound = IsSound server.digest (r ∷ seen)

  stored-Ends :
      (stored : Result (Unit {0})) (c : Ctx)
      → Granting (core c)
      → Ends (λ a. Granting) Sound (or_refuse "approval_persistence_failed" stored c)
  stored-Ends (ok a) c g = g
  stored-Ends (err e) c g = g.0

  record_approval-Ends :
      (t : Task) (c : Ctx)
      → Granting (core c)
      → Ends (λ a. Granting) Sound (record_approval server t r c)
  unfolding record_approval
  record_approval-Ends t c g =
      if-Ends (λ a. Granting) Sound server.db _ _ c
        (λ e.
          let dropped = invalidate server.host t.id c.world in
          let d = record c { world = dropped.1 } in
          bind-Ends (λ a. Granting) (λ a. Granting) Sound
            (or_refuse "approval_persistence_failed" dropped.0 d) _ (stored-Ends dropped.0 d g)
            (λ a f j.
              let saved = save_approval server t r f.world in
              stored-Ends saved.0 (record f { world = saved.1 }) j))
        (λ e. g)

  grant-Ends : (c : Ctx) → Granting (core c) → Ends (λ a. Sound) Sound (grant server r c)
  unfolding grant
  grant-Ends c (i, e, v, h) =
      let d = record c { task = record c.task { approval_hash = r.approval_hash } } in
      bind-Ends (λ a. Granting) (λ a. Sound) Sound (record_approval server c.task r d) _
        (record_approval-Ends c.task d (
          subst (λ x. IsSound server.digest (r ∷ seen) (record (core c) { approval_hash = x }))
              (sym h) i,
          e,
          v,
          refl,
        ))
        (λ a f g.
          let f' = record f { task = record f.task { approved = true } } in
          bind-Ends (λ a. Sound) (λ a. Sound) Sound (persist_task server f') _
            (always-Ends Sound (persist_task server f')
              (rw (core-persist_task server f') (granted-IsSound server.digest seen r (core f) g)))
            (λ saved x j.
              bind-Ends (λ a. Sound) (λ a. Sound) Sound
                (or_refuse "task_persistence_failed" saved x) _
                (or_refuse-Ends Sound "task_persistence_failed" saved x j)
                (λ a y l.
                  bind-Ends (λ a. Sound) (λ a. Sound) Sound
                    (append_event server "approval.created" (EventData.the_approval r) y) _
                    (always-Ends Sound
                      (append_event server "approval.created" (EventData.the_approval r) y)
                      (rw (core-append_event server "approval.created" (EventData.the_approval r) y)
                        l))
                    (λ appended z q.
                      or_refuse-Ends Sound "event_persistence_failed" appended z q))))

  pub approve-IsSound :
      (c : Ctx)
      → IsSound server.digest seen (core c)
      → Sound (core (approve_task server (some r) c).1)
  unfolding approve_task
  approve-IsSound c i = Ends-always Sound (approve_task server (some r) c) (
      let j = more-IsSound server.digest seen r (core c) i in
      if-Ends (λ a. Sound) Sound (is_empty r.approval_hash) _ _ c (λ e. j)
        (λ e.
          if-Ends (λ a. Sound) Sound
            (not (state_eq c.task.state State.awaiting_approval)
              || not (int_eq r.plan_version c.task.plan_version))
            _ _ c (λ x. j)
            (λ x.
              if-Ends (λ a. Sound) Sound (not (str_eq r.approval_hash c.task.approval_hash)) _ _ c
                (λ y. j)
                (λ y. grant-Ends c (
                  j,
                  (state_eq_iff c.task.state State.awaiting_approval).0 (ground arith),
                  (int_eq_iff r.plan_version c.task.plan_version).0 (ground arith),
                  (eq_iff r.approval_hash c.task.approval_hash).0 (ground arith),
                )))))
