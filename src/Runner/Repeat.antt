-- ===== src/Runner/Repeat.antt =====
-- What `ExecuteApprovedPlan` of internal/runner/grpc/service.go does when a request is repeated.
use ai_council.Prelude.{
  ◌≡◌, refl, String, false, Option, none, some, inl, inr, arith, Bool-cases, is_empty, ◌∙◌, ap,
}
use ai_council.Schema.{Command}
use ai_council.Approval.{Digest, Verdict, accepted, hash_mismatch, marshal_failed}
use ai_council.TaskApi.{Request, Response}
use ai_council.Runner.Idempotency.{
  Store, Backend, Begun, begun, nothing_to_release, in_progress, lookup, get, begin, release,
  get_done, complete_done, get_stores,
}
use ai_council.Runner.Service.{
  Transaction, Ran, Reply, responded, rejected, crashed, State, verified, started, looked_up,
  execute_approved_plan, finish,
}

release_done : (b : Begun) (id : String) (s : Store) → (release b id s).done ≡ s.done
unfolding release
release_done begun id s = refl
release_done nothing_to_release id s = refl
release_done in_progress id s = refl

module _ {W : Type 0} (digest : Digest) (backend : Backend) (tx : Transaction W)
    (run : Command → W → Ran × W) where
  -- A response that is answered is stored.
  IsStored : Request → Reply × State W → Type 0
  IsStored request (rejected code, s) = Unit
  IsStored request (crashed, s) = Unit
  IsStored request (responded v, s) = lookup s.store.done request.request_id ≡ some v

  finish-IsStored :
      (b : Begun) (request : Request) (r : Option Response × W) (store : Store)
      → IsStored request (finish digest backend tx run b request r store)
  unfolding finish IsStored
  finish-IsStored b request (some r, w) store =
      ap (λ xs. lookup xs request.request_id) (release_done b request.request_id _)
      ∙ complete_done backend request.request_id r store
  finish-IsStored b request (none, w) store = tt

  verified-IsStored :
      (v : Verdict) (b : Begun) (request : Request) (store : Store) (w : W)
      → IsStored request (verified digest backend tx run v b request store w)
  unfolding verified finish IsStored
  verified-IsStored accepted b request store w = finish-IsStored b request _ store
  verified-IsStored hash_mismatch b request store w = tt
  verified-IsStored marshal_failed b request store w = tt

  started-IsStored :
      (b : Begun × Store) (request : Request) (w : W)
      → IsStored request (started digest backend tx run b request w)
  unfolding started IsStored
  started-IsStored (begun, store) request w = verified-IsStored _ begun request store w
  started-IsStored (nothing_to_release, store) request w =
      verified-IsStored _ nothing_to_release request store w
  started-IsStored (in_progress, store) request w = tt

  looked_up-IsStored :
      (g : Option Response × Store) (request : Request) (w : W)
      → ((v : Response) → g.0 ≡ some v → lookup g.1.done request.request_id ≡ some v)
      → IsStored request (looked_up digest backend tx run g request w)
  unfolding looked_up IsStored
  looked_up-IsStored (some saved, store) request w kept = kept saved refl
  looked_up-IsStored (none, store) request w kept =
      started-IsStored (begin backend request.request_id store) request w

  execute-IsStored :
      (request : Request) (s : State W)
      → IsStored request (execute_approved_plan digest backend tx run request s)
  unfolding execute_approved_plan IsStored
  execute-IsStored request s = elim (Bool-cases (is_empty request.request_id)) [
    | inl e ↦ rw e tt
    | inr e ↦ rw e (
        looked_up-IsStored (get backend request.request_id s.store) request s.workspace
          (get_stores backend request.request_id s.store))
  ]

  IsStored-responded :
      (request : Request) (r : Reply × State W) (v : Response)
      → IsStored request r
      → r.0 ≡ responded v
      → lookup r.1.store.done request.request_id ≡ some v
  unfolding IsStored
  IsStored-responded request (rejected code, s) v h e = ground arith
  IsStored-responded request (crashed, s) v h e = ground arith
  IsStored-responded request (responded u, s) v h e = ground arith

  again :
      (request : Request) (s : State W) (v : Response)
      → is_empty request.request_id ≡ false
      → lookup s.store.done request.request_id ≡ some v
      → execute_approved_plan digest backend tx run request s ≡ (responded v, s)
  unfolding execute_approved_plan looked_up
  again request s v named h = rw (named, get_done backend request.request_id v s.store h) refl

  -- A request that was answered with a response is, when it is sent again, answered with the same
  -- response, and nothing is done for it: neither the workspace nor the store changes.
  pub repeat_does_nothing :
      (request : Request) (s : State W) (v : Response)
      → is_empty request.request_id ≡ false
      → (execute_approved_plan digest backend tx run request s).0 ≡ responded v
      → execute_approved_plan digest backend tx run request
          (execute_approved_plan digest backend tx run request s).1
        ≡ (responded v, (execute_approved_plan digest backend tx run request s).1)
  repeat_does_nothing request s v named e =
      again request (execute_approved_plan digest backend tx run request s).1 v named (
        IsStored-responded request (execute_approved_plan digest backend tx run request s) v
          (execute-IsStored request s) e)
