-- ===== src/Runner/Outcome.antt =====
-- What a response of `ExecuteApprovedPlan` of internal/runner/grpc/service.go says about what ran.
use ai_council.Prelude.{
  subst, ◌≡◌, ◌≢◌, refl, String, Bool, true, false, Option, none, some, List, [], ◌∷◌, ◌++◌, inl,
  inr, arith, Bool-cases, false≢true, items, ◌∙◌, sym, ap, eq_iff, ◌⊎◌,
}
use ai_council.Schema.{Command, ExecutionPlan}
use ai_council.Approval.{Digest}
use ai_council.Council.Plan.{is_empty_list}
use ai_council.TaskApi.{Response, StepResult}
use ai_council.Runner.Idempotency.{Backend}
use ai_council.Runner.Service.{
  Transaction, Ran, Applied, applied, patch_failed, rollback_failed, panicked, answers, is_failure,
  step_of, add_step, undo, run_commands, run_all, with_patches, carry_out,
}

-- All commands of a list ran without a failure, one after the other: from one workspace to another,
-- and with a step for each.
pub data AllRan {W : Type 0} (run : Command → W → Ran × W) (kind : String)
    : List Command → W → List StepResult → W → Type 0 where
  finished : {w : W} → AllRan run kind [] w [] w
  next :
      {c : Command} {cs : List Command} {w w' : W} {steps : List StepResult}
      → is_failure (run c w).0 ≡ false
      → AllRan run kind cs (run c w).1 steps w'
      → AllRan run kind (c ∷ cs) w (step_of kind c (run c w).0 "SUCCEEDED" ∷ steps) w'

append_step :
    (xs : List StepResult) (s : StepResult) (ys : List StepResult)
    → (xs ++ s ∷ []) ++ ys ≡ xs ++ s ∷ ys
append_step [] s ys = refl
append_step (x ∷ xs) s ys = ap (λ zs. x ∷ zs) (append_step xs s ys)

append_none : (xs : List StepResult) → xs ++ [] ≡ xs
append_none [] = refl
append_none (x ∷ xs) = ap (λ zs. x ∷ zs) (append_none xs)

append_assoc : (xs ys zs : List StepResult) → (xs ++ ys) ++ zs ≡ xs ++ (ys ++ zs)
append_assoc [] ys zs = refl
append_assoc (x ∷ xs) ys zs = ap (λ us. x ∷ us) (append_assoc xs ys zs)

failed_not_succeeded : ◌≢◌ {A = String} "FAILED" "SUCCEEDED"
failed_not_succeeded e = false≢true ((eq_iff "FAILED" "SUCCEEDED").1 e)

module _ {W : Type 0} (digest : Digest) (backend : Backend) (tx : Transaction W)
    (run : Command → W → Ran × W) where
  record RanAll (kind : String) (cs : List Command) (r : Response) (w : W)
      (result : Bool × Response × W) : Type 0 where
    steps : List StepResult
    ran : AllRan run kind cs w steps result.2
    status : result.1.status ≡ r.status
    response : result.1.steps ≡ r.steps ++ steps

  abbrev Finish : String → List Command → Response → W → Bool × Response × W → Type 0
  Finish kind cs r w result =
      (RanAll kind cs r w result × (result.0 ≡ true))
      ⊎ ((result.0 ≡ false) × (result.1.status ≡ "FAILED"))

  undo_status :
      (snapshots : Option tx.Snapshots) (r : Response) (w : W)
      → (undo digest backend tx run snapshots r w).0.status ≡ r.status
  unfolding undo
  undo_status none r w = refl
  undo_status (some s) r w = ground arith

  one_more :
      (kind : String) (c : Command) (cs : List Command) (r : Response) (w : W)
      (result : Bool × Response × W)
      → is_failure (run c w).0 ≡ false
      → Finish kind cs (add_step (step_of kind c (run c w).0 "SUCCEEDED") r) (run c w).1 result
      → Finish kind (c ∷ cs) r w result
  one_more kind c cs r w result e (inl (all_ran, fine)) = inl (
    record {
      steps = step_of kind c (run c w).0 "SUCCEEDED" ∷ all_ran.steps;
      ran = AllRan.next e all_ran.ran;
      status = all_ran.status;
      response = all_ran.response ∙ append_step r.steps _ all_ran.steps;
    },
    fine,
  )
  one_more kind c cs r w result e (inr failed) = inr failed

  run_commands-Finish :
      (snapshots : Option tx.Snapshots) (kind : String) (cs : List Command) (r : Response) (w : W)
      → Finish kind cs r w (run_commands digest backend tx run snapshots kind cs r w)
  unfolding run_commands
  run_commands-Finish snapshots kind [] r w = inl (
    record {
      steps = [];
      ran = AllRan.finished;
      status = refl;
      response = sym (append_none r.steps);
    },
    refl,
  )
  run_commands-Finish snapshots kind (c ∷ cs) r w = elim (Bool-cases (is_failure (run c w).0)) [
    | inl e ↦ rw e (inr (refl, undo_status snapshots _ (run c w).1))
    | inr e ↦ rw e (
        one_more kind c cs r w _ e (
          run_commands-Finish snapshots kind cs
            (add_step (step_of kind c (run c w).0 "SUCCEEDED") r) (run c w).1))
  ]

  -- What a successful response says: the commands ran, and then the verification, without a failure.
  pub record AllPassed (plan : ExecutionPlan) (r : Response) (w : W) (result : Response × W)
      : Type 0 where
    pub between : W
    pub steps : List StepResult
    pub verified : List StepResult
    pub ran : AllRan run "command" (items plan.commands) w steps between
    pub checked :
        AllRan run "verification" (items plan.verification_commands) between verified result.1
    pub response : result.0.steps ≡ r.steps ++ (steps ++ verified)

  run_all_passed :
      (snapshots : Option tx.Snapshots) (plan : ExecutionPlan) (r : Response) (w : W)
      → (run_all digest backend tx run snapshots plan r w).0.status ≡ "SUCCEEDED"
      → AllPassed plan r w (run_all digest backend tx run snapshots plan r w)
  unfolding run_all
  run_all_passed snapshots plan r w h =
      let first =
        run_commands digest backend tx run snapshots "command" (items plan.commands) r w in
      elim (run_commands-Finish snapshots "command" (items plan.commands) r w) [
        | inl (a, fine) ↦
            rw fine
              (elim (run_commands-Finish snapshots "verification" (items plan.verification_commands)
                first.1 first.2) [
                  | inl (b, _) ↦ record {
                    between = first.2;
                    steps = a.steps;
                    verified = b.steps;
                    ran = a.ran;
                    checked = b.ran;
                    response =
                        b.response
                        ∙ ap (λ xs. xs ++ b.steps) a.response
                        ∙ append_assoc r.steps a.steps b.steps;
                  }
                  | inr (_, failed) ↦ elim (failed_not_succeeded (sym failed ∙ (rw fine at h))) [ ]
                ])
        | inr (bad, failed) ↦ elim (failed_not_succeeded (sym failed ∙ (rw bad at h))) [ ]
      ]

  -- A plan that was carried out with success: its patches were applied, or there are none, and then
  -- everything passed.
  pub data Succeeded (plan : ExecutionPlan) (r : Response) (w : W) (result : Response × W)
      : Type 0 where
    unpatched :
        is_empty_list (items plan.patches) ≡ true
        → AllPassed plan r w result
        → Succeeded plan r w result
    patched :
        {s : tx.Snapshots} {w' : W}
        → tx.apply (items plan.patches) w ≡ (applied s, w')
        → AllPassed plan r w' result
        → Succeeded plan r w result

  answers_injective : (x y : Response × W) → answers x ≡ answers y → x ≡ y
  answers_injective x y h = ground arith

  answered :
      (snapshots : Option tx.Snapshots) (plan : ExecutionPlan) (r : Response) (w : W)
      (result : Response × W)
      → answers (run_all digest backend tx run snapshots plan r w) ≡ answers result
      → result.0.status ≡ "SUCCEEDED"
      → AllPassed plan r w result
  answered snapshots plan r w result e h =
      let same = answers_injective (run_all digest backend tx run snapshots plan r w) result e in
      subst (λ x. AllPassed plan r w x) same
        (run_all_passed snapshots plan r w (ap (λ (x : Response × W). x.0.status) same ∙ h))

  with_patches-Succeeded :
      (plan : ExecutionPlan) (r : Response) (w : W) (a : Applied tx.Snapshots × W)
      (result : Response × W)
      → tx.apply (items plan.patches) w ≡ a
      → with_patches digest backend tx run plan r a ≡ answers result
      → result.0.status ≡ "SUCCEEDED"
      → Succeeded plan r w result
  unfolding with_patches
  with_patches-Succeeded plan r w (applied s, w') result e p h =
      Succeeded.patched e (answered (some s) plan r w' result p h)
  with_patches-Succeeded plan r w (patch_failed s, w') result e p h =
      elim (failed_not_succeeded (ground (arith, h))) [ ]
  with_patches-Succeeded plan r w (rollback_failed s, w') result e p h =
      elim (failed_not_succeeded (ground (arith, h))) [ ]
  with_patches-Succeeded plan r w (panicked, w') result e p h = ground arith

  -- A plan that is carried out with the status SUCCEEDED: its patches were applied, or it has none,
  -- every command and then every verification command ran in its order without an error, a timeout
  -- or an exit code other than 0, and the response has a step for each.
  pub carry_out-Succeeded :
      (plan : ExecutionPlan) (r : Response) (w : W) (result : Response × W)
      → carry_out digest backend tx run plan r w ≡ answers result
      → result.0.status ≡ "SUCCEEDED"
      → Succeeded plan r w result
  unfolding carry_out
  carry_out-Succeeded plan r w result p h = elim (Bool-cases (is_empty_list (items plan.patches))) [
    | inl e ↦ Succeeded.unpatched e (answered none plan r w result (rw e at p) h)
    | inr e ↦
        with_patches-Succeeded plan r w (tx.apply (items plan.patches) w) result refl (rw e at p) h
  ]
