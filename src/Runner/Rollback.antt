-- ===== src/Runner/Rollback.antt =====
-- The service of internal/runner/grpc/service.go with the transaction of
-- internal/runner/files/transaction.go: what a failed execution leaves in the workspace.
use ai_council.Prelude.{
  ℕ, ◌≡◌, ◌≢◌, ◌⊎◌, refl, String, Bool, true, false, some, List, [], ◌∷◌, inl, inr, arith, ◌∙◌, sym,
  ap, subst, Bool-cases, items, ◌+++◌, if◌then◌else◌,
}
use ai_council.Schema.{Command, ExecutionPlan}
use ai_council.Approval.{Digest}
use ai_council.Council.Plan.{is_empty_list}
use ai_council.TaskApi.{Response}
use ai_council.Runner.Idempotency.{Backend}
use ai_council.Runner.Service.{
  Transaction, Applied, Ran, panicked, patch_failed, rollback_failed, is_failure, step_of, add_step,
  fails, answers, undo, run_commands, run_all, with_patches, carry_out, applied as has_applied,
}
use ai_council.Runner.Files.{
  Disk, Os, Snapshot, Outcome, restore, apply, applied, failed, panic,
  rollback_failed as not_rolled_back,
}
use ai_council.Runner.Files.Undo.{AreTaken, restore_undoes}
use ai_council.Runner.Files.Steps.{IsKept, after_kept}
use ai_council.Runner.Files.Steps.{Applied as WasApplied}
use ai_council.Runner.Files.Atomic.{apply-Applied}

abbrev applied_of : Outcome × Disk → Applied (List Snapshot) × Disk
applied_of (applied ss, d) = (has_applied ss, d)
applied_of (failed, d) = (patch_failed [], d)
applied_of (not_rolled_back, d) = (rollback_failed [], d)
applied_of (panic, d) = (panicked, d)

-- `files.NewTransaction` as an implementation of the interface `transaction`
abbrev pub file_transaction : Os → Transaction Disk
file_transaction os = record {
  Snapshots = List Snapshot;
  apply = λ ps d. applied_of (apply os ps d);
  restore = restore os;
}

-- The error code says that the rollback failed, or every file is as it was.
abbrev pub IsUndone : Disk → Response × Disk → Type 0
IsUndone before (r, d) =
    ((code : String) × (r.error_code ≡ "rollback_failed:" +++ code))
    ⊎ ((p : String) → d.at p ≡ before.at p)

module _ (digest : Digest) (backend : Backend) (os : Os) (run : Command → Disk → Ran × Disk)
    (quiet : (c : Command) (d : Disk) (p : String) → (run c d).1.at p ≡ d.at p)
    (before : Disk) where
  abbrev tx : Transaction Disk
  tx = file_transaction os

  undo-IsUndone :
      (ss : List Snapshot) (r : Response) (d : Disk)
      → AreTaken os before ss
      → IsKept os before ss d
      → IsUndone before (undo digest backend tx run (some ss) r d)
  unfolding undo
  undo-IsUndone ss r d taken kept = elim (Bool-cases (restore os ss d).0) [
    | inl e ↦ inr (λ p. restore_undoes os before ss d p taken (kept p) e)
    | inr e ↦ rw e (inl (r.error_code, refl))
  ]

  quiet-IsKept :
      (ss : List Snapshot) (c : Command) (d : Disk)
      → IsKept os before ss d
      → IsKept os before ss (run c d).1
  quiet-IsKept ss c d kept p = after_kept (kept p) (quiet c d p)

  -- After the commands: all ran, or the patches were undone.
  abbrev After : List Snapshot → Response → Bool × Response × Disk → Type 0
  After ss r (true, r', d) = (r'.status ≡ r.status) × IsKept os before ss d
  After ss r (false, r', d) = IsUndone before (r', d)

  run_commands-After :
      (ss : List Snapshot) (kind : String) (cs : List Command) (r : Response) (d : Disk)
      → AreTaken os before ss
      → IsKept os before ss d
      → After ss r (run_commands digest backend tx run (some ss) kind cs r d)
  unfolding run_commands
  run_commands-After ss kind [] r d taken kept = (refl, kept)
  run_commands-After ss kind (c ∷ cs) r d taken kept = elim (Bool-cases (is_failure (run c d).0)) [
    | inl e ↦ rw e (undo-IsUndone ss _ (run c d).1 taken (quiet-IsKept ss c d kept))
    | inr e ↦ rw e (
        run_commands-After ss kind cs (add_step (step_of kind c (run c d).0 "SUCCEEDED") r)
          (run c d).1 taken (quiet-IsKept ss c d kept))
  ]

  ended :
      (ss : List Snapshot) (r : Response) (s : Bool × Response × Disk)
      → After ss r s
      → s.1.status ≢ r.status
      → IsUndone before (s.1, s.2)
  ended ss r (true, r', d) (e, kept) n = elim (n e) [ ]
  ended ss r (false, r', d) undone n = undone

  abbrev both_phases :
      Bool × Response × Disk → (Response → Disk → Bool × Response × Disk) → Response × Disk
  both_phases first second =
      if first.0
      then ((second first.1 first.2).1, (second first.1 first.2).2)
      else (first.1, first.2)

  two_phases :
      (ss : List Snapshot) (r : Response) (first : Bool × Response × Disk)
      (second : Response → Disk → Bool × Response × Disk)
      → After ss r first
      → ((r' : Response) (d : Disk) → IsKept os before ss d → After ss r' (second r' d))
      → (both_phases first second).0.status ≢ r.status
      → IsUndone before (both_phases first second)
  two_phases ss r (true, r', d) second (e, kept) after n =
      ended ss r' (second r' d) (after r' d kept) (λ h. n (h ∙ e))
  two_phases ss r (false, r', d) second undone after n = undone

  run_all-IsUndone :
      (ss : List Snapshot) (plan : ExecutionPlan) (r : Response) (d : Disk)
      → AreTaken os before ss
      → IsKept os before ss d
      → (run_all digest backend tx run (some ss) plan r d).0.status ≢ r.status
      → IsUndone before (run_all digest backend tx run (some ss) plan r d)
  unfolding run_all
  run_all-IsUndone ss plan r d taken kept n =
      two_phases ss r
        (run_commands digest backend tx run (some ss) "command" (items plan.commands) r d)
        (run_commands digest backend tx run (some ss) "verification"
          (items plan.verification_commands))
        (run_commands-After ss "command" (items plan.commands) r d taken kept)
        (λ r' e k.
          run_commands-After ss "verification" (items plan.verification_commands) r' e taken k)
        n

  answers_injective : (x y : Response × Disk) → answers x ≡ answers y → x ≡ y
  answers_injective x y h = ground arith

  with_patches-IsUndone :
      (plan : ExecutionPlan) (r : Response) (o : Outcome × Disk) (result : Response × Disk)
      → WasApplied os before o
      → with_patches digest backend tx run plan r (applied_of o) ≡ answers result
      → result.0.status ≢ r.status
      → IsUndone before result
  unfolding with_patches
  with_patches-IsUndone plan r (applied ss, d) result (taken, kept) e n =
      let same = answers_injective (run_all digest backend tx run (some ss) plan r d) result e in
      subst (λ x. IsUndone before x) same
        (run_all-IsUndone ss plan r d taken kept
          (λ h. n (ap (λ (x : Response × Disk). x.0.status) (sym same) ∙ h)))
  with_patches-IsUndone plan r (failed, d) result kept e n =
      subst (λ x. IsUndone before x) (answers_injective (fails "patch_failed" r, d) result e)
        (inr kept)
  with_patches-IsUndone plan r (not_rolled_back, d) result h e n =
      subst (λ x. IsUndone before x)
        (answers_injective (fails "rollback_failed:patch_failed" r, d) result e)
        (inl ("patch_failed", refl))
  with_patches-IsUndone plan r (panic, d) result h e n = ground arith

module _ (digest : Digest) (backend : Backend) (os : Os) (stat : (n : ℕ) → os.stat_fault n ≡ false)
    (run : Command → Disk → Ran × Disk)
    (quiet : (c : Command) (d : Disk) (p : String) → (run c d).1.at p ≡ d.at p) where
  -- An execution of a plan with patches that answers with another status than the one it began with:
  -- its error code says that the rollback failed, or every file is as it was before, as long as the
  -- commands change no file and the mode of a file that was read can be read too.
  pub failed_execution-IsUndone :
      (plan : ExecutionPlan) (r : Response) (d : Disk) (result : Response × Disk)
      → is_empty_list (items plan.patches) ≡ false
      → carry_out digest backend (file_transaction os) run plan r d ≡ answers result
      → result.0.status ≢ r.status
      → IsUndone d result
  unfolding carry_out
  failed_execution-IsUndone plan r d result some_ e n =
      with_patches-IsUndone digest backend os run quiet d plan r (apply os (items plan.patches) d)
        result (apply-Applied os stat (items plan.patches) d) (rw some_ at e) n
