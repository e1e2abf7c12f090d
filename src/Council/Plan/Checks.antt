-- ===== src/Council/Plan/Checks.antt =====
-- Which decisions internal/council/engine.go turns into a plan.
use ai_council.Prelude.{
  String, ◌≡◌, ◌≢◌, ◌↔◌, ◌⊎◌, ap, ◌∙◌, true, false, List, [], ◌∷◌, ◌++◌, is_positive, codes, items,
  copied, All, arith,
}
use ai_council.Schema.{Command, Patch, ExecutionPlan, CouncilDecision, RedTeamReport}
use ai_council.Council.SafePath.{
  Platform, is_nil, trim_space, is_safe_relative_path, is_safe_work_dir,
}
use ai_council.Council.Plan.{Built, built, check_patches, check_commands, build_execution_plan}

all_cons {ℓ} : {H P A : Type ℓ} {Q R : Type ℓ} → (P ↔ (H × Q)) → (Q ↔ (A × R)) → P ↔ ((H × A) × R)
all_cons f g =
    (λ h. (((f.0 h).0, (g.0 (f.0 h).1).0), (g.0 (f.0 h).1).1), λ h. f.1 (h.0.0, g.1 (h.0.1, h.1)))

module _ (platform : Platform) where
  abbrev pub IsSafePatch : Patch → Type 0
  IsSafePatch p = is_safe_relative_path platform (codes p.path) ≡ true

  abbrev pub IsSafeCommand : Command → Type 0
  IsSafeCommand c =
      (is_nil (trim_space (codes c.executable)) ≡ false)
      × (is_positive c.timeout_seconds ≡ true)
      × (is_safe_work_dir platform (codes c.work_dir) ≡ true)

  -- What a decision and its report need for a plan to be built.
  pub record IsExecutable (decision : CouncilDecision) (report : RedTeamReport) : Type 0 where
    pub unblocked : items report.blocking ≡ []
    pub has_work : (items decision.plan.patches ≢ []) ⊎ (items decision.plan.commands ≢ [])
    pub versioned : is_positive decision.plan.version ≡ true
    pub patches : All IsSafePatch (items decision.plan.patches)
    pub commands :
        All IsSafeCommand
          (items decision.plan.commands ++ items decision.plan.verification_commands)

  patch_head :
      (p : Patch) (ps : List Patch) (rest : Built) (plan : ExecutionPlan)
      → (check_patches platform (p ∷ ps) rest ≡ built plan)
        ↔ (IsSafePatch p × (check_patches platform ps rest ≡ built plan))
  unfolding check_patches
  patch_head p ps rest plan = (λ h. ground arith, λ h. ground arith)

  command_head :
      (c : Command) (cs : List Command) (rest : Built) (plan : ExecutionPlan)
      → (check_commands platform (c ∷ cs) rest ≡ built plan)
        ↔ (IsSafeCommand c × (check_commands platform cs rest ≡ built plan))
  unfolding check_commands
  command_head c cs rest plan = (λ h. ground arith, λ h. ground arith)

  check_patches_iff :
      (ps : List Patch) (rest : Built) (plan : ExecutionPlan)
      → (check_patches platform ps rest ≡ built plan) ↔ (All IsSafePatch ps × (rest ≡ built plan))
  unfolding check_patches
  check_patches_iff [] rest plan = (λ h. (tt, h), λ h. h.1)
  check_patches_iff (p ∷ ps) rest plan =
      all_cons (patch_head p ps rest plan) (check_patches_iff ps rest plan)

  check_commands_iff :
      (cs : List Command) (rest : Built) (plan : ExecutionPlan)
      → (check_commands platform cs rest ≡ built plan)
        ↔ (All IsSafeCommand cs × (rest ≡ built plan))
  unfolding check_commands
  check_commands_iff [] rest plan = (λ h. (tt, h), λ h. h.1)
  check_commands_iff (c ∷ cs) rest plan =
      all_cons (command_head c cs rest plan) (check_commands_iff cs rest plan)

  module _ (decision : CouncilDecision) (report : RedTeamReport) (acceptance : List String)
      (plan : ExecutionPlan) where
    abbrev body : Built
    body = check_patches platform (items decision.plan.patches) (
        check_commands platform
          (items decision.plan.commands ++ items decision.plan.verification_commands)
          (built (record decision.plan { acceptance = copied acceptance })))

    abbrev Guards : Type 0
    Guards =
        (items report.blocking ≡ [])
        × ((items decision.plan.patches ≢ []) ⊎ (items decision.plan.commands ≢ []))
        × (is_positive decision.plan.version ≡ true)

    guards :
        build_execution_plan platform decision report acceptance ≡ built plan
        → Guards × (body ≡ built plan)
    unfolding build_execution_plan
    guards h = (ground arith, ground arith)

    unguarded : Guards → build_execution_plan platform decision report acceptance ≡ body
    unfolding build_execution_plan
    unguarded g = ground arith

    -- A plan is built exactly where the report blocks nothing, the decision has patches or commands
    -- and a positive version, and every path, executable, timeout and work directory is acceptable;
    -- it is the decision's plan with the given acceptance criteria.
    pub build_execution_plan_iff :
        (build_execution_plan platform decision report acceptance ≡ built plan) ↔ (
          IsExecutable decision report
          × (record decision.plan { acceptance = copied acceptance } ≡ plan))
    build_execution_plan_iff = (
      λ h.
          let (g, b) = guards h in
          let (ps, r) = (check_patches_iff _ _ plan).0 b in
          let (cs, e) = (check_commands_iff _ _ plan).0 r in
          (
            record {
              unblocked = g.0;
              has_work = g.1;
              versioned = g.2;
              patches = ps;
              commands = cs;
            },
            cc e,
          ),
      λ h.
          let x = h.0 in
          unguarded (x.unblocked, x.has_work, x.versioned)
          ∙ (check_patches_iff _ _ plan).1
              (x.patches, (check_commands_iff _ _ plan).1 (x.commands, ap built h.1)),
    )
