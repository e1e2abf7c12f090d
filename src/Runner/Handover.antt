-- ===== src/Runner/Handover.antt =====
-- From `executeTask` of internal/transport/council/routes.go to `ExecuteApprovedPlan` of
-- internal/runner/grpc/service.go: what the request keeps of the plan.
use ai_council.Prelude.{
  ℤ, pos, negsuc, ◌^◌, ◌≡◌, refl, String, Bool, true, false, none, some, List, [], ◌∷◌, map, all,
  items, copied, non_nil, Slice, ltb, ◌&&◌, arith, ap, ap₂, ◌∙◌,
}
use ai_council.Schema.{Patch, Command}
use ai_council.Approval.{Digest, canonical, hash, verify, accepted}
use ai_council.Approval.Binding.{verify_iff, hash_of_executable}
use ai_council.TaskApi.{Task}
use ai_council.TaskApi.Execute.{signed, int32, approved_patch, approved_command, request_of}
use ai_council.Runner.Service.{patch_of, command_of, plan_of}

abbrev fits : ℤ → Bool
fits (pos n) = ltb n (2 ^ 31)
fits (negsuc n) = ltb n (2 ^ 31)

abbrev is_proper : Slice String → Bool
is_proper none = true
is_proper (some []) = false
is_proper (some (x ∷ xs)) = true

-- The timeout fits into 32 bits, and no arguments are `nil`.
abbrev is_portable_command : Command → Bool
is_portable_command c = fits c.timeout_seconds && is_proper c.args

abbrev is_portable : Task → Bool
is_portable t =
    fits t.plan_version
    && (all is_portable_command (items t.plan.commands)
        && all is_portable_command (items t.plan.verification_commands))

int32-fits : (i : ℤ) → fits i ≡ true → int32 i ≡ i
unfolding int32 signed
int32-fits (pos n) h = ground arith
int32-fits (negsuc n) h = ground arith

copied_proper : (s : Slice String) → is_proper s ≡ true → copied (items s) ≡ s
copied_proper none h = refl
copied_proper (some []) h = ground arith
copied_proper (some (x ∷ xs)) h = refl

non_nil-copied : {A : Type 0} (s : Slice A) → non_nil (copied (items s)) ≡ non_nil s
non_nil-copied none = refl
non_nil-copied (some []) = refl
non_nil-copied (some (x ∷ xs)) = refl

twice : {A : Type 0} (s : Slice A) → non_nil (non_nil s) ≡ non_nil s
twice none = refl
twice (some xs) = refl

-- What a repeated field does to a slice.
repeated : {A : Type 0} (s : Slice A) → non_nil (non_nil (copied (items s))) ≡ non_nil s
repeated s = twice (copied (items s)) ∙ non_nil-copied s

patches_back : (ps : List Patch) → map patch_of (map approved_patch ps) ≡ ps
unfolding patch_of approved_patch
patches_back [] = refl
patches_back (p ∷ ps) = ap (λ qs. p ∷ qs) (patches_back ps)

command_back : (c : Command) → is_portable_command c ≡ true → command_of (approved_command c) ≡ c
unfolding command_of approved_command
command_back c h =
    ap₂ (λ a t. record c { args = a; timeout_seconds = t }) (copied_proper c.args (ground arith))
      (int32-fits c.timeout_seconds (ground arith))

commands_back :
    (cs : List Command)
    → all is_portable_command cs ≡ true
    → map command_of (map approved_command cs) ≡ cs
commands_back [] h = refl
commands_back (c ∷ cs) h =
    ap₂ (λ d ds. d ∷ ds) (command_back c (ground arith)) (commands_back cs (ground arith))

-- The plan that arrives is the one that was sent, as far as the hash goes.
canonical_back :
    (t : Task)
    → is_portable t ≡ true
    → t.plan.version ≡ t.plan_version
    → canonical (plan_of (request_of t)) ≡ canonical t.plan
unfolding plan_of request_of
canonical_back t h same =
    rw
      (
        patches_back (items t.plan.patches),
        commands_back (items t.plan.commands) (ground arith),
        commands_back (items t.plan.verification_commands) (ground arith),
        repeated t.plan.patches,
        repeated t.plan.commands,
        repeated t.plan.acceptance,
        non_nil-copied t.plan.verification_commands,
        int32-fits t.plan_version (ground arith),
        same,
      )
      refl

module _ (digest : Digest) where
  -- A request is accepted by the runner where the approval hash of the task is the hash of its plan,
  -- the version of the plan is the plan version of the task, this version and the timeouts fit into 32
  -- bits, and no command has an empty slice of arguments that is not `nil`.
  pub sent_request_accepted :
      (t : Task)
      → is_portable t ≡ true
      → t.plan.version ≡ t.plan_version
      → hash digest t.id t.workspace_id t.plan ≡ some t.approval_hash
      → verify digest
          (request_of t).approval_hash
          (request_of t).run_id
          (request_of t).workspace_id
          (plan_of (request_of t))
        ≡ accepted
  unfolding request_of
  sent_request_accepted t h same e =
      (verify_iff digest t.approval_hash t.id t.workspace_id (plan_of (request_of t))).1 (
        hash_of_executable digest t.id t.workspace_id (plan_of (request_of t)) t.plan
          (canonical_back t h same)
        ∙ e)
