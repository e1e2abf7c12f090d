-- ===== src/Approval/Binding.antt =====
-- What an approval hash of internal/approval/snapshot.go binds.
use ai_council.Prelude.{
  Slice, items, non_nil, none, refl, String, ◌≡◌, ◌≢◌, ◌↔◌, ◌⊎◌, inl, inr, sym, ap, ◌∙◌, some,
  Option-cases, Bool-cases, arith, str_eq, eq_iff,
}
use ai_council.Schema.{ExecutionPlan}
use ai_council.Approval.{Digest, Payload, canonical, payload, digested, accepted, hash, verify}

-- The same run and workspace, and plans with the same version, patches, commands and criteria.
pub record DoesSame (run run' workspace workspace' : String) (p q : ExecutionPlan) : Type 0 where
  pub run_ : run ≡ run'
  pub workspace_ : workspace ≡ workspace'
  pub version : p.version ≡ q.version
  pub patches : items p.patches ≡ items q.patches
  pub commands : items p.commands ≡ items q.commands
  pub verification_commands : items p.verification_commands ≡ items q.verification_commands
  pub acceptance : items p.acceptance ≡ items q.acceptance

items-non_nil : {A : Type 0} (s : Slice A) → items (non_nil s) ≡ items s
items-non_nil none = refl
items-non_nil (some xs) = refl

same_items :
    {A : Type 0} (s t : Slice A) → items (non_nil s) ≡ items (non_nil t) → items s ≡ items t
same_items s t h = sym (items-non_nil s) ∙ h ∙ items-non_nil t

payload-DoesSame :
    (run run' workspace workspace' : String) (p q : ExecutionPlan)
    → payload run workspace p ≡ payload run' workspace' q
    → DoesSame run run' workspace workspace' p q
payload-DoesSame run run' workspace workspace' p q h = record {
  run_ = ap (λ (x : Payload). x.run_id) h;
  workspace_ = ap (λ (x : Payload). x.workspace_id) h;
  version = ap (λ (x : Payload). x.plan.version) h;
  patches = same_items p.patches q.patches (ap (λ (x : Payload). items x.plan.patches) h);
  commands = same_items p.commands q.commands (ap (λ (x : Payload). items x.plan.commands) h);
  verification_commands =
      same_items p.verification_commands q.verification_commands
        (ap (λ (x : Payload). items x.plan.verification_commands) h);
  acceptance =
      same_items p.acceptance q.acceptance (ap (λ (x : Payload). items x.plan.acceptance) h);
}

module _ (digest : Digest) where
  -- Two payloads that are marshalled to different texts with one digest.
  pub record Collision (p q : Payload) : Type 0 where
    pub left : String
    pub right : String
    pub of_p : digest.marshal p ≡ some left
    pub of_q : digest.marshal q ≡ some right
    pub differ : left ≢ right
    pub same : digest.sha256_hex left ≡ digest.sha256_hex right

  -- JSON loses nothing of a payload: no two payloads have one text. `json.Marshal` leaves out no field of
  -- a payload, and tells `nil` from an empty slice; texts are Unicode here.
  abbrev pub IsLossless : Type 0
  IsLossless =
      (p q : Payload) (raw : String)
      → digest.marshal p ≡ some raw
      → digest.marshal q ≡ some raw
      → p ≡ q

  -- `Verify` accepts exactly the hash that `Hash` computes.
  pub verify_iff :
      (want run workspace : String) (plan : ExecutionPlan)
      → (verify digest want run workspace plan ≡ accepted)
        ↔ (hash digest run workspace plan ≡ some want)
  unfolding verify
  verify_iff want run workspace plan = elim (Option-cases (hash digest run workspace plan)) [
    | inl e ↦ (λ h. ground arith, λ h. ground arith)
    | inr (got, e) ↦ (λ h. ground (arith, eq_iff want got), λ h. ground (arith, eq_iff want got))
  ]

  -- What is not executed does not count: plans that differ in the recovery guidance, or in `nil`
  -- against an empty slice of patches, commands or criteria, have one hash.
  pub hash_of_executable :
      (run workspace : String) (p q : ExecutionPlan)
      → canonical p ≡ canonical q
      → hash digest run workspace p ≡ hash digest run workspace q
  unfolding hash
  hash_of_executable run workspace p q same =
      ap
        (λ (plan : ExecutionPlan).
          digested digest
            (digest.marshal (record { run_id = run; workspace_id = workspace; plan = plan })))
        same

  hashed :
      (run workspace want : String) (plan : ExecutionPlan)
      → hash digest run workspace plan ≡ some want
      → (raw : String) × (digest.marshal (payload run workspace plan) ≡ some raw)
        × (digest.sha256_hex raw ≡ want)
  unfolding hash
  hashed run workspace want plan h = ground arith

  -- One hash is accepted for one run, one workspace and plans that do the same only, where JSON loses
  -- nothing of a payload, unless just the two payloads have different texts with one digest.
  pub approval_binds :
      (want run run' workspace workspace' : String) (p q : ExecutionPlan)
      → IsLossless
      → verify digest want run workspace p ≡ accepted
      → verify digest want run' workspace' q ≡ accepted
      → DoesSame run run' workspace workspace' p q
        ⊎ Collision (payload run workspace p) (payload run' workspace' q)
  approval_binds want run run' workspace workspace' p q lossless h k =
      let (a, ma, ha) = hashed run workspace want p ((verify_iff want run workspace p).0 h) in
      let (b, mb, hb) = hashed run' workspace' want q ((verify_iff want run' workspace' q).0 k) in
      elim (Bool-cases (str_eq a b)) [
        | inl same ↦ inl (
            payload-DoesSame run run' workspace workspace' p q (
              lossless (payload run workspace p) (payload run' workspace' q) a ma
                (mb ∙ ap some (sym ((eq_iff a b).0 same)))))
        | inr differ ↦ inr (record {
          left = a;
          right = b;
          of_p = ma;
          of_q = mb;
          differ = λ e. cc ((eq_iff a b).1 e);
          same = ha ∙ sym hb;
        })
      ]
