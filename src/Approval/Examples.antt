-- ===== src/Approval/Examples.antt =====
-- Approvals of internal/approval/snapshot.go with a small digest.
use ai_council.Prelude.{
  ℤ, pos, ◌≡◌, ◌⊎◌, refl, sym, ◌∙◌, ap, inl, inr, String, Bool, true, false, ◌&&◌, Option, none,
  some, [], ◌∷◌, Slice, str_eq, eq_iff, int_eq, int_eq_iff, Bool-cases, arith, if◌then◌else◌,
}
use ai_council.Schema.{Patch, Command, ExecutionPlan}
use ai_council.Approval.{Digest, Payload, payload, accepted, hash, verify}
use ai_council.Approval.Binding.{Collision, IsLossless, DoesSame, approval_binds}

abbrev go_test : Command
go_test = record {
  executable = "go";
  args = none;
  work_dir = "";
  timeout_seconds = pos 60;
  purpose = "";
}

abbrev with_parts :
    String
    → String
    → ℤ
    → Slice Patch
    → Slice Command
    → Slice Command
    → Slice String
    → Slice String
    → Payload
with_parts run workspace version patches commands checks acceptance recovery = record {
  run_id = run;
  workspace_id = workspace;
  plan = record {
    version = version;
    patches = patches;
    commands = commands;
    verification_commands = checks;
    acceptance = acceptance;
    recovery = recovery;
  };
}

-- The payloads that the small marshaller takes: one for each run
abbrev made : String → Payload
made run = with_parts run "w" (pos 1) (some []) (some (go_test ∷ [])) (some []) (some []) none

abbrev is_absent : {A : Type 0} → Slice A → Bool
is_absent none = true
is_absent (some xs) = false

abbrev is_empty_slice : {A : Type 0} → Slice A → Bool
is_empty_slice (some []) = true
is_empty_slice _ = false

abbrev is_go_test : Command → Bool
is_go_test c =
    str_eq c.executable "go"
    && (is_absent c.args
        && (str_eq c.work_dir "" && (int_eq c.timeout_seconds (pos 60) && str_eq c.purpose "")))

abbrev is_tested : Slice Command → Bool
is_tested (some (c ∷ [])) = is_go_test c
is_tested _ = false

abbrev is_made : Payload → Bool
is_made p =
    str_eq p.workspace_id "w"
    && (int_eq p.plan.version (pos 1)
        && (is_empty_slice p.plan.patches
            && (is_tested p.plan.commands
                && (is_empty_slice p.plan.verification_commands
                    && (is_empty_slice p.plan.acceptance && is_absent p.plan.recovery)))))

-- A marshaller that keeps the run, and a digest that keeps the text.
toy_marshal : Payload → Option String
toy_marshal p = if is_made p then some p.run_id else none

abbrev toy : Digest
toy = record { marshal = toy_marshal; sha256_hex = λ s. s }

split_and : (a b : Bool) → (a && b) ≡ true → (a ≡ true) × (b ≡ true)
split_and a b h = (ground arith, ground arith)

is_absent-eq : {A : Type 0} (s : Slice A) → is_absent s ≡ true → s ≡ none
is_absent-eq none h = refl
is_absent-eq (some xs) h = ground arith

is_empty_slice-eq : {A : Type 0} (s : Slice A) → is_empty_slice s ≡ true → s ≡ some []
is_empty_slice-eq none h = ground arith
is_empty_slice-eq (some []) h = refl
is_empty_slice-eq (some (x ∷ xs)) h = ground arith

same_command :
    (executable work_dir purpose : String) (args : Slice String) (timeout : ℤ)
    → executable ≡ "go"
    → args ≡ none
    → work_dir ≡ ""
    → timeout ≡ pos 60
    → purpose ≡ ""
    → ◌≡◌ {A = Command}
        (record {
          executable = executable;
          args = args;
          work_dir = work_dir;
          timeout_seconds = timeout;
          purpose = purpose;
        })
        go_test
same_command executable work_dir purpose args timeout a b c d e = rw (a, b, c, d, e) refl

is_go_test-eq : (c : Command) → is_go_test c ≡ true → c ≡ go_test
is_go_test-eq c h =
    let (a, h1) = split_and _ _ h in
    let (b, h2) = split_and _ _ h1 in
    let (d, h3) = split_and _ _ h2 in
    let (e, f) = split_and _ _ h3 in
    same_command c.executable c.work_dir c.purpose c.args c.timeout_seconds
      ((eq_iff c.executable "go").0 a) (is_absent-eq c.args b) ((eq_iff c.work_dir "").0 d)
      ((int_eq_iff c.timeout_seconds (pos 60)).0 e) ((eq_iff c.purpose "").0 f)

is_tested-eq : (s : Slice Command) → is_tested s ≡ true → s ≡ some (go_test ∷ [])
is_tested-eq none h = ground arith
is_tested-eq (some []) h = ground arith
is_tested-eq (some (c ∷ [])) h = ap (λ x. some (x ∷ [])) (is_go_test-eq c h)
is_tested-eq (some (c ∷ d ∷ cs)) h = ground arith

same_parts :
    (run workspace : String) (version : ℤ) (patches : Slice Patch) (commands checks : Slice Command)
    (acceptance recovery : Slice String)
    → workspace ≡ "w"
    → version ≡ pos 1
    → patches ≡ some []
    → commands ≡ some (go_test ∷ [])
    → checks ≡ some []
    → acceptance ≡ some []
    → recovery ≡ none
    → with_parts run workspace version patches commands checks acceptance recovery ≡ made run
same_parts run workspace version patches commands checks acceptance recovery a b c d e f g =
    rw (a, b, c, d, e, f, g) refl

is_made-eq : (p : Payload) → is_made p ≡ true → p ≡ made p.run_id
is_made-eq p h =
    let (a, h1) = split_and _ _ h in
    let (b, h2) = split_and _ _ h1 in
    let (c, h3) = split_and _ _ h2 in
    let (d, h4) = split_and _ _ h3 in
    let (e, h5) = split_and _ _ h4 in
    let (f, g) = split_and _ _ h5 in
    same_parts p.run_id p.workspace_id p.plan.version p.plan.patches p.plan.commands
      p.plan.verification_commands p.plan.acceptance p.plan.recovery
      ((eq_iff p.workspace_id "w").0 a) ((int_eq_iff p.plan.version (pos 1)).0 b)
      (is_empty_slice-eq p.plan.patches c) (is_tested-eq p.plan.commands d)
      (is_empty_slice-eq p.plan.verification_commands e) (is_empty_slice-eq p.plan.acceptance f)
      (is_absent-eq p.plan.recovery g)

toy_marshal-eq : (p : Payload) (raw : String) → toy_marshal p ≡ some raw → p ≡ made raw
unfolding toy_marshal
toy_marshal-eq p raw h = elim (Bool-cases (is_made p)) [
  | inl e ↦
      let same : p.run_id ≡ raw = cc (let k : some p.run_id ≡ some raw = rw e at h in k) in
      rw (← same) (is_made-eq p e)
  | inr e ↦ absurd (cc (let k : none ≡ some raw = rw e at h in k))
]

toy-IsLossless : IsLossless toy
toy-IsLossless p q raw h k = toy_marshal-eq p raw h ∙ sym (toy_marshal-eq q raw k)

abbrev plan : ExecutionPlan
plan = (made "r").plan

-- The same plan with guidance for its recovery, and with `nil` in place of its empty slices
abbrev advised : ExecutionPlan
advised = record plan {
  patches = none;
  verification_commands = none;
  acceptance = none;
  recovery = some ("git reset" ∷ []);
}

approved : verify toy "r" "r" "w" plan ≡ accepted
unfolding verify hash toy_marshal
approved = refl

approved_again : verify toy "r" "r" "w" advised ≡ accepted
unfolding verify hash toy_marshal
approved_again = refl

approval_binds_example :
    DoesSame "r" "r" "w" "w" plan advised
    ⊎ Collision toy (payload "r" "w" plan) (payload "r" "w" advised)
approval_binds_example =
    approval_binds toy "r" "r" "r" "w" "w" plan advised toy-IsLossless approved approved_again
