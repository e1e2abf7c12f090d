-- ===== src/TaskService/Consent.antt =====
-- What approvals are to `Execute` of internal/app/task/service.go.
use mathlib.Core.List.{Memᴰ}
use ai_council.Prelude.{
  ◌≡◌, ◌⊎◌, refl, String, ℤ, Bool, true, false, Option, none, some, List, [], ◌∷◌, inl, inr, arith,
  ◌∙◌, sym, ap, Bool-cases, Option-cases, filter, str_eq, subst, if◌then◌else◌,
}
use ai_council.Storage.Tables.{ApprovalRecord, Tables}
use ai_council.Storage.Sql.{Result, ok, err, Host, World}
use ai_council.Storage.Approvals.{current, latest, is_approved, precedes}
use ai_council.TaskService.{
  ApprovedExecution, Session, Service, enter, after_run, send, execute_with, execute,
}

current-tables :
    (host : Host) (run : String) (plan : ℤ) (w : World)
    → (current host run plan w).1.tables ≡ w.tables
unfolding current
current-tables host run plan w = ground arith

newer :
    (x : ApprovalRecord) (xs : List ApprovalRecord) (b a : ApprovalRecord)
    → Memᴰ b xs
    → (if precedes b x then some b else some x) ≡ some a
    → Memᴰ a (x ∷ xs)
newer x xs b a m h = elim (Bool-cases (precedes b x)) [
  | inl e ↦ Memᴰ.tail (subst (λ c. Memᴰ c xs) (ground arith) m)
  | inr e ↦ Memᴰ.head (ground arith)
]

latest-Mem : (as_ : List ApprovalRecord) {a : ApprovalRecord} → latest as_ ≡ some a → Memᴰ a as_
unfolding latest
latest-Mem [] h = ground arith
latest-Mem (x ∷ xs) {a} h = elim (Option-cases (latest xs)) [
  | inl e ↦ Memᴰ.head (ground arith)
  | inr (b, e) ↦ newer x xs b a (latest-Mem xs e) (rw e at h)
]

module _ {A : Type 0} (test : A → Bool) where
  first_kept :
      (x : A) (ys xs : List A) {a : A}
      → (Memᴰ a ys → Memᴰ a xs × (test a ≡ true))
      → test x ≡ true
      → Memᴰ a (x ∷ ys)
      → Memᴰ a (x ∷ xs) × (test a ≡ true)
  first_kept x ys xs rest e (Memᴰ.head p) = (Memᴰ.head p, ap test p ∙ e)
  first_kept x ys xs rest e (Memᴰ.tail m) = let (n, h) = rest m in (Memᴰ.tail n, h)

  filter-Mem : (xs : List A) {a : A} → Memᴰ a (filter test xs) → Memᴰ a xs × (test a ≡ true)
  filter-Mem [] m = elim m [ ]
  filter-Mem (x ∷ xs) {a} m = elim (Bool-cases (test x)) [
    | inl e ↦ first_kept x (filter test xs) xs (λ n. filter-Mem xs n) e (rw e at m)
    | inr e ↦ let (n, h) = filter-Mem xs (rw e at m) in (Memᴰ.tail n, h)
  ]

module _ (service : Service) where
  -- What the runner was asked for: to execute the plan of the task, under an approval of the database
  -- that was given for this run and version and is not invalidated.
  pub record Consented (request : String) (s : Session) (executed : List ApprovedExecution)
      : Type 0 where
    pub approval : ApprovalRecord
    pub listed : Memᴰ approval s.world.tables.approvals
    pub valid : is_approved s.task.run_id s.task.plan_version approval ≡ true
    pub added :
        executed
        ≡ record {
          request_id = request;
          run_id = s.task.run_id;
          workspace_id = s.task.workspace_id;
          approval_hash = approval.snapshot_hash;
          plan = s.task.plan;
        }
          ∷ s.executed

  after_run-executed :
      (passed : Option Bool) (s : Session) → (after_run service passed s).1.executed ≡ s.executed
  unfolding after_run enter
  after_run-executed none s = refl
  after_run-executed (some true) s = refl
  after_run-executed (some false) s = refl

  current-latest :
      (run : String) (plan : ℤ) (w : World) (a : ApprovalRecord)
      → (current service.host run plan w).0 ≡ ok a
      → latest (filter (is_approved run plan) w.tables.approvals) ≡ some a
  unfolding current
  current-latest run plan w a h =
      elim (Option-cases (latest (filter (is_approved run plan) w.tables.approvals))) [
        | inl e ↦ ground arith
        | inr (b, e) ↦ ground arith
      ]

  execute_with-Consented :
      (request : String) (found : Result ApprovalRecord) (s : Session)
      → ((a : ApprovalRecord)
          → found ≡ ok a
          → Memᴰ a s.world.tables.approvals
            × (is_approved s.task.run_id s.task.plan_version a ≡ true))
      → ((execute_with service request found s).1.executed ≡ s.executed)
        ⊎ Consented request s (execute_with service request found s).1.executed
  unfolding execute_with send enter
  execute_with-Consented request (err e) s good = inl refl
  execute_with-Consented request (ok a) s good = elim (Bool-cases (str_eq a.decision "approved")) [
    | inl e ↦
        let (m, v) = good a refl in
        rw e (inr (record { approval = a; listed = m; valid = v; added = after_run-executed _ _ }))
    | inr e ↦ rw e (inl refl)
  ]

  current-Mem :
      (s : Session) (a : ApprovalRecord)
      → (current service.host s.task.run_id s.task.plan_version s.world).0 ≡ ok a
      → Memᴰ a s.world.tables.approvals × (is_approved s.task.run_id s.task.plan_version a ≡ true)
  current-Mem s a h =
      filter-Mem (is_approved s.task.run_id s.task.plan_version) s.world.tables.approvals (
        latest-Mem (filter (is_approved s.task.run_id s.task.plan_version) s.world.tables.approvals)
          (current-latest s.task.run_id s.task.plan_version s.world a h))

  -- The tables of the session in which an approval was looked up are those before.
  same_tables :
      (request : String) (s : Session) (w : World) (executed : List ApprovedExecution)
      → w.tables ≡ s.world.tables
      → Consented request (record s { world = w }) executed
      → Consented request s executed
  same_tables request s w executed e c = record {
    approval = c.approval;
    listed = subst (λ (t : Tables). Memᴰ c.approval t.approvals) e c.listed;
    valid = c.valid;
    added = c.added;
  }

  -- The runner is asked for nothing, or for the plan of the task under the hash of an approval that
  -- the database has for this run and version and that is not invalidated.
  pub execute-Consented :
      (request : String) (s : Session)
      → ((execute service request s).1.executed ≡ s.executed)
        ⊎ Consented request s (execute service request s).1.executed
  unfolding execute
  execute-Consented request s =
      let found = current service.host s.task.run_id s.task.plan_version s.world in
      let same = current-tables service.host s.task.run_id s.task.plan_version s.world in
      elim (execute_with-Consented request found.0 (record s { world = found.1 })
        (λ a h.
          let (m, v) = current-Mem s a h in
          (subst (λ (t : Tables). Memᴰ a t.approvals) (sym same) m, v))) [
            | inl e ↦ inl e
            | inr c ↦ inr (same_tables request s found.1 _ same c)
          ]
