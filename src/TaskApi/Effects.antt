-- ===== src/TaskApi/Effects.antt =====
-- What the parts of a handler of internal/transport/council/routes.go leave alone: a way to follow a
-- handler from one part to the next.
use ai_council.Prelude.{ℤ, ◌≡◌, refl, String, Bool, true, false, List, if◌then◌else◌, arith, ◌∙◌}
use ai_council.Schema.{ExecutionPlan}
use ai_council.RunState.{State}
use ai_council.Storage.Sql.{Result, ok, err}
use ai_council.TaskApi.{
  EventData, Request, Server, Ctx, Answer, go, refused, Act, ◌>>=◌, continue, pure, or_refuse,
  append_event, persist_task, transition_task,
}

-- The fields of a task on which the approval and the request depend, and what was sent.
pub record Core : Type 0 where
  pub id : String
  pub workspace_id : String
  pub state : State
  pub approved : Bool
  pub plan_version : ℤ
  pub approval_hash : String
  pub plan : ExecutionPlan
  pub sent : List Request

abbrev pub core : Ctx → Core
core c = record {
  id = c.task.id;
  workspace_id = c.task.workspace_id;
  state = c.task.state;
  approved = c.task.approved;
  plan_version = c.task.plan_version;
  approval_hash = c.task.approval_hash;
  plan = c.task.plan;
  sent = c.sent;
}

-- A handler ends in `Q` where it goes on, and in `R` where it has refused.
abbrev pub Ends : {A : Type 0} → (A → Core → Type 0) → (Core → Type 0) → Answer A × Ctx → Type 0
Ends Q R (go a, c) = Q a (core c)
Ends Q R (refused status code, c) = R (core c)

pub bind-Ends :
    {A B : Type 0} (P : A → Core → Type 0) (Q : B → Core → Type 0) (R : Core → Type 0)
    (r : Answer A × Ctx) (f : A → Act B)
    → Ends P R r
    → ((a : A) (c : Ctx) → P a (core c) → Ends Q R (f a c))
    → Ends Q R (continue r.0 f r.1)
bind-Ends P Q R (go a, c) f p next = next a c p
bind-Ends P Q R (refused status code, c) f p next = p

-- Where the result does not count.
pub always-Ends :
    {A : Type 0} (P : Core → Type 0) (r : Answer A × Ctx) → P (core r.1) → Ends (λ a. P) P r
always-Ends P (go a, c) p = p
always-Ends P (refused status code, c) p = p

pub Ends-always :
    {A : Type 0} (P : Core → Type 0) (r : Answer A × Ctx) → Ends (λ a. P) P r → P (core r.1)
Ends-always P (go a, c) p = p
Ends-always P (refused status code, c) p = p

pub weaken-Ends :
    {A : Type 0} (Q Q' : A → Core → Type 0) (R R' : Core → Type 0) (r : Answer A × Ctx)
    → ((a : A) (k : Core) → Q a k → Q' a k)
    → ((k : Core) → R k → R' k)
    → Ends Q R r
    → Ends Q' R' r
weaken-Ends Q Q' R R' (go a, c) q t p = q a (core c) p
weaken-Ends Q Q' R R' (refused status code, c) q t p = t (core c) p

pub if-Ends :
    {A : Type 0} (Q : A → Core → Type 0) (R : Core → Type 0) (b : Bool) (m n : Act A) (c : Ctx)
    → (b ≡ true → Ends Q R (m c))
    → (b ≡ false → Ends Q R (n c))
    → Ends Q R ((if b then m else n) c)
if-Ends Q R true m n c yes_ no_ = yes_ refl
if-Ends Q R false m n c yes_ no_ = no_ refl

-- An error becomes a refusal, and nothing else happens.
pub or_refuse-Ends :
    {A : Type 0} (P : Core → Type 0) (code : String) (r : Result A) (c : Ctx)
    → P (core c)
    → Ends (λ a. P) P (or_refuse code r c)
or_refuse-Ends P code (ok a) c p = p
or_refuse-Ends P code (err e) c p = p

module _ (server : Server) where
  pub core-append_event :
      (kind : String) (data_ : EventData) (c : Ctx)
      → core (append_event server kind data_ c).1 ≡ core c
  unfolding append_event
  core-append_event kind data_ c = ground arith

  pub core-persist_task : (c : Ctx) → core (persist_task server c).1 ≡ core c
  unfolding persist_task
  core-persist_task c = ground arith

  after_save :
      (s : State) (r : Answer (Result (Unit {0})) × Ctx)
      → core
          (continue r.0
            (λ (saved : Result (Unit {0})). elim saved [
              | ok _ ↦ append_event server "state.changed" (EventData.the_state s)
              | err e ↦ pure (err e)
            ])
            r.1).1
        ≡ core r.1
  after_save s (go (ok _), c) = core-append_event "state.changed" (EventData.the_state s) c
  after_save s (go (err e), c) = refl
  after_save s (refused status code, c) = refl

  pub core-transition_task :
      (s : State) (c : Ctx) → core (transition_task server s c).1 ≡ record (core c) { state = s }
  unfolding transition_task
  core-transition_task s c =
      after_save s (persist_task server (record c { task = record c.task { state = s } }))
      ∙ core-persist_task (record c { task = record c.task { state = s } })

  -- A transition sets the state, and an error of it may become a refusal.
  pub move-Ends :
      (P : Core → Type 0) (code : String) (s : State) (c : Ctx)
      → P (record (core c) { state = s })
      → Ends (λ a. P) P ((transition_task server s >>= λ moved. or_refuse code moved) c)
  move-Ends P code s c p =
      bind-Ends (λ a. P) (λ a. P) P (transition_task server s c) (λ moved. or_refuse code moved)
        (always-Ends P (transition_task server s c) (rw (core-transition_task s c) p))
        (λ moved d. or_refuse-Ends P code moved d)
