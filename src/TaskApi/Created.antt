-- ===== src/TaskApi/Created.antt =====
-- The tasks that `createTask` of internal/transport/council/routes.go puts into the map.
use ai_council.Prelude.{
  ◌≤◌, All, value, value-format_uint, true, List, Bool, ℕ, pos, suc, ◌≡◌, ◌≢◌, refl, String, false,
  Option, none, some, [], ◌∷◌, items, any, str_eq, eq_refl, eq_iff, codes, itoa, ◌+++◌, ◌||◌, arith,
  Bool-cases, inl, inr, ap, ◌∙◌, sym, subst,
}
use ai_council.RunState.{State}
use ai_council.Council.SafePath.{trim_space, is_nil}
use ai_council.Council.Plan.{is_empty_list}
use ai_council.Storage.Sql.{World}
use ai_council.TaskApi.{Task, EventData, Server, append_event, go, refused}
use ai_council.TaskApi.Effects.{Core, core, core-append_event}
use ai_council.TaskApi.Creation.{
  Api, CreateTaskRequest, lookup, or_not_found, get_task, new_task, save_task, announce, register,
  create_task,
}

-- An identifier that was given out when the counter stood at most at `last`.
pub record IsIssued (last : ℕ) (id : String) : Type 0 where
  pub number : ℕ
  pub counted : number ≤ last
  pub named : id ≡ "task-" +++ itoa (pos number)

-- The keys of the tasks were given out by the counter.
abbrev pub HasIssuedKeys : Api → Type 0
HasIssuedKeys api = All (λ (e : String × Task). IsIssued api.next_id e.0) api.tasks

-- What a creation requires of the request, what the task is, and what becomes of the map: the identifier
-- was free, the task is found under it, and every other identifier finds what it found before.
pub record Created (r : Option CreateTaskRequest) (before after : Api) (t : Task) : Type 0 where
  pub request : CreateTaskRequest
  pub given : r ≡ some request
  pub required : is_nil (trim_space (codes request.requirement)) ≡ false
  pub criteria : is_empty_list (items request.acceptance) ≡ false
  pub known : any (λ w. str_eq w.id request.workspace_id) before.workspaces ≡ true
  pub workspace : t.workspace_id ≡ request.workspace_id
  pub requirement : t.requirement ≡ request.requirement
  pub acceptance : t.acceptance ≡ request.acceptance
  pub state : t.state ≡ State.draft
  pub approved : t.approved ≡ false
  pub unplanned : t.plan.version ≡ t.plan_version
  pub fresh : get_task t.id before ≡ refused 404 "not_found"
  pub found : get_task t.id after ≡ go t
  pub others : (id : String) → id ≢ t.id → get_task id after ≡ get_task id before
  pub issued : HasIssuedKeys after

-- The number of an identifier
number_of : String → ℕ
unfolding value
number_of (String.◌∷◌ a (String.◌∷◌ b (String.◌∷◌ c (String.◌∷◌ d (String.◌∷◌ e s))))) = value 0 s
number_of _ = 0

number_of-issued : (n : ℕ) → number_of ("task-" +++ itoa (pos n)) ≡ n
unfolding number_of itoa
number_of-issued n = value-format_uint n

later-IsIssued : (last : ℕ) (id : String) → IsIssued last id → IsIssued (suc last) id
later-IsIssued last id i =
    let le = i.counted in record { number = i.number; counted = omega (arith, le); named = i.named }

later-All :
    (last : ℕ) (ts : List (String × Task))
    → All (λ (e : String × Task). IsIssued last e.0) ts
    → All (λ (e : String × Task). IsIssued (suc last) e.0) ts
later-All last [] h = tt
later-All last ((key, t) ∷ ts) h = (later-IsIssued last key h.0, later-All last ts h.1)

not_issued :
    (last : ℕ) (key : String)
    → IsIssued last key
    → str_eq key ("task-" +++ itoa (pos (suc last))) ≡ false
not_issued last key i = elim (Bool-cases (str_eq key ("task-" +++ itoa (pos (suc last))))) [
  | inl e ↦
      let le = i.counted in
      let same : i.number ≡ suc last =
        sym (number_of-issued i.number)
        ∙ ap number_of (sym i.named ∙ (eq_iff key ("task-" +++ itoa (pos (suc last)))).0 e)
        ∙ number_of-issued (suc last) in
      absurd (omega (arith, le, same))
  | inr e ↦ e
]

-- The next identifier is free.
lookup-free :
    (last : ℕ) (ts : List (String × Task))
    → All (λ (e : String × Task). IsIssued last e.0) ts
    → lookup ts ("task-" +++ itoa (pos (suc last))) ≡ none
lookup-free last [] h = refl
lookup-free last ((key, t) ∷ ts) h = rw (not_issued last key h.0) (lookup-free last ts h.1)

go_injective : {t u : Task} → go t ≡ go u → t ≡ u
go_injective h = ground arith

absurd_refusal :
    {A : Type 0} {status : ℕ} {code : String} {t : Task} → refused status code ≡ go t → A
absurd_refusal h = ground arith

module _ (server : Server) where
  announce-core :
      (t : Task) (w : World)
      → core (announce server t w) ≡ core (record { task = t; world = w; sent = []; counts = [] })
  unfolding announce
  announce-core t w =
      core-append_event server "task.created" (EventData.the_task t)
        (record { task = t; world = save_task server t w; sent = []; counts = [] })

  announce-request :
      (t : Task) (w : World)
      → ((announce server t w).task.requirement ≡ t.requirement)
        × ((announce server t w).task.acceptance ≡ t.acceptance)
  unfolding announce append_event
  announce-request t w = (ground arith, ground arith)

  get_new :
      (id : String) (t : Task) (rest : List (String × Task)) (after : Api)
      → after.tasks ≡ (id, t) ∷ rest
      → t.id ≡ id
      → get_task t.id after ≡ go t
  unfolding get_task
  get_new id t rest after h e =
      ap (λ ts. or_not_found (lookup ts t.id)) h ∙ rw e (ground (arith, eq_refl id))

  get_other :
      (id other : String) (t : Task) (before after : Api)
      → after.tasks ≡ (id, t) ∷ before.tasks
      → other ≢ id
      → get_task other after ≡ get_task other before
  unfolding get_task
  get_other id other t before after h n = elim (Bool-cases (str_eq id other)) [
    | inl e ↦ elim (n (sym ((eq_iff id other).0 e))) [ ]
    | inr e ↦ ap (λ ts. or_not_found (lookup ts other)) h ∙ rw e refl
  ]

  register-Created :
      (r : CreateTaskRequest) (api : Api) (t : Task)
      → HasIssuedKeys api
      → is_nil (trim_space (codes r.requirement)) ≡ false
      → is_empty_list (items r.acceptance) ≡ false
      → any (λ w. str_eq w.id r.workspace_id) api.workspaces ≡ true
      → (register server r api).0 ≡ go t
      → Created (some r) api (register server r api).1 t
  unfolding register new_task get_task
  register-Created r api t keys e f g h =
      let id = "task-" +++ itoa (pos (suc api.next_id)) in
      let made = announce server (new_task id r) api.world in
      let kept = announce-core (new_task id r) api.world in
      let same : made.task ≡ t = go_injective h in
      let key : made.task.id ≡ id = ap (λ (k : Core). k.id) kept in
      subst (λ u. Created (some r) api (register server r api).1 u) same
        (record {
          request = r;
          given = refl;
          required = e;
          criteria = f;
          known = g;
          workspace = ap (λ (k : Core). k.workspace_id) kept;
          requirement = (announce-request (new_task id r) api.world).0;
          acceptance = (announce-request (new_task id r) api.world).1;
          state = ap (λ (k : Core). k.state) kept;
          approved = ap (λ (k : Core). k.approved) kept;
          unplanned =
              ap (λ (k : Core). k.plan.version) kept ∙ sym (ap (λ (k : Core). k.plan_version) kept);
          fresh =
              ap (λ x. or_not_found (lookup api.tasks x)) key
              ∙ ap or_not_found (lookup-free api.next_id api.tasks keys);
          found = get_new id made.task api.tasks (register server r api).1 refl key;
          others = λ other n.
              get_other id other made.task api (register server r api).1 refl
                (λ e. n (e ∙ sym key));
          issued = (
            record { number = suc api.next_id; counted = omega arith; named = refl },
            later-All api.next_id api.tasks keys,
          );
        })

  -- A creation that succeeds, where the keys of the tasks were given out by the counter, had a
  -- requirement, criteria and a known workspace; the task is a draft in this workspace, not approved,
  -- with the version of its plan; its identifier was free, and finds it afterwards; every other
  -- identifier finds what it found before; and the keys are again ones that the counter gave out.
  pub create_task-Created :
      (r : Option CreateTaskRequest) (api : Api) (t : Task)
      → HasIssuedKeys api
      → (create_task server r api).0 ≡ go t
      → Created r api (create_task server r api).1 t
  unfolding create_task
  create_task-Created none api t keys h = ground arith
  create_task-Created (some r) api t keys h =
      elim (Bool-cases
        (is_nil (trim_space (codes r.requirement)) || is_empty_list (items r.acceptance))) [
          | inl e ↦ absurd_refusal (rw e at h)
          | inr e ↦ elim (Bool-cases (any (λ w. str_eq w.id r.workspace_id) api.workspaces)) [
            | inl f ↦
                let (a, b) = neither _ _ e in
                rw (e, f) (register-Created r api t keys a b f (rw (e, f) at h))
            | inr f ↦ absurd_refusal (rw (e, f) at h)
          ]
        ]
    where
      neither : (a b : Bool) → (a || b) ≡ false → (a ≡ false) × (b ≡ false)
      neither a b h = (ground arith, ground arith)
