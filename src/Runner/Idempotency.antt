-- ===== src/Runner/Idempotency.antt =====
-- internal/runner/idempotency/store.go: the executions that are running and those that are done, in
-- memory and in the database.
use ai_council.Prelude.{
  ℕ, suc, String, Bool, Option, none, some, List, [], ◌∷◌, str_eq, is_empty, not, ◌||◌, any, find,
  filter, if◌then◌else◌, ◌≡◌, refl, arith, eq_refl,
}
use ai_council.TaskApi.{Response}

pub record ExecutionRecord : Type 0 where
  pub request_id : String
  pub status : String
  pub response_json : String

-- The maps, the table, and the number of database calls so far.
pub record Store : Type 0 where
  pub running : List String
  pub done : List (String × Response)
  pub rows : List ExecutionRecord
  pub calls : ℕ

-- Package protojson, and which calls of the database fail; `db` is whether there is one.
pub record Backend : Type 0 where
  pub db : Bool
  pub fault : ℕ → Bool
  pub marshal : Response → Option String
  pub unmarshal : String → Option Response

abbrev pub lookup : List (String × Response) → String → Option Response
lookup [] id = none
lookup ((key, v) ∷ rest) id = if str_eq key id then some v else lookup rest id

abbrev pub is_running : Store → String → Bool
is_running s id = any (λ x. str_eq x id) s.running

abbrev pub remove : String → List String → List String
remove id xs = filter (λ x. not (str_eq x id)) xs

-- `s.done[id] = v`: the newest entry counts.
abbrev pub set_done : String → Response → Store → Store
set_done id v s = record s { done = (id, v) ∷ s.done }

abbrev tick : Store → Store
tick s = record s { calls = suc s.calls }

-- The answers of `Begin`; the first two come with a function that releases the request or does
-- nothing.
pub data Begun : Type 0 where
  begun nothing_to_release in_progress : Begun

-- The function that `Begin` returns
unfoldable pub release : Begun → String → Store → Store
release begun id s = record s { running = remove id s.running }
release _ id s = s

module _ (backend : Backend) where
  -- `db.First(&rec, "request_id = ?", id)`
  first : String → Store → Option ExecutionRecord
  first id s = if backend.fault s.calls then none else find (λ r. str_eq r.request_id id) s.rows

  cached : String → Option Response → Store → Option Response × Store
  cached id none s = (none, s)
  cached id (some v) s = (some v, set_done id v s)

  recorded : String → Option ExecutionRecord → Store → Option Response × Store
  unfolding cached
  recorded id none s = (none, s)
  recorded id (some r) s =
      if str_eq r.status "running"
      then (none, s)
      else cached id (backend.unmarshal r.response_json) s

  unfoldable pub get : String → Store → Option Response × Store
  unfolding first recorded
  get id s = elim (lookup s.done id) [
    | some v ↦ (some v, s)
    | none ↦ if backend.db then recorded id (first id s) (tick s) else (none, s)
  ]

  decode_response : String → Option Response
  decode_response raw = elim (backend.unmarshal raw) [
    | none ↦ none
    | some v ↦ if is_empty v.request_id then none else some v
  ]

  abbrev start_running : String → Store → Begun × Store
  start_running id s = (begun, record s { running = id ∷ s.running })

  -- `db.Create`, whose error is reported as a request in progress after one more look.
  create_row : String → Store → Begun × Store
  create_row id s =
      if backend.fault s.calls || any (λ r. str_eq r.request_id id) s.rows
      then (in_progress, tick (tick s))
      else start_running id (record s {
        calls = suc s.calls;
        rows = record { request_id = id; status = "running"; response_json = "{}" } ∷ s.rows;
      })

  begin_row : String → Option ExecutionRecord → Store → Begun × Store
  unfolding decode_response create_row
  begin_row id none s = create_row id s
  begin_row id (some r) s =
      if str_eq r.status "running"
      then (in_progress, s)
      else elim (decode_response r.response_json) [
        | some v ↦ (nothing_to_release, set_done id v s)
        | none ↦ create_row id s
      ]

  unfoldable pub begin : String → Store → Begun × Store
  unfolding first begin_row
  begin id s = elim (lookup s.done id) [
    | some v ↦ (nothing_to_release, s)
    | none ↦
        if is_running s id
        then (in_progress, s)
        else if backend.db
        then begin_row id (first id s) (tick s)
        else start_running id s
  ]

  -- `db.Save`
  save_row : String → Option String → Store → Store
  save_row id none s = s
  save_row id (some raw) s = if backend.fault s.calls then tick s else record s {
    calls = suc s.calls;
    rows =
        record { request_id = id; status = "complete"; response_json = raw }
        ∷ filter (λ r. not (str_eq r.request_id id)) s.rows;
  }

  unfoldable pub complete : String → Response → Store → Store
  unfolding save_row
  complete id response s =
      let t = set_done id response (record s { running = remove id s.running }) in
      if backend.db then save_row id (backend.marshal response) t else t

  pub get_done :
      (id : String) (v : Response) (s : Store) → lookup s.done id ≡ some v → get id s ≡ (some v, s)
  unfolding get
  get_done id v s h = rw (get, h) refl

  pub complete_done :
      (id : String) (v : Response) (s : Store) → lookup (complete id v s).done id ≡ some v
  unfolding complete save_row
  complete_done id v s = ground (arith, eq_refl id)

  -- What is got is kept in memory.
  pub get_stores :
      (id : String) (s : Store) (v : Response)
      → (get id s).0 ≡ some v
      → lookup (get id s).1.done id ≡ some v
  unfolding get recorded
  get_stores id s v h = ground (arith, eq_refl id)
