-- ===== src/Storage/Events.antt =====
-- internal/storage/sqlite/event_repository.go: the event log of each run.
pub mod Log
mod Examples
use ai_council.Prelude.{
  ℕ, ℤ, pos, negsuc, suc, ◌+◌, String, Bool, true, false, Option, none, some, List, [], ◌∷◌, str_eq,
  ltb, ◌&&◌, filter, take, sort_by, is_positive, if◌then◌else◌,
}
use ai_council.Storage.Tables.{EventRecord, Tables}
use ai_council.Storage.Sql.{
  Result, ok, err, encoding, Host, Sql, ◌>>=◌, ◌>>◌, pure, fail, statement, now, transaction,
}

abbrev pub of_run : String → EventRecord → Bool
of_run run e = str_eq e.run_id run

-- `sequence > after`
abbrev pub exceeds : ℕ → ℤ → Bool
exceeds sequence (pos after) = ltb after sequence
exceeds sequence (negsuc n) = true

abbrev pub is_after : String → ℤ → EventRecord → Bool
is_after run after e = of_run run e && exceeds e.sequence after

-- The largest sequence number, and 0 where there is no row: the zero value that a `First` without a
-- match leaves.
unfoldable pub last_sequence : List EventRecord → ℕ
last_sequence [] = 0
last_sequence (e ∷ es) =
    let rest = last_sequence es in if ltb rest e.sequence then e.sequence else rest

abbrev pub natural : ℤ → ℕ
natural (pos n) = n
natural _ = 0

-- `if limit <= 0 { limit = 100 }`
abbrev pub effective_limit : ℤ → ℕ
effective_limit limit = if is_positive limit then natural limit else 100

abbrev pub at_sequence : EventRecord → ℕ
at_sequence e = e.sequence

module _ (host : Host) where
  append_raw : String → String → String → Sql EventRecord
  unfolding transaction statement now last_sequence
  append_raw run kind payload = transaction host (do
    last ← statement host (λ t. ok (last_sequence (filter (of_run run) t.events), t))
    time ← now host
    statement host λ t.
        let row : EventRecord = record {
          run_id = run;
          sequence = last + 1;
          kind = kind;
          payload = payload;
          created_at = time;
        } in
        ok (row, record t { events = row ∷ t.events }))

  -- `payload` is what `json.Marshal` returns, `none` for its error.
  unfoldable pub append : String → String → Option String → Sql EventRecord
  unfolding append_raw
  append run kind none = fail encoding
  append run kind (some payload) = append_raw run kind payload

  unfoldable pub after : String → ℤ → ℤ → Sql (List EventRecord)
  unfolding statement sort_by
  after run sequence limit = statement host λ t. ok (
    take (effective_limit limit) (sort_by at_sequence (filter (is_after run sequence) t.events)),
    t,
  )
