-- ===== src/Storage/Runs/Effect.antt =====
-- What internal/storage/sqlite/run_repository.go does to the tables, on every outcome.
use ai_council.Prelude.{
  suc, ◌+◌, String, ◌≡◌, ◌≢◌, any, Option-cases, inl, inr, true, false, some, none, ◌∷◌, arith,
  find,
}
use ai_council.RunState.{State, can_transition}
use ai_council.Storage.Tables.{RunRecord, AuditRecord, Tables, update_where, rows_affected}
use ai_council.Storage.Sql.{ok, err, Error, Host, World}
use ai_council.Storage.Runs.{is_run, at_version, moved, uint64, advance, transition, create}

abbrev pub transition_event : RunRecord → String → String → String → AuditRecord
transition_event current fresh actor detail = record {
  id = fresh;
  run_id = current.id;
  sequence = uint64 (current.version + 1);
  kind = "state.transition";
  actor = actor;
  detail = detail;
}

abbrev pub creation_event : String → String → AuditRecord
creation_event id fresh = record {
  id = fresh;
  run_id = id;
  sequence = 1;
  kind = "run.created";
  actor = "system";
  detail = "run created";
}

module _ (host : Host) where
  -- A transition that succeeds was legal; it moved the rows at the version that it read and added
  -- one audit record.
  pub record Moved (id : String) (next : State) (actor detail : String) (before after : Tables)
      : Type 0 where
    pub current : RunRecord
    pub fresh : String
    pub found : find (is_run id) before.runs ≡ some current
    pub legal : can_transition current.state next ≡ true
    pub effect : after ≡ record before {
      runs =
          update_where (at_version current) (moved next (uint64 (current.version + 1))) before.runs;
      audits = transition_event current fresh actor detail ∷ before.audits;
    }

  pub advance_ok :
      (current : RunRecord) (next : State) (actor detail : String) (w : World)
      → (advance host current next actor detail w).0 ≡ ok tt
      → (fresh : String) × (can_transition current.state next ≡ true)
        × ((advance host current next actor detail w).1.tables ≡ record w.tables {
          runs =
              update_where
                (at_version current)
                (moved next (uint64 (current.version + 1)))
                w.tables.runs;
          audits = transition_event current fresh actor detail ∷ w.tables.audits;
        })
  unfolding advance
  advance_ok current next actor detail w h = (host.fresh (suc w.calls), ground arith, ground arith)

  pub advance-stale :
      (current : RunRecord) (next : State) (actor detail : String) (w : World)
      → rows_affected (at_version current) w.tables.runs ≡ 0
      → (advance host current next actor detail w).0 ≢ ok tt
  unfolding advance
  advance-stale current next actor detail w z h = ground arith

  transition-none :
      (id : String) (next : State) (actor detail : String) (w : World)
      → find (is_run id) w.tables.runs ≡ none
      → (transition host id next actor detail w).0 ≢ ok tt
  unfolding transition
  transition-none id next actor detail w p h = ground arith

  -- What a transition that succeeds has done.
  pub transition-Moved :
      (id : String) (next : State) (actor detail : String) (w : World)
      → (transition host id next actor detail w).0 ≡ ok tt
      → Moved id next actor detail w.tables (transition host id next actor detail w).1.tables
  unfolding transition
  transition-Moved id next actor detail w h = elim (Option-cases (find (is_run id) w.tables.runs)) [
    | inl p ↦ absurd (transition-none id next actor detail w p h)
    | inr (current, p) ↦ record {
      current = current;
      fresh = host.fresh (suc (suc (suc w.calls)));
      found = p;
      legal = ground arith;
      effect = ground arith;
    }
  ]

  -- What a creation that succeeds has done: a run at version 1, with one audit record.
  pub record Created (id : String) (state : State) (before after : Tables) : Type 0 where
    pub fresh : String
    pub unused : any (is_run id) before.runs ≡ false
    pub effect : after ≡ record before {
      runs = record { id = id; state = state; version = 1 } ∷ before.runs;
      audits = creation_event id fresh ∷ before.audits;
    }

  pub create-Created :
      (id : String) (state : State) (w : World)
      → (create host id state w).0 ≡ ok tt
      → Created id state w.tables (create host id state w).1.tables
  unfolding create
  create-Created id state w h = record {
    fresh = host.fresh (suc (suc w.calls));
    unused = ground arith;
    effect = ground arith;
  }

  -- A call that returns an error has changed no table.
  pub create_error_unchanged :
      (id : String) (state : State) (w : World) {e : Error}
      → (create host id state w).0 ≡ err e
      → (create host id state w).1.tables ≡ w.tables
  unfolding create
  create_error_unchanged id state w h = ground arith

  pub transition_error_unchanged :
      (id : String) (next : State) (actor detail : String) (w : World) {e : Error}
      → (transition host id next actor detail w).0 ≡ err e
      → (transition host id next actor detail w).1.tables ≡ w.tables
  unfolding transition
  transition_error_unchanged id next actor detail w h = ground arith
