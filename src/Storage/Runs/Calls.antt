-- ===== src/Storage/Runs/Calls.antt =====
-- Sequences of calls of internal/storage/sqlite/run_repository.go, and two transitions that race.
use ai_council.Prelude.{
  ℕ, suc, ◌+◌, ◌^◌, ◌<◌, String, ◌≡◌, ◌≢◌, inl, inr, refl, List, [], ◌∷◌, arith, length,
}
use ai_council.RunState.{State}
use ai_council.Storage.Tables.{RunRecord, Tables, no_tables, update_where, rows_affected}
use native.Mathlib.Nat.{add-zero, add-suc, suc-add, zero-add}
use ai_council.Storage.Sql.{Result-cases, ok, Host, World}
use ai_council.Storage.Runs.{at_version, moved, uint64, advance, transition, create}
use ai_council.Storage.Runs.Effect.{
  advance_ok, advance-stale, transition-Moved, create-Created, create_error_unchanged,
  transition_error_unchanged,
}
use ai_council.Storage.Runs.Trail.{IsAudited, Created-IsAudited, Moved-IsAudited}

pub data Call : Type 0 where
  creating : String → State → Call
  moving : String → State → String → String → Call

module _ (host : Host) where
  -- A call whose error the caller passes over.
  unfoldable pub perform : World → Call → World
  perform w (creating id state) = (create host id state w).1
  perform w (moving id next actor detail) = (transition host id next actor detail w).1

  unfoldable pub perform_all : World → List Call → World
  unfolding perform
  perform_all w [] = w
  perform_all w (c ∷ cs) = perform_all (perform w c) cs

IsAudited-suc : {bound : ℕ} {t : Tables} → IsAudited bound t → IsAudited (suc bound) t
IsAudited-suc inv = record {
  trail = λ id r p. ground (arith, inv.trail id r p);
  no_trail = inv.no_trail;
}

module _ (host : Host) where
  perform-IsAudited :
      {bound : ℕ} (w : World) (c : Call)
      → suc bound < 2 ^ 64
      → IsAudited bound w.tables
      → IsAudited (suc bound) (perform host w c).tables
  unfolding perform
  perform-IsAudited w (creating id state) small inv =
      elim (Result-cases (create host id state w).0) [
        | inl (tt, p) ↦ Created-IsAudited small inv (create-Created host id state w p)
        | inr (e, p) ↦ rw (create_error_unchanged host id state w p) (IsAudited-suc inv)
      ]
  perform-IsAudited w (moving id next actor detail) small inv =
      elim (Result-cases (transition host id next actor detail w).0) [
        | inl (tt, p) ↦ Moved-IsAudited small inv (transition-Moved host id next actor detail w p)
        | inr (e, p) ↦
            rw (transition_error_unchanged host id next actor detail w p) (IsAudited-suc inv)
      ]

  perform_all-IsAudited :
      (bound : ℕ) (w : World) (cs : List Call)
      → bound + length cs < 2 ^ 64
      → IsAudited bound w.tables
      → IsAudited (bound + length cs) (perform_all host w cs).tables
  unfolding perform_all
  perform_all-IsAudited bound w [] small inv = rw add-zero inv
  perform_all-IsAudited bound w (c ∷ cs) small inv =
      rw (add-suc, ← suc-add)
        (perform_all-IsAudited (suc bound) (perform host w c) cs (omega arith)
          (perform-IsAudited w c (omega arith) inv))

  -- Whatever creations and transitions are made on an empty database, whichever of them fail, every
  -- run has exactly the audit records 1, …, version, as long as fewer than 2 ^ 64 calls are made.
  pub audit_trail_complete :
      (n : ℕ) (cs : List Call)
      → length cs < 2 ^ 64
      → IsAudited
          (length cs)
          (perform_all host (record { tables = no_tables; calls = n }) cs).tables
  audit_trail_complete n cs small = rw zero-add at (
      perform_all-IsAudited 0 (record { tables = no_tables; calls = n }) cs (omega arith)
        (record { trail = λ id r p. cc; no_trail = λ id p. refl }))

  rows_affected-moved :
      (current : RunRecord) (next : State) (rows : List RunRecord)
      → current.version < 2 ^ 64
      → rows_affected
          (at_version current)
          (update_where (at_version current) (moved next (uint64 (current.version + 1))) rows)
        ≡ 0
  rows_affected-moved current next [] small = refl
  rows_affected-moved current next (r ∷ rows) small =
      ground (arith, rows_affected-moved current next rows)

  -- Two transitions that have read the same row: once one of them has succeeded, the other fails.
  pub lost_update_refused :
      (current : RunRecord) (next next' : State) (actor actor' detail detail' : String) (w : World)
      → current.version < 2 ^ 64
      → (advance host current next actor detail w).0 ≡ ok tt
      → (advance host current next' actor' detail' (advance host current next actor detail w).1).0
        ≢ ok tt
  lost_update_refused current next next' actor actor' detail detail' w small h k =
      let first = advance_ok host current next actor detail w h in
      advance-stale host current next' actor' detail' (advance host current next actor detail w).1
        (rw (first.2) (rows_affected-moved current next w.tables.runs small)) k
