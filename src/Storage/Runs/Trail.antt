-- ===== src/Storage/Runs/Trail.antt =====
-- The audit trail of internal/storage/sqlite/run_repository.go: the version of a run counts its
-- audit records, and their sequence numbers leave no gap.
use ai_council.Prelude.{
  ℕ, suc, ◌+◌, ◌^◌, ◌<◌, ◌≤◌, String, ◌≡◌, inl, inr, refl, sym, ◌∙◌, false, Option, some, none,
  Option-cases, List, [], ◌∷◌, arith, find, any, eq_iff, if◌then◌else◌, countdown,
}
use ai_council.RunState.{State}
use ai_council.Storage.Tables.{RunRecord, AuditRecord, Tables, update_where}
use ai_council.Storage.Sql.{Host}
use ai_council.Storage.Runs.{is_run, of_run, at_version, moved, uint64}
use ai_council.Storage.Runs.Effect.{Moved, Created, transition_event}

-- The sequence numbers of a run's audit records, the last first.
abbrev pub history : String → List AuditRecord → List ℕ
history id [] = []
history id (e ∷ es) = if of_run id e then e.sequence ∷ history id es else history id es

-- Every run has exactly the audit records 1, …, version, and is at most at version `bound`; there
-- are no audit records of other runs.
pub record IsAudited (bound : ℕ) (t : Tables) : Type 0 where
  pub trail :
      (id : String) (r : RunRecord)
      → find (is_run id) t.runs ≡ some r
      → (history id t.audits ≡ countdown r.version) × (r.version ≤ bound)
  pub no_trail : (id : String) → find (is_run id) t.runs ≡ none → history id t.audits ≡ []

find_run-id :
    (id : String) (rows : List RunRecord) (r : RunRecord)
    → find (is_run id) rows ≡ some r
    → r.id ≡ id
find_run-id id [] r h = cc
find_run-id id (x ∷ rows) r h = ground (arith, eq_iff x.id id, find_run-id id rows r)

next_version : (v : ℕ) → suc v < 2 ^ 64 → uint64 (v + 1) ≡ suc v
next_version v h = omega arith

abbrev moved_row : RunRecord → State → ℕ → Option RunRecord → Option RunRecord
moved_row current next version none = none
moved_row current next version (some r) =
    some (if at_version current r then moved next version r else r)

find-update_where :
    (id : String) (current : RunRecord) (next : State) (version : ℕ) (rows : List RunRecord)
    → find (is_run id) (update_where (at_version current) (moved next version) rows)
      ≡ moved_row current next version (find (is_run id) rows)
find-update_where id current next version [] = refl
find-update_where id current next version (r ∷ rows) =
    ground (arith, find-update_where id current next version rows)

not_any-find :
    (id : String) (rows : List RunRecord)
    → any (is_run id) rows ≡ false
    → find (is_run id) rows ≡ none
not_any-find id [] h = refl
not_any-find id (r ∷ rows) h = ground (arith, not_any-find id rows)

module _ {host : Host} {bound : ℕ} {before after : Tables} (small : suc bound < 2 ^ 64)
    (inv : IsAudited bound before) where
  pub Created-IsAudited :
      {id : String} {state : State}
      → Created host id state before after
      → IsAudited (suc bound) after
  Created-IsAudited {id} {state} c = rw c.effect (record {
    trail = λ j r p.
        ground (
          arith,
          inv.trail j r,
          inv.no_trail id,
          eq_iff id j,
          not_any-find id before.runs c.unused,
        );
    no_trail = λ j p. ground (arith, inv.no_trail j, eq_iff id j);
  })

  pub Moved-IsAudited :
      {id : String} {next : State} {actor detail : String}
      → Moved host id next actor detail before after
      → IsAudited (suc bound) after
  Moved-IsAudited {id} {next} {actor} {detail} m = rw m.effect (record {
    trail = λ j r p. elim (Option-cases (find (is_run j) before.runs)) [
      | inl absent ↦
          ground
            (arith, find-update_where j m.current next (uint64 (m.current.version + 1)) before.runs)
      | inr (old, q) ↦ trail_of j r old q (
          sym (find-update_where j m.current next (uint64 (m.current.version + 1)) before.runs) ∙ p)
    ];
    no_trail = λ j p.
        no_trail_of j (
          sym (find-update_where j m.current next (uint64 (m.current.version + 1)) before.runs)
          ∙ p);
  })
    where
      trail_of :
          (j : String) (r old : RunRecord)
          → find (is_run j) before.runs ≡ some old
          → moved_row m.current next (uint64 (m.current.version + 1)) (find (is_run j) before.runs)
            ≡ some r
          → (history j (transition_event m.current m.fresh actor detail ∷ before.audits)
              ≡ countdown r.version)
            × (r.version ≤ suc bound)
      trail_of j r old q p = ground (
        arith,
        inv.trail j old q,
        inv.trail id m.current m.found,
        eq_iff m.current.id j,
        find_run-id id before.runs m.current m.found,
        find_run-id j before.runs old q,
        eq_iff old.id m.current.id,
        next_version m.current.version,
      )

      no_trail_of :
          (j : String)
          → moved_row m.current next (uint64 (m.current.version + 1)) (find (is_run j) before.runs)
            ≡ none
          → history j (transition_event m.current m.fresh actor detail ∷ before.audits) ≡ []
      no_trail_of j p = ground (
        arith,
        inv.no_trail j,
        eq_iff m.current.id j,
        find_run-id id before.runs m.current m.found,
      )
