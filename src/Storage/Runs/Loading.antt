-- ===== src/Storage/Runs/Loading.antt =====
-- `Load` of internal/storage/sqlite/run_repository.go gives the audit trail in order.
use ai_council.Prelude.{
  ℕ, String, ◌≡◌, refl, ap, ◌∙◌, sort_by, sort_by-countdown, count_up, some, List, [], ◌∷◌, map,
  arith, find, filter,
}
use ai_council.Storage.Tables.{RunRecord, AuditRecord}
use ai_council.Storage.Sql.{ok, Host, World}
use ai_council.Storage.Runs.{is_run, of_run, load}
use ai_council.Storage.Runs.Trail.{IsAudited, history}

abbrev pub sequences : List AuditRecord → List ℕ
sequences = map (λ e. e.sequence)

history-filter :
    (id : String) (es : List AuditRecord) → sequences (filter (of_run id) es) ≡ history id es
history-filter id [] = refl
history-filter id (e ∷ es) = ground (arith, history-filter id es)

module _ (host : Host) where
  load_ok :
      (id : String) (w : World) {run : RunRecord} {events : List AuditRecord}
      → (load host id w).0 ≡ ok (run, events)
      → (find (is_run id) w.tables.runs ≡ some run)
        × (events ≡ sort_by (λ e. e.sequence) (filter (of_run id) w.tables.audits))
  unfolding load
  load_ok id w h = ground arith

  -- A load that succeeds on an audited database gives the stored run, and audit records numbered 1, 2, …, version in this order.
  pub load_in_order :
      (id : String) (w : World) {bound : ℕ} {run : RunRecord} {events : List AuditRecord}
      → IsAudited bound w.tables
      → (load host id w).0 ≡ ok (run, events)
      → (find (is_run id) w.tables.runs ≡ some run) × (sequences events ≡ count_up run.version)
  load_in_order id w {run = run} inv h =
      let (found, sorted) = load_ok id w h in
      (
        found,
        ap sequences sorted
            ∙ sort_by-countdown (λ e. e.sequence) run.version (filter (of_run id) w.tables.audits)
                (history-filter id w.tables.audits ∙ (inv.trail id run found).0),
      )
