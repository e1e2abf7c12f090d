-- ===== src/Storage/Runs/Examples.antt =====
-- Runs of internal/storage/sqlite/run_repository.go on a small database.
use ai_council.Prelude.{◌≡◌, ◌≢◌, refl, some, List, [], ◌∷◌, arith, find, count_up}
use ai_council.RunState.{draft, analyzing, proposing, can_transition}
use ai_council.Storage.Tables.{RunRecord, AuditRecord}
use ai_council.Storage.Sql.{ok, err, illegal_transition, World}
use ai_council.Storage.Fixtures.{calm, start}
use ai_council.Storage.Runs.{is_run, create, transition, advance, load}
use ai_council.Storage.Runs.Trail.{IsAudited}
use ai_council.Storage.Runs.Calls.{
  Call, creating, moving, perform_all, audit_trail_complete, lost_update_refused,
}
use ai_council.Storage.Runs.Loading.{sequences, load_in_order}

abbrev script : List Call
script = creating "r" draft ∷ moving "r" analyzing "system" "go" ∷ []

audit_trail_complete_example : IsAudited 2 (perform_all calm start script).tables
audit_trail_complete_example = audit_trail_complete calm 0 script (omega arith)

abbrev created : World
created = (create calm "r" draft start).1

abbrev row : RunRecord
row = record { id = "r"; state = draft; version = 1 }

advance-row : (advance calm row analyzing "a" "b" created).0 ≡ ok tt
unfolding create advance can_transition
advance-row = refl

lost_update_refused_example :
    (advance calm row analyzing "c" "d" (advance calm row analyzing "a" "b" created).1).0 ≢ ok tt
lost_update_refused_example =
    lost_update_refused calm row analyzing analyzing "a" "c" "b" "d" created (omega arith)
      advance-row

transition_row : (transition calm "r" analyzing "system" "go" created).0 ≡ ok tt
unfolding create transition can_transition
transition_row = refl

transition_refused :
    (transition calm "r" proposing "system" "go" created).0 ≡ err illegal_transition
unfolding create transition can_transition
transition_refused = refl

abbrev first_event : AuditRecord
first_event = record {
  id = "e1";
  run_id = "r";
  sequence = 1;
  kind = "run.created";
  actor = "system";
  detail = "run created";
}

load-created : (load calm "r" created).0 ≡ ok (row, first_event ∷ [])
unfolding create load
load-created = refl

load_in_order_example :
    (find (is_run "r") created.tables.runs ≡ some row) × (sequences (first_event ∷ []) ≡ count_up 1)
unfolding create perform_all
load_in_order_example =
    load_in_order calm "r" created {bound = 1}
      (audit_trail_complete calm 0 (creating "r" draft ∷ []) (omega arith)) load-created
