-- ===== src/Storage/Events/Examples.antt =====
-- Events of internal/storage/sqlite/event_repository.go on a small database.
use ai_council.Prelude.{
  In, All, String, Option, negsuc, ℕ, pos, suc, ◌≡◌, refl, some, [], ◌∷◌, map, take, filter, ltb,
  count_up, eq_iff, false≢true,
}
use ai_council.Storage.Tables.{EventRecord}
use ai_council.Storage.Sql.{ok, World}
use ai_council.Storage.Fixtures.{calm, start}
use ai_council.Storage.Events.{at_sequence, effective_limit, append, after}
use ai_council.Storage.Events.Log.{IsNumbered, events_of, append-IsNumbered, after_pages}

abbrev event : ℕ → ℕ → EventRecord
event n time = record { run_id = "r"; sequence = n; kind = "k"; payload = "p"; created_at = time }

abbrev one : World
one = (append calm "r" "k" (some "p") start).1

abbrev two : World
two = (append calm "r" "k" (some "p") one).1

append_one : (append calm "r" "k" (some "p") start).0 ≡ ok (event 1 2)
unfolding append
append_one = refl

append-IsNumbered_example :
    (1 ≡ suc 0)
    × (◌≡◌ {A = String} "r" "r")
    × (◌≡◌ {A = String} "k" "k")
    × (◌≡◌ {A = Option String} (some "p") (some "p"))
    × (events_of "r" one.tables ≡ event 1 2 ∷ events_of "r" start.tables)
    × (events_of "s" one.tables ≡ events_of "s" start.tables)
    × IsNumbered "r" 1 one.tables
append-IsNumbered_example =
    append-IsNumbered calm "r" "k" "s" (some "p") 0 start refl
      (λ e. false≢true ((eq_iff "s" "r").1 e)) append_one

after-two : (after calm "r" (pos 1) (pos 5) two).0 ≡ ok (event 2 7 ∷ [])
unfolding append after
after-two = refl

-- A number below zero passes over nothing.
after_all : (after calm "r" (negsuc 4) (pos 5) two).0 ≡ ok (event 1 2 ∷ event 2 7 ∷ [])
unfolding append after
after_all = refl

after_pages_example :
    All (λ e. In e (events_of "r" two.tables)) (event 2 7 ∷ [])
    × (map at_sequence (event 2 7 ∷ [])
        ≡ take (effective_limit (pos 5)) (filter (ltb 1) (count_up 2)))
unfolding append
after_pages_example = after_pages calm "r" (pos 1) (pos 5) 2 two refl after-two
