-- ===== src/Storage/Events/Log.antt =====
-- The events of a run in internal/storage/sqlite/event_repository.go are numbered without a gap,
-- and `After` pages through them.
use ai_council.Prelude.{
  In, All, inl, inr, pos, negsuc, sym, Bool, true, ◌&&◌, Bool-cases, filter-In, take-All,
  sort_by-All, ℕ, ℤ, zero, suc, ◌+◌, String, ◌≡◌, ◌≢◌, refl, ap, ◌∙◌, Option, none, some, List, [],
  ◌∷◌, map, arith, eq_iff, ltb, cons_parts, filter, take, sort_by, sort_by-countdown_above,
  countdown, count_up,
}
use ai_council.Storage.Tables.{EventRecord, Tables}
use ai_council.Storage.Sql.{ok, Host, World}
use ai_council.Storage.Events.{
  of_run, exceeds, natural, is_after, last_sequence, effective_limit, at_sequence, append, after,
}

abbrev pub events_of : String → Tables → List EventRecord
events_of run t = filter (of_run run) t.events

-- The sequence numbers of a run's events, the last first.
abbrev pub log : String → Tables → List ℕ
log run t = map at_sequence (events_of run t)

-- The events of `run` are numbered 1, …, n.
abbrev pub IsNumbered : String → ℕ → Tables → Type 0
IsNumbered run n t = log run t ≡ countdown n

last-countdown :
    (n : ℕ) (es : List EventRecord) → map at_sequence es ≡ countdown n → last_sequence es ≡ n
unfolding last_sequence
last-countdown zero [] h = refl
last-countdown zero (e ∷ es) h = cc
last-countdown (suc n) [] h = cc
last-countdown (suc n) (e ∷ es) h =
    ground (arith, last-countdown n es (cons_parts h).1, (cons_parts h).0)

filter-countdown : (n : ℕ) → filter (ltb 0) (countdown n) ≡ countdown n
filter-countdown zero = refl
filter-countdown (suc n) = ground (arith, filter-countdown n)

filter-is_after :
    (run : String) (k : ℕ) (es : List EventRecord)
    → map at_sequence (filter (is_after run (pos k)) es)
      ≡ filter (ltb k) (map at_sequence (filter (of_run run) es))
filter-is_after run k [] = refl
filter-is_after run k (e ∷ es) = ground (arith, filter-is_after run k es)

filter-all :
    (run : String) (k : ℕ) (es : List EventRecord)
    → map at_sequence (filter (is_after run (negsuc k)) es)
      ≡ map at_sequence (filter (of_run run) es)
filter-all run k [] = refl
filter-all run k (e ∷ es) = ground (arith, filter-all run k es)

-- The numbers of a run's events above `k`, the last first.
numbers_after :
    (run : String) (k : ℤ) (n : ℕ) (es : List EventRecord)
    → map at_sequence (filter (of_run run) es) ≡ countdown n
    → map at_sequence (filter (is_after run k) es) ≡ filter (ltb (natural k)) (countdown n)
numbers_after run (pos k) n es h = filter-is_after run k es ∙ ap (filter (ltb k)) h
numbers_after run (negsuc k) n es h = filter-all run k es ∙ h ∙ sym (filter-countdown n)

map-take :
    (n : ℕ) (es : List EventRecord) → map at_sequence (take n es) ≡ take n (map at_sequence es)
map-take zero es = refl
map-take (suc n) [] = refl
map-take (suc n) (e ∷ es) = rw (map-take n es)

both : (a b : Bool) → (a && b) ≡ true → a ≡ true
both a b h = ground arith

-- What `After` selects are events of the run.
after-In :
    (run : String) (k : ℤ) (es xs : List EventRecord)
    → ((e : EventRecord) → In e xs → In e es)
    → All (λ e. In e (filter (of_run run) es)) (filter (is_after run k) xs)
after-In run k es [] within = tt
after-In run k es (x ∷ xs) within =
    let rest = after-In run k es xs (λ e i. within e (inr i)) in
    elim (Bool-cases (is_after run k x)) [
      | inl e ↦ rw e (
        filter-In (of_run run) es x (within x (inl refl))
            (both (of_run run x) (exceeds x.sequence k) e),
        rest,
      )
      | inr e ↦ rw e rest
    ]

module _ (host : Host) where
  append_ok :
      (run kind : String) (payload : Option String) (w : World) {e : EventRecord}
      → (append host run kind payload w).0 ≡ ok e
      → (e.run_id ≡ run)
        × (e.kind ≡ kind)
        × (some e.payload ≡ payload)
        × (e.sequence ≡ last_sequence (filter (of_run run) w.tables.events) + 1)
        × ((append host run kind payload w).1.tables
            ≡ record w.tables { events = e ∷ w.tables.events })
  unfolding append
  append_ok run kind none w p = cc
  append_ok run kind (some payload) w p = ground arith

  -- An append that succeeds adds its event, with the run, the kind and the payload that were given and
  -- the next number of the run, in front of the events of the run, which are then numbered without a
  -- gap again, and leaves the events of any other run as they were.
  pub append-IsNumbered :
      (run kind other : String) (payload : Option String) (n : ℕ) (w : World) {e : EventRecord}
      → IsNumbered run n w.tables
      → other ≢ run
      → (append host run kind payload w).0 ≡ ok e
      → (e.sequence ≡ suc n)
        × (e.run_id ≡ run)
        × (e.kind ≡ kind)
        × (some e.payload ≡ payload)
        × (events_of run (append host run kind payload w).1.tables ≡ e ∷ events_of run w.tables)
        × (events_of other (append host run kind payload w).1.tables ≡ events_of other w.tables)
        × IsNumbered run (suc n) (append host run kind payload w).1.tables
  append-IsNumbered run kind other payload n w {e} h ne p =
      let (mine, its_kind, its_payload, next, effect) = append_ok run kind payload w p in
      let numbered : e.sequence ≡ suc n =
        omega (arith, last-countdown n (filter (of_run run) w.tables.events) h) in
      (
        numbered,
        mine,
        its_kind,
        its_payload,
        ap (events_of run) effect ∙ ground (arith, eq_iff e.run_id run),
        ap (events_of other) effect ∙ ground (arith, eq_iff e.run_id other),
        ap (log run) effect ∙ ground (arith, eq_iff e.run_id run),
      )

  after_ok :
      (run : String) (k limit : ℤ) (w : World) {es : List EventRecord}
      → (after host run k limit w).0 ≡ ok es
      → es
        ≡ take
            (effective_limit limit)
            (sort_by at_sequence (filter (is_after run k) w.tables.events))
  unfolding after
  after_ok run k limit w h = ground arith

  -- A page that is read after number `k` of a run whose events are numbered without a gap holds, as
  -- they are stored, the first events of the run above `k` in order, up to the limit: none is passed
  -- over, and none comes twice.
  pub after_pages :
      (run : String) (k limit : ℤ) (n : ℕ) (w : World) {es : List EventRecord}
      → IsNumbered run n w.tables
      → (after host run k limit w).0 ≡ ok es
      → All (λ e. In e (events_of run w.tables)) es
        × (map at_sequence es
            ≡ take (effective_limit limit) (filter (ltb (natural k)) (count_up n)))
  after_pages run k limit n w {es} numbered h =
      let e = after_ok run k limit w h in
      (
        rw e (
            take-All (λ x. In x (events_of run w.tables)) (effective_limit limit) _
              (sort_by-All (λ x. In x (events_of run w.tables)) at_sequence _
                (after-In run k w.tables.events w.tables.events (λ x i. i)))),
        ap (map at_sequence) e
            ∙ map-take (effective_limit limit) _
            ∙ ap (take (effective_limit limit)) (
                sort_by-countdown_above at_sequence (natural k) n
                  (filter (is_after run k) w.tables.events)
                  (numbers_after run k n w.tables.events numbered)),
      )
