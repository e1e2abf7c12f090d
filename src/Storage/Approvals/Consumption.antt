-- ===== src/Storage/Approvals/Consumption.antt =====
-- An approval of internal/storage/sqlite/approval_repository.go is used at most once.
use ai_council.Prelude.{
  ℕ, ℤ, suc, ◌≤◌, String, ◌≡◌, ◌≢◌, refl, ap, ◌∙◌, ◌⊎◌, inl, inr, Bool, true, false, List, [], ◌∷◌,
  arith, if◌then◌else◌, str_eq, int_eq, ◌&&◌, eq_iff, int_eq_iff, Bool-cases,
}
use ai_council.Storage.Tables.{ApprovalRecord, Tables, update_where, rows_affected}
use ai_council.Storage.Sql.{Result, ok, err, Host, World}
use ai_council.Storage.Approvals.{
  is_valid, is_active, is_startable, invalidated, consumed, started, invalidate, consume,
  consume_and_mark_executing, current,
}

-- The number of approvals that a consumption would find.
abbrev pub active : String → ℤ → String → World → ℕ
active run plan hash w = rows_affected (is_active run plan hash) w.tables.approvals

active-invalidated :
    (run : String) (plan : ℤ) (hash other : String) (time : ℕ) (rows : List ApprovalRecord)
    → rows_affected
        (is_active run plan hash)
        (update_where (is_valid other) (invalidated time) rows)
      ≤ rows_affected (is_active run plan hash) rows
active-invalidated run plan hash other time [] = omega arith
active-invalidated run plan hash other time (a ∷ rows) =
    ground (arith, active-invalidated run plan hash other time rows)

active-consumed :
    (run run' : String) (plan plan' : ℤ) (hash hash' : String) (time : ℕ)
    (rows : List ApprovalRecord)
    → rows_affected
        (is_active run plan hash)
        (update_where (is_active run' plan' hash') (consumed time) rows)
      ≤ rows_affected (is_active run plan hash) rows
active-consumed run run' plan plan' hash hash' time [] = omega arith
active-consumed run run' plan plan' hash hash' time (a ∷ rows) =
    ground (arith, active-consumed run run' plan plan' hash hash' time rows)

active-consumed_self :
    (run : String) (plan : ℤ) (hash : String) (time : ℕ) (rows : List ApprovalRecord)
    → rows_affected
        (is_active run plan hash)
        (update_where (is_active run plan hash) (consumed time) rows)
      ≡ 0
active-consumed_self run plan hash time [] = refl
active-consumed_self run plan hash time (a ∷ rows) =
    ground (arith, active-consumed_self run plan hash time rows)

module _ (host : Host) (run : String) (plan : ℤ) (hash : String) where
  -- The answer `true` consumed the one active approval and started the one matching task.
  pub consume_and_mark_executing-true :
      (w : World)
      → (consume_and_mark_executing host run plan hash w).0 ≡ ok true
      → (active run plan hash w ≡ 1)
        × (rows_affected (is_startable run plan hash) w.tables.tasks ≡ 1)
        × ((consume_and_mark_executing host run plan hash w).1.tables ≡ record w.tables {
          approvals =
              update_where
                (is_active run plan hash)
                (consumed (host.clock w.calls))
                w.tables.approvals;
          tasks = update_where (is_startable run plan hash) started w.tables.tasks;
        })
  unfolding consume_and_mark_executing
  consume_and_mark_executing-true w h = ground arith

  -- Any other outcome, the answer `false` or an error, leaves every table as it was.
  pub consume_and_mark_executing_otherwise :
      (w : World)
      → (consume_and_mark_executing host run plan hash w).0 ≢ ok true
      → (consume_and_mark_executing host run plan hash w).1.tables ≡ w.tables
  unfolding consume_and_mark_executing
  consume_and_mark_executing_otherwise w h = ground arith

-- The calls that touch approvals without making a new one.
pub data Call : Type 0 where
  reading : String → ℤ → Call
  invalidating : String → Call
  consuming starting : String → ℤ → String → Call

abbrev is_yes : Result Bool → Bool
is_yes (ok b) = b
is_yes (err e) = false

yes-cases :
    (r : Result Bool) → ((is_yes r ≡ true) × (r ≡ ok true)) ⊎ ((is_yes r ≡ false) × (r ≢ ok true))
yes-cases (ok true) = inl (refl, refl)
yes-cases (ok false) = inr (refl, λ e. cc)
yes-cases (err e) = inr (refl, λ e. cc)

module _ (host : Host) where
  unfoldable pub perform : World → Call → World
  perform w (reading run plan) = (current host run plan w).1
  perform w (invalidating run) = (invalidate host run w).1
  perform w (consuming run plan hash) = (consume host run plan hash w).1
  perform w (starting run plan hash) = (consume_and_mark_executing host run plan hash w).1

  -- Is this a consumption of the given approval, and is it granted?
  unfoldable pub is_grant : String → ℤ → String → World → Call → Bool
  is_grant run plan hash w (consuming run' plan' hash') =
      (str_eq run' run && (int_eq plan' plan && str_eq hash' hash))
      && is_yes (consume host run' plan' hash' w).0
  is_grant run plan hash w (starting run' plan' hash') =
      (str_eq run' run && (int_eq plan' plan && str_eq hash' hash))
      && is_yes (consume_and_mark_executing host run' plan' hash' w).0
  is_grant run plan hash w _ = false

  unfoldable pub grants : String → ℤ → String → World → List Call → ℕ
  unfolding perform is_grant
  grants run plan hash w [] = 0
  grants run plan hash w (c ∷ cs) =
      let rest = grants run plan hash (perform w c) cs in
      if is_grant run plan hash w c then suc rest else rest

  module _ (run : String) (plan : ℤ) (hash : String) where
    active-perform :
        (w : World) (c : Call) → active run plan hash (perform w c) ≤ active run plan hash w
    unfolding perform current invalidate consume
    active-perform w (reading run' plan') = ground arith
    active-perform w (invalidating run') =
        ground
          (arith, active-invalidated run plan hash run' (host.clock w.calls) w.tables.approvals)
    active-perform w (consuming run' plan' hash') = ground (
      arith,
      active-consumed run run' plan plan' hash hash' (host.clock w.calls) w.tables.approvals,
    )
    active-perform w (starting run' plan' hash') =
        elim (yes-cases (consume_and_mark_executing host run' plan' hash' w).0) [
          | inl (_, p) ↦ omega (
            arith,
            ap (λ (t : Tables). rows_affected (is_active run plan hash) t.approvals)
                (consume_and_mark_executing-true host run' plan' hash' w p).2,
            active-consumed run run' plan plan' hash hash' (host.clock w.calls) w.tables.approvals,
          )
          | inr (_, p) ↦ omega (
            arith,
            ap (λ (t : Tables). rows_affected (is_active run plan hash) t.approvals)
                (consume_and_mark_executing_otherwise host run' plan' hash' w p),
          )
        ]

    consume_used :
        (w : World)
        → is_yes (consume host run plan hash w).0 ≡ true
        → (active run plan hash w ≡ 1) × (active run plan hash (consume host run plan hash w).1 ≡ 0)
    unfolding consume
    consume_used w h =
        ground (arith, active-consumed_self run plan hash (host.clock w.calls) w.tables.approvals)

    start_used :
        (w : World)
        → is_yes (consume_and_mark_executing host run plan hash w).0 ≡ true
        → (active run plan hash w ≡ 1)
          × (active run plan hash (consume_and_mark_executing host run plan hash w).1 ≡ 0)
    start_used w h = elim (yes-cases (consume_and_mark_executing host run plan hash w).0) [
      | inl (_, p) ↦
          let (one, _, effect) = consume_and_mark_executing-true host run plan hash w p in
          (
            one,
            ap (λ (t : Tables). rows_affected (is_active run plan hash) t.approvals) effect
                ∙ active-consumed_self run plan hash (host.clock w.calls) w.tables.approvals,
          )
      | inr (q, _) ↦ cc
    ]

    same_key :
        (run' : String) (plan' : ℤ) (hash' : String) (granted : Bool)
        → ((str_eq run' run && (int_eq plan' plan && str_eq hash' hash)) && granted) ≡ true
        → (run' ≡ run) × (plan' ≡ plan) × (hash' ≡ hash) × (granted ≡ true)
    same_key run' plan' hash' granted h =
        ground (arith, eq_iff run' run, int_eq_iff plan' plan, eq_iff hash' hash)

    grant_used :
        (w : World) (c : Call)
        → is_grant run plan hash w c ≡ true
        → (active run plan hash w ≡ 1) × (active run plan hash (perform w c) ≡ 0)
    unfolding is_grant perform
    grant_used w (consuming run' plan' hash') h =
        let (p, q, r, granted) = same_key run' plan' hash' _ h in
        rw (p, q, r) (consume_used w (rw (p, q, r) at granted))
    grant_used w (starting run' plan' hash') h =
        let (p, q, r, granted) = same_key run' plan' hash' _ h in
        rw (p, q, r) (start_used w (rw (p, q, r) at granted))
    grant_used w _ h = cc

    none_left :
        (w : World) (cs : List Call) → active run plan hash w ≡ 0 → grants run plan hash w cs ≡ 0
    unfolding grants
    none_left w [] h = refl
    none_left w (c ∷ cs) h = elim (Bool-cases (is_grant run plan hash w c)) [
      | inl used ↦ absurd (omega (arith, grant_used w c used))
      | inr other ↦ rw other (none_left (perform w c) cs (omega (arith, active-perform w c)))
    ]

    -- Whatever the order of reads, invalidations and consumptions, and whichever of them fail: as
    -- long as no new approval is saved, the approval of one plan is granted at most once.
    pub consumed_at_most_once : (w : World) (cs : List Call) → grants run plan hash w cs ≤ 1
    unfolding grants
    consumed_at_most_once w [] = omega arith
    consumed_at_most_once w (c ∷ cs) = elim (Bool-cases (is_grant run plan hash w c)) [
      | inl used ↦ rw used (omega (arith, none_left (perform w c) cs (grant_used w c used).1))
      | inr other ↦ rw other (consumed_at_most_once (perform w c) cs)
    ]
