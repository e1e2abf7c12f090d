-- ===== src/RbacApi/RateLimit/Bound.antt =====
-- The bound on the log-in attempts of one client, in internal/transport/council/rbac_routes.go, over
-- every sequence of admissions and completions.
use ai_council.Prelude.{
  ◌≡◌, refl, ap, ◌∙◌, inl, inr, ℕ, suc, ◌+◌, ◌-◌, ◌≤◌, ◌<◌, String, Bool, true, false, some, [],
  ◌∷◌, ◌++◌, length, length-append, str_eq, eq_iff, ltb, Bool-cases, if◌then◌else◌, arith,
}
use ai_council.RbacApi.RateLimit.{
  Limiter, lookup, number, failures_of, pending_of, prune_all_failures, admits, admitted,
  admit_login_attempt, release, note, complete_login_attempt, attempt_limit,
}
use ai_council.RbacApi.RateLimit.Maps.{
  IsMap, lookup-set, lookup-delete, set-IsMap, delete-IsMap, prune-IsMap, length-filter,
  attempts-prune,
}

-- How many attempts of each client are under way: each attempt counts from the answer that admits it
-- until it completes, whatever the limiter has on record.
abbrev pub Underway : Type 0
Underway = String → ℕ

abbrev one_at : String → String → ℕ
one_at ip j = if str_eq ip j then 1 else 0

abbrev pub started : Bool → String → Underway → Underway
started true ip u = λ j. u j + one_at ip j
started false ip u = u

abbrev pub ended : String → Underway → Underway
ended ip u = λ j. u j - one_at ip j

abbrev pub no_attempts : Limiter
no_attempts = record { failures = []; pending = [] }

-- The limiter after any admissions and completions, from a new one on, and what is under way then. An
-- attempt completes only while it is under way.
pub data Reach : Limiter → Underway → Type 0 where
  here : Reach no_attempts (λ ip. 0)
  admitting :
      {a : Limiter} {u : Underway} (now : ℕ) (ip : String)
      → Reach a u
      → Reach (admit_login_attempt now ip a).1 (started (admit_login_attempt now ip a).0 ip u)
  completing :
      {a : Limiter} {u : Underway} (now : ℕ) (ip : String) (failed : Bool)
      → 0 < u ip
      → Reach a u
      → Reach (complete_login_attempt now ip failed a) (ended ip u)

-- The limiter has on record what is under way, and this and the failures of each client are at most
-- five together.
record IsBounded (a : Limiter) (u : Underway) : Type 0 where
  failures : IsMap a.failures
  pending : IsMap a.pending
  recorded : (ip : String) → pending_of ip a ≡ u ip
  bound : (ip : String) → length (failures_of ip a) + pending_of ip a ≤ attempt_limit

prune_all-IsBounded :
    (now : ℕ) (a : Limiter) (u : Underway) → IsBounded a u → IsBounded (prune_all_failures now a) u
unfolding prune_all_failures
prune_all-IsBounded now a u h = record {
  failures = prune-IsMap now a.failures h.failures;
  pending = h.pending;
  recorded = h.recorded;
  bound = λ ip. rw (attempts-prune now ip a.failures h.failures) (
      omega (arith, length-filter (λ t. ltb now (t + 60000000000)) (failures_of ip a), h.bound ip));
}

admits-room :
    (ip : String) (a : Limiter)
    → admits ip a ≡ true
    → length (failures_of ip a) + pending_of ip a < attempt_limit
unfolding admits
admits-room ip a h = ground arith

admitted-IsBounded :
    (ip : String) (a : Limiter) (u : Underway)
    → IsBounded a u
    → IsBounded (admitted ip a).1 (started (admitted ip a).0 ip u)
admitted-IsBounded ip a u h = elim (Bool-cases (admits ip a)) [
  | inl e ↦ rw e (record {
    failures = h.failures;
    pending = set-IsMap ip (suc (pending_of ip a)) a.pending h.pending;
    recorded = λ j. rw (lookup-set j ip (suc (pending_of ip a)) a.pending) (one_up j);
    bound = λ j.
        rw (lookup-set j ip (suc (pending_of ip a)) a.pending) (one_more j (admits-room ip a e));
  })
  | inr e ↦ rw e h
]
  where
    one_up :
        (j : String)
        → number (if str_eq ip j then some (suc (pending_of ip a)) else lookup j a.pending)
          ≡ u j + one_at ip j
    one_up j = elim (Bool-cases (str_eq ip j)) [
      | inl e ↦ rw (e, ← (eq_iff ip j).0 e) (omega (arith, h.recorded ip))
      | inr e ↦ rw e (omega (arith, h.recorded j))
    ]

    one_more :
        (j : String)
        → length (failures_of ip a) + pending_of ip a < attempt_limit
        → length (failures_of j a)
            + number (if str_eq ip j then some (suc (pending_of ip a)) else lookup j a.pending)
          ≤ attempt_limit
    one_more j room = elim (Bool-cases (str_eq ip j)) [
      | inl e ↦ rw (e, ← (eq_iff ip j).0 e) (omega arith)
      | inr e ↦ rw e (h.bound j)
    ]

-- A completion frees an attempt, and notes a failure at most in its place.
pending_of-release :
    (ip : String) (a : Limiter) (j : String)
    → pending_of j (release ip a) ≡ pending_of j a - one_at ip j
pending_of-release ip a j = elim (Bool-cases (ltb 1 (pending_of ip a))) [
  | inl e ↦ rw e (
      rw (lookup-set j ip (pending_of ip a - 1) a.pending) (elim (Bool-cases (str_eq ip j)) [
        | inl s ↦ rw (s, (eq_iff ip j).0 s) refl
        | inr s ↦ rw s (omega arith)
      ]))
  | inr e ↦ rw e (
      rw (lookup-delete j ip a.pending) (elim (Bool-cases (str_eq ip j)) [
        | inl s ↦
            rw s (
              let few : pending_of j a ≤ 1 = rw ((eq_iff ip j).0 s) at (few_of ip e) in omega arith)
        | inr s ↦ rw s (omega arith)
      ]))
]
  where
    few_of : (i : String) → ltb 1 (pending_of i a) ≡ false → pending_of i a ≤ 1
    few_of i q = ground arith

failures_of-note :
    (failed : Bool) (now : ℕ) (ip : String) (b : Limiter) (j : String)
    → length (failures_of j (note failed now ip b)) ≤ length (failures_of j b) + one_at ip j
failures_of-note true now ip b j =
    rw (lookup-set j ip (failures_of ip b ++ now ∷ []) b.failures)
      (elim (Bool-cases (str_eq ip j)) [
        | inl s ↦
            rw (s, ← (eq_iff ip j).0 s) (omega (arith, length-append (failures_of ip b) (now ∷ [])))
        | inr s ↦ rw s (omega arith)
      ])
failures_of-note false now ip b j =
    rw (lookup-delete j ip b.failures)
      (elim (Bool-cases (str_eq ip j)) [ inl s ↦ rw s (omega arith) | inr s ↦ rw s (omega arith) ])

release-pending : (ip : String) (a : Limiter) → IsMap a.pending → IsMap (release ip a).pending
release-pending ip a m = elim (Bool-cases (ltb 1 (pending_of ip a))) [
  | inl e ↦ rw e (set-IsMap ip (pending_of ip a - 1) a.pending m)
  | inr e ↦ rw e (delete-IsMap ip a.pending m)
]

note-failures :
    (failed : Bool) (now : ℕ) (ip : String) (b : Limiter)
    → IsMap b.failures
    → IsMap (note failed now ip b).failures
note-failures true now ip b m = set-IsMap ip (failures_of ip b ++ now ∷ []) b.failures m
note-failures false now ip b m = delete-IsMap ip b.failures m

settled-IsBounded :
    (now : ℕ) (ip : String) (failed : Bool) (a : Limiter) (u : Underway)
    → IsBounded a u
    → 0 < u ip
    → IsBounded (note failed now ip (release ip a)) (ended ip u)
settled-IsBounded now ip failed a u h under_way = record {
  failures = note-failures failed now ip (release ip a) h.failures;
  pending = release-pending ip a h.pending;
  recorded = λ j. pending_of-release ip a j ∙ ap (λ n. n - one_at ip j) (h.recorded j);
  bound = λ j. elim (Bool-cases (str_eq ip j)) [
    | inl s ↦
        let live : 0 < pending_of j a = rw ((eq_iff ip j).0 s, ← h.recorded j) at under_way in
        omega (
          arith,
          rw s at (failures_of-note failed now ip (release ip a) j),
          rw s at (pending_of-release ip a j),
          h.bound j,
        )
    | inr s ↦ omega (
      arith,
      rw s at (failures_of-note failed now ip (release ip a) j),
      rw s at (pending_of-release ip a j),
      h.bound j,
    )
  ];
}

Reach-IsBounded : {a : Limiter} {u : Underway} → Reach a u → IsBounded a u
unfolding admit_login_attempt complete_login_attempt prune_all_failures
Reach-IsBounded here = record {
  failures = tt;
  pending = tt;
  recorded = λ ip. refl;
  bound = λ ip. omega arith;
}
Reach-IsBounded (admitting {a} {u} now ip r) =
    admitted-IsBounded ip (prune_all_failures now a) u
      (prune_all-IsBounded now a u (Reach-IsBounded r))
Reach-IsBounded (completing {a} {u} now ip failed live r) =
    settled-IsBounded now ip failed (prune_all_failures now a) u
      (prune_all-IsBounded now a u (Reach-IsBounded r)) live

-- Whatever log-ins come and go on a new limiter, the failures of a client that are on record and its
-- attempts that are under way are at most five together, as long as only attempts that are under way
-- complete.
pub attempts_bounded :
    {a : Limiter} {u : Underway} (ip : String)
    → Reach a u
    → length (failures_of ip a) + u ip ≤ attempt_limit
attempts_bounded ip r = let h = Reach-IsBounded r in rw (← h.recorded ip) (h.bound ip)
