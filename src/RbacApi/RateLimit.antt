-- ===== src/RbacApi/RateLimit.antt =====
-- internal/transport/council/rbac_routes.go: the limit on failed log-ins of one client. The maps are
-- association lists with one entry for a key; the clock is read once in an operation, and an instant is
-- a number of nanoseconds.
pub mod Maps
pub mod Bound
use ai_council.Prelude.{
  ℕ, suc, ◌+◌, ◌-◌, String, Bool, true, false, not, ◌&&◌, ◌||◌, Option, none, some, List, [], ◌∷◌,
  ◌++◌, length, filter, any, str_eq, ltb, leb, ◌==◌, if◌then◌else◌,
}

module _ {V : Type 0} where
  abbrev pub lookup : String → List (String × V) → Option V
  lookup key [] = none
  lookup key ((k, v) ∷ rest) = let later = lookup key rest in if str_eq k key then some v else later

  -- `m[key] = v`
  abbrev pub set : String → V → List (String × V) → List (String × V)
  set key v [] = (key, v) ∷ []
  set key v ((k, u) ∷ rest) =
      let later = set key v rest in if str_eq k key then (key, v) ∷ rest else (k, u) ∷ later

  -- `delete(m, key)`
  abbrev pub delete : String → List (String × V) → List (String × V)
  delete key [] = []
  delete key ((k, u) ∷ rest) =
      let later = delete key rest in if str_eq k key then later else (k, u) ∷ later

  abbrev pub has : String → List (String × V) → Bool
  has key [] = false
  has key ((k, u) ∷ rest) = str_eq k key || has key rest

pub record Limiter : Type 0 where
  pub failures : List (String × List ℕ)
  pub pending : List (String × ℕ)

abbrev pub limiter_client_limit : ℕ
limiter_client_limit = 1024

abbrev pub attempt_limit : ℕ
attempt_limit = 5

abbrev pub minute : ℕ
minute = 60000000000

-- `a.failures[ip]`, `a.pending[ip]`
abbrev pub attempts : Option (List ℕ) → List ℕ
attempts none = []
attempts (some times) = times

abbrev pub number : Option ℕ → ℕ
number none = 0
number (some n) = n

abbrev pub failures_of : String → Limiter → List ℕ
failures_of ip a = attempts (lookup ip a.failures)

abbrev pub pending_of : String → Limiter → ℕ
pending_of ip a = number (lookup ip a.pending)

-- `attempt.After(now - minute)`
abbrev pub recent : ℕ → List ℕ → List ℕ
recent now = filter (λ attempt. ltb now (attempt + minute))

abbrev pub unless_empty : String → List ℕ → List (String × List ℕ) → List (String × List ℕ)
unless_empty ip [] rest = rest
unless_empty ip (t ∷ ts) rest = (ip, t ∷ ts) ∷ rest

-- `pruneFailures` for each client
unfoldable pub prune : ℕ → List (String × List ℕ) → List (String × List ℕ)
prune now [] = []
prune now ((ip, times) ∷ rest) = unless_empty ip (recent now times) (prune now rest)

unfoldable pub prune_all_failures : ℕ → Limiter → Limiter
unfolding prune
prune_all_failures now a = record a { failures = prune now a.failures }

-- The clients of `pending` that have no failures.
unfoldable pub only_pending : List (String × List ℕ) → List (String × ℕ) → ℕ
only_pending failures [] = 0
only_pending failures ((ip, n) ∷ rest) =
    let more = only_pending failures rest in if has ip failures then more else suc more

unfoldable pub limiter_clients : Limiter → ℕ
unfolding only_pending
limiter_clients a = length a.failures + only_pending a.failures a.pending

-- Whether the attempt may go on, after the failures have been pruned.
unfoldable pub admits : String → Limiter → Bool
unfolding limiter_clients
admits ip a =
    if not (has ip a.failures)
      && pending_of ip a == 0
      && leb limiter_client_limit (limiter_clients a)
    then false
    else not (leb attempt_limit (length (failures_of ip a) + pending_of ip a))

abbrev pub admitted : String → Limiter → Bool × Limiter
admitted ip a =
    if admits ip a
    then (true, record a { pending = set ip (suc (pending_of ip a)) a.pending })
    else (false, a)

unfoldable pub admit_login_attempt : ℕ → String → Limiter → Bool × Limiter
unfolding prune_all_failures admits
admit_login_attempt now ip a = admitted ip (prune_all_failures now a)

abbrev pub release : String → Limiter → Limiter
release ip a = record a {
  pending =
      if ltb 1 (pending_of ip a)
      then set ip (pending_of ip a - 1) a.pending
      else delete ip a.pending;
}

abbrev pub note : Bool → ℕ → String → Limiter → Limiter
note failed now ip a = record a {
  failures =
      if failed then set ip (failures_of ip a ++ now ∷ []) a.failures else delete ip a.failures;
}

unfoldable pub complete_login_attempt : ℕ → String → Bool → Limiter → Limiter
unfolding prune_all_failures
complete_login_attempt now ip failed a = note failed now ip (release ip (prune_all_failures now a))
