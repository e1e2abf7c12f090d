-- ===== src/RbacApi/Examples.antt =====
-- Log-ins of one client behind the limiter of internal/transport/council/rbac_routes.go.
use ai_council.Prelude.{◌≡◌, ◌+◌, ◌≤◌, refl, true, length, arith}
use ai_council.RbacApi.RateLimit.{
  Limiter, failures_of, attempt_limit, admit_login_attempt, complete_login_attempt,
}
use ai_council.RbacApi.RateLimit.Bound.{
  Underway, no_attempts, started, ended, Reach, here, admitting, completing, attempts_bounded,
}

abbrev once : Limiter
once = (admit_login_attempt 5 "10.0.0.1" no_attempts).1

abbrev twice : Limiter
twice = (admit_login_attempt 6 "10.0.0.1" once).1

abbrev failed_once : Limiter
failed_once = complete_login_attempt 7 "10.0.0.1" true twice

abbrev under_way : Underway
under_way = ended "10.0.0.1" (
    started (admit_login_attempt 6 "10.0.0.1" once).0 "10.0.0.1"
      (started (admit_login_attempt 5 "10.0.0.1" no_attempts).0 "10.0.0.1" (λ ip. 0)))

attempt : Reach failed_once under_way
unfolding admit_login_attempt complete_login_attempt
attempt =
    completing 7 "10.0.0.1" true (omega arith)
      (admitting 6 "10.0.0.1" (admitting 5 "10.0.0.1" here))

-- One failure, and one attempt that is under way
counted : length (failures_of "10.0.0.1" failed_once) + under_way "10.0.0.1" ≡ 2
unfolding admit_login_attempt complete_login_attempt
counted = refl

attempts_bounded_example :
    length (failures_of "10.0.0.1" failed_once) + under_way "10.0.0.1" ≤ attempt_limit
attempts_bounded_example = attempts_bounded "10.0.0.1" attempt
