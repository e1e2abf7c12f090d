-- ===== src/Rbac/Password/Examples.antt =====
-- A password of internal/security/rbac/password.go, with a key that is the salt twice.
use ai_council.Prelude.{◌≡◌, ◌++◌, refl, ℕ, List, [], ◌∷◌, codes, length, arith}
use ai_council.Storage.Sql.{ok}
use ai_council.Rbac.Password.{IdKey, Encoded, hash_password, verify_password}
use ai_council.Rbac.Password.Reading.{IsWithin, written, verify_password-ok}
use ai_council.Rbac.Password.RoundTrip.{verify_password-hash_password}

abbrev salt : List ℕ
salt = 1 ∷ 2 ∷ 3 ∷ 4 ∷ 5 ∷ 6 ∷ 7 ∷ 8 ∷ 9 ∷ 10 ∷ 11 ∷ 12 ∷ 13 ∷ 14 ∷ 15 ∷ 255 ∷ []

abbrev doubled : IdKey
doubled password s time memory threads len = s ++ s

verify_password-hash_password_example :
    verify_password doubled (hash_password doubled salt (codes "pw")) (codes "pw") ≡ ok tt
verify_password-hash_password_example =
    verify_password-hash_password doubled salt (codes "pw") (omega arith) refl (omega arith) refl

verify_password-ok_example :
    (before : List ℕ) × (e : Encoded) × IsWithin e
    × (hash_password doubled salt (codes "pw") ≡ written before e)
    × (doubled (codes "pw") e.salt e.iterations e.memory e.threads (length e.want) ≡ e.want)
verify_password-ok_example =
    verify_password-ok doubled (hash_password doubled salt (codes "pw")) (codes "pw")
      verify_password-hash_password_example
