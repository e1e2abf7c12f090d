-- ===== src/HttpAuth/Routes/Tasks.antt =====
-- The paths under /api/v1/tasks/ in internal/transport/council/auth.go.
use Prim.Native.Char.{code}
use ai_council.Prelude.{
  ◌≡◌, refl, ap, ◌∙◌, ℕ, String, false, none, some, List, [], ◌∷◌, ◌++◌, codes, ◌+++◌,
  if◌then◌else◌, str_eq,
}
use ai_council.Rbac.Password.{split, is_nil}
use ai_council.Rbac.Password.Splitting.{split_plain, split_alone}
use ai_council.HttpAuth.{task_route_permission, segments_permission, by_segments}
use ai_council.HttpAuth.Routes.{IsParameter}

pub codes-append : (s t : String) → codes (s +++ t) ≡ codes s ++ codes t
codes-append String.[] t = refl
codes-append (String.◌∷◌ c s) t = ap (λ (xs : List ℕ). code c ∷ xs) (codes-append s t)

pub split-IsParameter :
    (s : String) (rest : List ℕ)
    → IsParameter s
    → split b'/' (codes s ++ b'/' ∷ rest) ≡ codes s ∷ split b'/' rest
split-IsParameter s rest p = split_plain b'/' (codes s) rest p.plain

pub split_last-IsParameter : (s : String) → IsParameter s → split b'/' (codes s) ≡ codes s ∷ []
split_last-IsParameter s p = split_alone b'/' (codes s) p.plain

-- Under a task there is one segment, or more.
pub task_alone :
    (method id : String)
    → IsParameter id
    → task_route_permission method ("/api/v1/tasks/" +++ id)
      ≡ (if str_eq method "GET" then some "task:read" else none)
unfolding task_route_permission
task_alone method id p = rw (split_last-IsParameter id p, p.filled) refl

pub task_action :
    (method id tail : String) (rest : List ℕ)
    → IsParameter id
    → codes tail ≡ b'/' ∷ rest
    → task_route_permission method ("/api/v1/tasks/" +++ id +++ tail)
      ≡ by_segments method (codes id ∷ split b'/' rest)
unfolding task_route_permission
task_action method id tail rest p e = rw (codes-append id tail, e, split-IsParameter id rest p) refl

-- An action of a task.
pub task_known :
    (method id tail : String) (action : List ℕ) {permission : String}
    → IsParameter id
    → codes tail ≡ b'/' ∷ action
    → split b'/' action ≡ action ∷ []
    → is_nil action ≡ false
    → ((task : List ℕ) → segments_permission method (task ∷ action ∷ []) ≡ some permission)
    → task_route_permission method ("/api/v1/tasks/" +++ id +++ tail) ≡ some permission
task_known method id tail action p e s n k =
    task_action method id tail action p e ∙ rw (s, p.filled, n) (k (codes id))

pub artifact_known :
    (id artifact : String)
    → IsParameter id
    → IsParameter artifact
    → task_route_permission "GET" ("/api/v1/tasks/" +++ id +++ "/artifacts/" +++ artifact)
      ≡ some "task:read"
unfolding segments_permission split
artifact_known id artifact p q =
    task_action "GET" id ("/artifacts/" +++ artifact) (codes "artifacts/" ++ codes artifact) p refl
    ∙ rw (split_last-IsParameter artifact q, p.filled, q.filled) refl
