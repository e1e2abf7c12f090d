-- ===== src/HttpAuth/Header.antt =====
-- What internal/transport/council reads of texts in a header: without the spaces round them, and behind
-- the word `Bearer`, in capital letters or not.
use Prim.Native.Char.{code}
use ai_council.Prelude.{
  ℕ, ◌+◌, String, Bool, ◌&&◌, Option, none, some, List, [], ◌∷◌, leb, ◌==◌, codes, is_empty,
  if◌then◌else◌,
}
use ai_council.Council.SafePath.{is_space}

trim_start : String → String
trim_start String.[] = ""
trim_start (String.◌∷◌ c s) =
    let rest = trim_start s in if is_space (code c) then rest else String.◌∷◌ c s

trim_end : String → String
trim_end String.[] = ""
trim_end (String.◌∷◌ c s) =
    let rest = trim_end s in if is_empty rest && is_space (code c) then "" else String.◌∷◌ c rest

-- `strings.TrimSpace`
unfoldable pub trim : String → String
unfolding trim_start trim_end is_space
trim s = trim_end (trim_start s)

unfoldable pub is_blank : String → Bool
unfolding trim
is_blank s = is_empty (trim s)

abbrev lower : ℕ → ℕ
lower c = if leb b'A' c && leb c b'Z' then c + 32 else c

behind : List ℕ → String → Option String
behind [] s = some s
behind (p ∷ ps) String.[] = none
behind (p ∷ ps) (String.◌∷◌ c s) = if lower (code c) == p then behind ps s else none

abbrev trimmed : Option String → Option String
unfolding trim
trimmed none = none
trimmed (some s) = some (trim s)

-- The token of a header that starts with `Bearer `.
unfoldable pub bearer : String → Option String
unfolding behind trim
bearer raw = trimmed (behind (codes "bearer ") (trim raw))
