-- ===== src/Provider.antt =====
-- internal/provider/provider.go and registry.go: models that answer requests.
use ai_council.Prelude.{ℕ, ℤ, String, Option, none, some, List, [], ◌∷◌, str_eq, if◌then◌else◌}

pub record Message : Type 0 where
  pub role : String
  pub content : String

pub record Usage : Type 0 where
  pub input_tokens : ℤ
  pub output_tokens : ℤ
  pub estimated_cost_micros : ℤ

-- The fields of a request that the council sets.
pub record Request : Type 0 where
  pub model : String
  pub messages : List Message

pub record Response : Type 0 where
  pub content : String
  pub usage : Usage

-- `ModelProvider`. A provider may answer the same request in different ways, so `generate` also
-- takes the number of the goroutine that calls it, and of the call in that goroutine; `none` is an
-- error.
pub record ModelProvider : Type 0 where
  pub name : String
  pub generate : ℕ → ℕ → Request → Option Response

-- The map from a name to the provider.
abbrev pub Registry : Type 0
Registry = String → Option ModelProvider

-- `NewRegistry`: of two providers with one name the later one stays.
unfoldable pub register_all : Registry → List ModelProvider → Registry
register_all registry [] = registry
register_all registry (p ∷ ps) =
    register_all (λ name. if str_eq p.name name then some p else registry name) ps

unfoldable pub new_registry : List ModelProvider → Registry
unfolding register_all
new_registry = register_all (λ name. none)
