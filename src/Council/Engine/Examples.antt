-- ===== src/Council/Engine/Examples.antt =====
-- A council of two proposers with providers that answer in one way.
use ai_council.Prelude.{◌≡◌, refl, some, [], ◌∷◌}
use ai_council.Provider.{new_registry}
use ai_council.Council.SafePath.{unix}
use ai_council.Council.Workspace.{validate_workspace_files}
use ai_council.Council.Engine.{ok, propose}
use ai_council.Council.Fixtures.{dialogue, registry, brief, alice, bob, proposals}

proposed : propose dialogue unix (some registry) brief (alice ∷ bob ∷ []) ≡ ok proposals
unfolding propose validate_workspace_files new_registry
proposed = refl
