-- ===== src/Council/Alias/Examples.antt =====
-- Aliases of internal/council/anonymize.go.
use ai_council.Prelude.{ℕ, pos, ◌≡◌, refl, codes}
use ai_council.Council.Alias.{proposal_alias, proposal_alias_injective}

last_and_next :
    (proposal_alias (pos 25) ≡ codes "Proposal Z") × (proposal_alias (pos 26) ≡ codes "Proposal AA")
unfolding proposal_alias
last_and_next = (refl, refl)

proposal_alias_injective_example : ◌≡◌ {A = ℕ} 27 27
proposal_alias_injective_example = proposal_alias_injective 27 27 refl
