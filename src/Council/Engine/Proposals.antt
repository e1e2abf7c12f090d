-- ===== src/Council/Engine/Proposals.antt =====
-- What the proposals of internal/council/engine.go are.
use ai_council.Prelude.{ℕ, suc, ◌≡◌, refl, some, List, [], ◌∷◌, map, arith}
use ai_council.Schema.{TaskBrief, Proposal}
use ai_council.Provider.{Registry}
use ai_council.Council.SafePath.{Platform}
use ai_council.Council.Engine.{
  Seat, Generated, ok, Dialogue, aliased, collect, propose_seat, propose_seats, propose,
}

-- The seats under the aliases of their places, from place `i` on.
abbrev pub aliased_from : ℕ → List Seat → List Seat
aliased_from i [] = []
aliased_from i (s ∷ ss) = aliased i s ∷ aliased_from (suc i) ss

module _ (dialogue : Dialogue) (registry : Registry) (brief : TaskBrief) where
  seat-propose_seat :
      (i : ℕ) (s : Seat) (g : Generated Proposal)
      → propose_seat dialogue registry brief i s ≡ ok g
      → g.seat ≡ aliased i s
  unfolding propose_seat
  seat-propose_seat i s g h = ground arith

  collect_seats :
      (i : ℕ) (seats : List Seat) (gs : List (Generated Proposal))
      → collect (propose_seats dialogue registry brief i seats) ≡ ok gs
      → map (λ g. g.seat) gs ≡ aliased_from i seats
  unfolding collect propose_seats
  collect_seats i [] [] h = refl
  collect_seats i [] (g ∷ gs) h = cc
  collect_seats i (s ∷ ss) [] h = ground arith
  collect_seats i (s ∷ ss) (g ∷ gs) h =
      ground (arith, seat-propose_seat i s g, collect_seats (suc i) ss gs)

-- There is one proposal for each seat, in the order of the seats and under the alias of its place.
pub propose_seats-ok :
    (dialogue : Dialogue) (platform : Platform) (registry : Registry) (brief : TaskBrief)
    (seats : List Seat) {gs : List (Generated Proposal)}
    → propose dialogue platform (some registry) brief seats ≡ ok gs
    → map (λ g. g.seat) gs ≡ aliased_from 0 seats
unfolding propose
propose_seats-ok dialogue platform registry brief seats {gs} h =
    collect_seats dialogue registry brief 0 seats gs (ground arith)
