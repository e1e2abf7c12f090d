-- ===== src/Council/Review/Examples.antt =====
-- Alice and Bob review one another's proposals, as internal/council/engine.go has them do.
use ai_council.Prelude.{ℕ, pos, refl, List, [], ◌∷◌, All, eq_iff, false≢true}
use ai_council.Schema.{PeerReview}
use ai_council.Provider.{new_registry}
use ai_council.Council.Alias.{proposal_alias}
use ai_council.Council.Engine.{Seat, Generated, ok}
use ai_council.Council.Fixtures.{
  dialogue, registry, alice, bob, proposed, proposals, peer_review, no_usage,
}
use ai_council.Council.Review.{
  review_seats, review_seat, review_loop, review_target, review_one, Reviews, finished, another,
  none_left, left, right, done,
}
use ai_council.Council.Review.Coverage.{IsBlind, reviews-IsBlind}
use ai_council.Council.Review.Complete.{Covers, reviews_complete}

abbrev review : Seat → ℕ → Generated PeerReview
review r i = record {
  seat = r;
  value = record peer_review { reviewer_seat_id = r.id; proposal_alias = proposal_alias (pos i) };
  usage = no_usage;
}

-- Bob's review comes first.
abbrev all : List (Generated PeerReview)
all = review bob 0 ∷ review alice 1 ∷ []

run : Reviews dialogue registry proposals (alice ∷ bob ∷ []) (ok all)
unfolding review_seats review_seat review_loop review_target review_one new_registry
run = finished refl refl refl (another (another none_left (left done)) (right (left done)))

reviews-IsBlind_example : All (IsBlind dialogue registry proposals) all
reviews-IsBlind_example = reviews-IsBlind dialogue registry proposals (alice ∷ bob ∷ []) run

reviews_complete_example : Covers dialogue registry proposals alice 1 all
reviews_complete_example =
    reviews_complete dialogue registry proposals (alice ∷ bob ∷ []) 0 alice 1 (proposed 1 bob) run
      refl refl (λ e. false≢true ((eq_iff "bob" "alice").1 e))
