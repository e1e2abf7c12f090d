-- ===== src/Council/Review/InOrder.antt =====
-- One schedule of `Review` in internal/council/engine.go: the goroutines run one after the other, and the
-- first error is returned.
use ai_council.Prelude.{◌≡◌, refl, inl, inr, false, List, [], ◌∷◌, ◌++◌, Bool-cases, if◌then◌else◌}
use mathlib.Core.List.{Memᴰ}
use ai_council.Schema.{Proposal, PeerReview}
use ai_council.Provider.{Registry}
use ai_council.Council.Engine.{
  Seat, Generated, CouncilError, nothing_to_review, Outcome, ok, err, Dialogue,
}
use ai_council.Council.Review.{
  Trace, review_seats, Shuffle, done, left, right, Interleaving, none_left, another, failures,
  is_nil, Reviews, missing, failed, finished,
}

abbrev all_appended : List Trace → List (Generated PeerReview)
all_appended [] = []
all_appended (t ∷ ts) = t.appended ++ all_appended ts

Shuffle-append : {A : Type 0} (xs ys : List A) → Shuffle xs ys (xs ++ ys)
Shuffle-append [] [] = done
Shuffle-append [] (y ∷ ys) = right (Shuffle-append [] ys)
Shuffle-append (x ∷ xs) ys = left (Shuffle-append xs ys)

all_appended-Interleaving : (ts : List Trace) → Interleaving ts (all_appended ts)
all_appended-Interleaving [] = none_left
all_appended-Interleaving (t ∷ ts) =
    another (all_appended-Interleaving ts) (Shuffle-append t.appended (all_appended ts))

abbrev first_error :
    List CouncilError → List (Generated PeerReview) → Outcome (List (Generated PeerReview))
first_error [] all = ok all
first_error (e ∷ es) all = err e

module _ (dialogue : Dialogue) (registry : Registry) (proposals : List (Generated Proposal))
    (reviewers : List Seat) where
  abbrev traces : List Trace
  traces = review_seats dialogue proposals registry 0 reviewers

  unfoldable pub in_order : Outcome (List (Generated PeerReview))
  in_order =
      if is_nil proposals
      then err nothing_to_review
      else if is_nil reviewers
      then err nothing_to_review
      else first_error (failures traces) (all_appended traces)

  first_error-Reviews :
      (es : List CouncilError)
      → is_nil proposals ≡ false
      → is_nil reviewers ≡ false
      → failures traces ≡ es
      → Reviews dialogue registry proposals reviewers (first_error es (all_appended traces))
  first_error-Reviews [] p r f = finished p r f (all_appended-Interleaving traces)
  first_error-Reviews (e ∷ es) p r f = failed p r (rw f (Memᴰ.head refl))

  pub in_order-Reviews : Reviews dialogue registry proposals reviewers in_order
  unfolding in_order
  in_order-Reviews = elim (Bool-cases (is_nil proposals)) [
    | inl p ↦ rw p (missing (inl p))
    | inr p ↦ elim (Bool-cases (is_nil reviewers)) [
      | inl r ↦ rw (p, r) (missing (inr r))
      | inr r ↦ rw (p, r) (first_error-Reviews (failures traces) p r refl)
    ]
  ]
