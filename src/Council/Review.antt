-- ===== src/Council/Review.antt =====
-- `Review` of internal/council/engine.go: every reviewer, in a goroutine of its own, goes round the
-- proposals of the others.
pub mod Coverage
pub mod Offsets
pub mod Complete
pub mod InOrder
mod Examples
use ai_council.Prelude.{
  ℕ, ℤ, pos, zero, suc, ◌+◌, ◌%◌, Bool, true, false, Option, none, some, List, [], ◌∷◌, map, length,
  ◌≡◌, ◌⊎◌, str_eq, if◌then◌else◌,
}
use mathlib.Core.List.{Memᴰ}
use ai_council.Schema.{Proposal, PeerReview}
use ai_council.Provider.{ModelProvider, Registry}
use ai_council.Council.Alias.{proposal_alias}
use ai_council.Council.Engine.{
  Seat, Generated, CouncilError, provider_not_found, provider_failed, invalid_artifact,
  nothing_to_review, Outcome, ok, err, ◌>>=◌, Dialogue, ask, or_err,
}

-- 1, 2, …, n, beginning at `from + 1`
abbrev pub offsets : ℕ → ℕ → List ℕ
offsets from zero = []
offsets from (suc n) = suc from ∷ offsets (suc from) n

abbrev pub get_elem? {ℓ} : {A : Type ℓ} → List A → ℕ → Option A
get_elem? [] i = none
get_elem? (x ∷ xs) zero = some x
get_elem? (x ∷ xs) (suc i) = get_elem? xs i

-- What a goroutine does: the reviews that it appends, and the error with which it ends.
pub record Trace : Type 0 where
  pub appended : List (Generated PeerReview)
  pub failure : Option CouncilError

abbrev pub stopped : CouncilError → Trace
stopped e = record { appended = []; failure = some e }

abbrev pub preceded : Generated PeerReview → Trace → Trace
preceded g t = record t { appended = g ∷ t.appended }

module _ (dialogue : Dialogue) (proposals : List (Generated Proposal)) where
  review_value : Seat → ℕ → PeerReview → PeerReview
  review_value reviewer pi value = record value {
    reviewer_seat_id = reviewer.id;
    proposal_alias = proposal_alias (pos pi);
  }

  -- One review of proposal `pi` by reviewer number `ri`
  unfoldable pub review_one :
      ModelProvider → ℕ → Seat → ℕ → Generated Proposal → Outcome (Generated PeerReview)
  unfolding review_value
  review_one model ri reviewer pi target = do
    resp ← or_err provider_failed (
        model.generate ri pi
          (ask reviewer.model (dialogue.review_prompt (proposal_alias (pos pi)) target.value)))
    value ← or_err invalid_artifact (dialogue.read_review resp.content)
    ok (record { seat = reviewer; value = review_value reviewer pi value; usage = resp.usage })

  unfoldable pub after_review : Outcome (Generated PeerReview) → Trace → Trace
  after_review (ok g) rest = preceded g rest
  after_review (err e) rest = stopped e

  -- The body of the loop at offset `offset`, before the rest of the loop
  unfoldable pub review_target :
      ModelProvider → ℕ → Seat → ℕ → Option (Generated Proposal) → Trace → Trace
  unfolding after_review
  review_target model ri reviewer pi none rest = rest
  review_target model ri reviewer pi (some target) rest =
      if str_eq target.seat.id reviewer.id
      then rest
      else after_review (review_one model ri reviewer pi target) rest

  unfoldable pub review_loop : ModelProvider → ℕ → Seat → List ℕ → Trace
  review_loop model ri reviewer [] = record { appended = []; failure = none }
  review_loop model ri reviewer (offset ∷ rest) =
      let pi = (ri + offset) % length proposals in
      review_target model ri reviewer pi (get_elem? proposals pi)
        (review_loop model ri reviewer rest)

  unfoldable pub review_seat : Registry → ℕ → Seat → Trace
  review_seat registry ri reviewer = elim (registry reviewer.provider) [
    | none ↦ stopped (provider_not_found reviewer.provider)
    | some model ↦ review_loop model ri reviewer (offsets 0 (length proposals))
  ]

  unfoldable pub review_seats : Registry → ℕ → List Seat → List Trace
  review_seats registry ri [] = []
  review_seats registry ri (r ∷ rs) = review_seat registry ri r ∷ review_seats registry (suc ri) rs

-- The appends of two goroutines, one at a time under the mutex
pub data Shuffle {A : Type 0} : List A → List A → List A → Type 0 where
  done : Shuffle [] [] []
  left : {x : A} {xs ys zs : List A} → Shuffle xs ys zs → Shuffle (x ∷ xs) ys (x ∷ zs)
  right : {y : A} {xs ys zs : List A} → Shuffle xs ys zs → Shuffle xs (y ∷ ys) (y ∷ zs)

-- The appends of all goroutines, in any order that keeps the order of each
pub data Interleaving : List Trace → List (Generated PeerReview) → Type 0 where
  none_left : Interleaving [] []
  another :
      {t : Trace} {ts : List Trace} {rest all : List (Generated PeerReview)}
      → Interleaving ts rest
      → Shuffle t.appended rest all
      → Interleaving (t ∷ ts) all

abbrev pub failures : List Trace → List CouncilError
failures [] = []
failures (t ∷ ts) = elim t.failure [ none ↦ failures ts | some e ↦ e ∷ failures ts ]

abbrev pub is_nil {ℓ} : {A : Type ℓ} → List A → Bool
is_nil [] = true
is_nil (x ∷ xs) = false

-- The results that `Review` can return, over all schedules of the goroutines: any error that some
-- goroutine met, or without errors all appends in some order.
pub data Reviews (dialogue : Dialogue) (registry : Registry) (proposals : List (Generated Proposal))
    (reviewers : List Seat) : Outcome (List (Generated PeerReview)) → Type 0 where
  missing :
      (is_nil proposals ≡ true) ⊎ (is_nil reviewers ≡ true)
      → Reviews dialogue registry proposals reviewers (err nothing_to_review)
  failed :
      {e : CouncilError}
      → is_nil proposals ≡ false
      → is_nil reviewers ≡ false
      → Memᴰ e (failures (review_seats dialogue proposals registry 0 reviewers))
      → Reviews dialogue registry proposals reviewers (err e)
  finished :
      {all : List (Generated PeerReview)}
      → is_nil proposals ≡ false
      → is_nil reviewers ≡ false
      → failures (review_seats dialogue proposals registry 0 reviewers) ≡ []
      → Interleaving (review_seats dialogue proposals registry 0 reviewers) all
      → Reviews dialogue registry proposals reviewers (ok all)
