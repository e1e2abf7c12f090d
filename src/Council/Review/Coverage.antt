-- ===== src/Council/Review/Coverage.antt =====
-- What the reviews of internal/council/engine.go cover.
use ai_council.Prelude.{
  ℕ, pos, suc, ◌+◌, ◌%◌, ◌≡◌, ◌≢◌, inl, inr, refl, false, Option, none, some, List, [], ◌∷◌, length,
  str_eq, eq_iff, arith, All, Bool-cases, subst,
}
use ai_council.Schema.{Proposal, PeerReview}
use ai_council.Provider.{ModelProvider, Registry}
use ai_council.Council.Alias.{proposal_alias}
use ai_council.Council.Engine.{Seat, Generated, provider_not_found, Outcome, ok, err, Dialogue}
use ai_council.Council.Review.{
  offsets, get_elem?, Trace, stopped, review_one, after_review, review_target, review_loop,
  review_seat, review_seats, Shuffle, done, left, right, Interleaving, none_left, another, failures,
  Reviews, missing, failed, finished,
}

module _ (dialogue : Dialogue) (registry : Registry) (proposals : List (Generated Proposal)) where
  -- A review of a proposal that stands at a place of the list, under the alias of the place, by a
  -- seat which did not make it.
  pub record IsBlind (g : Generated PeerReview) : Type 0 where
    pub place : ℕ
    pub target : Generated Proposal
    pub found : get_elem? proposals place ≡ some target
    pub others : target.seat.id ≢ g.seat.id
    pub alias : g.value.proposal_alias ≡ proposal_alias (pos place)
    pub reviewer : g.value.reviewer_seat_id ≡ g.seat.id

  review_one-IsBlind :
      (model : ModelProvider) (ri : ℕ) (r : Seat) (place : ℕ) (target : Generated Proposal)
      (g : Generated PeerReview)
      → get_elem? proposals place ≡ some target
      → str_eq target.seat.id r.id ≡ false
      → review_one dialogue proposals model ri r place target ≡ ok g
      → IsBlind g
  unfolding review_one
  review_one-IsBlind model ri r place target g found other h = record {
    place = place;
    target = target;
    found = found;
    others = λ e. ground (arith, eq_iff target.seat.id r.id);
    alias = ground arith;
    reviewer = ground arith;
  }

  loop-IsBlind :
      (model : ModelProvider) (ri : ℕ) (r : Seat) (offs : List ℕ)
      → All IsBlind (review_loop dialogue proposals model ri r offs).appended
  unfolding review_loop review_target
  loop-IsBlind model ri r [] = tt
  loop-IsBlind model ri r (o ∷ offs) =
      step (get_elem? proposals ((ri + o) % length proposals))
        (review_loop dialogue proposals model ri r offs) refl (loop-IsBlind model ri r offs)
    where
      reviewed :
          (target : Generated Proposal) (out : Outcome (Generated PeerReview)) (rest : Trace)
          → get_elem? proposals ((ri + o) % length proposals) ≡ some target
          → str_eq target.seat.id r.id ≡ false
          → review_one dialogue proposals model ri r ((ri + o) % length proposals) target ≡ out
          → All IsBlind rest.appended
          → All IsBlind (after_review dialogue proposals out rest).appended
      reviewed target (ok g) rest found other e h =
          (review_one-IsBlind model ri r _ target g found other e, h)
      reviewed target (err x) rest found other e h = tt

      step :
          (target : Option (Generated Proposal)) (rest : Trace)
          → get_elem? proposals ((ri + o) % length proposals) ≡ target
          → All IsBlind rest.appended
          → All IsBlind
              (review_target dialogue proposals model ri r
                ((ri + o) % length proposals)
                target
                rest).appended
      step none rest found h = h
      step (some target) rest found h = elim (Bool-cases (str_eq target.seat.id r.id)) [
        | inl own ↦ rw own h
        | inr other ↦ rw other (reviewed target _ rest found other refl h)
      ]

  seat-IsBlind :
      (ri : ℕ) (r : Seat) → All IsBlind (review_seat dialogue proposals registry ri r).appended
  unfolding review_seat
  seat-IsBlind ri r = elim (registry r.provider) as (λ m. All IsBlind (trace_of m).appended) [
    | none ↦ tt
    | some model ↦ loop-IsBlind model ri r (offsets 0 (length proposals))
  ]
    where
      trace_of : Option ModelProvider → Trace
      trace_of m = elim m [
        | none ↦ stopped (provider_not_found r.provider)
        | some model ↦ review_loop dialogue proposals model ri r (offsets 0 (length proposals))
      ]

  seats-IsBlind :
      (ri : ℕ) (rs : List Seat)
      → All (λ t. All IsBlind t.appended) (review_seats dialogue proposals registry ri rs)
  unfolding review_seats
  seats-IsBlind ri [] = tt
  seats-IsBlind ri (r ∷ rs) = (seat-IsBlind ri r, seats-IsBlind (suc ri) rs)

  Shuffle-IsBlind :
      {xs ys zs : List (Generated PeerReview)}
      → Shuffle xs ys zs
      → All IsBlind xs
      → All IsBlind ys
      → All IsBlind zs
  Shuffle-IsBlind done h k = tt
  Shuffle-IsBlind (left s) h k = (h.0, Shuffle-IsBlind s h.1 k)
  Shuffle-IsBlind (right s) h k = (k.0, Shuffle-IsBlind s h k.1)

  Interleaving-IsBlind :
      {ts : List Trace} {all : List (Generated PeerReview)}
      → Interleaving ts all
      → All (λ t. All IsBlind t.appended) ts
      → All IsBlind all
  Interleaving-IsBlind none_left h = tt
  Interleaving-IsBlind (another i s) h = Shuffle-IsBlind s h.0 (Interleaving-IsBlind i h.1)

  pub finished_parts :
      {reviewers : List Seat} {o : Outcome (List (Generated PeerReview))}
      {all : List (Generated PeerReview)}
      → Reviews dialogue registry proposals reviewers o
      → o ≡ ok all
      → (failures (review_seats dialogue proposals registry 0 reviewers) ≡ [])
        × Interleaving (review_seats dialogue proposals registry 0 reviewers) all
  finished_parts {all} (missing h) e = cc
  finished_parts {all} (failed h k m) e = cc
  finished_parts {reviewers} {all = all} (finished h k f i) e = (
    f,
    subst (Interleaving (review_seats dialogue proposals registry 0 reviewers)) (ground arith) i,
  )

  -- Whatever the schedule, every review that is returned is of a proposal in the list, under the
  -- alias of its place, and by a seat that did not make that proposal.
  pub reviews-IsBlind :
      (reviewers : List Seat) {all : List (Generated PeerReview)}
      → Reviews dialogue registry proposals reviewers (ok all)
      → All IsBlind all
  reviews-IsBlind reviewers run =
      Interleaving-IsBlind (finished_parts run refl).1 (seats-IsBlind 0 reviewers)
