-- ===== src/Council/Review/Complete.antt =====
-- Every reviewer of internal/council/engine.go reviews every proposal of another seat.
use mathlib.Core.List.{Memᴰ}
use ai_council.Prelude.{
  Option-cases, cons_parts, ℕ, pos, zero, suc, ◌+◌, ◌%◌, ◌<◌, ◌≤◌, ◌≡◌, ◌≢◌, inl, inr, refl, sym,
  subst, false, Option, none, some, Bool-cases, List, [], ◌∷◌, length, str_eq, arith,
}
use ai_council.Schema.{Proposal, PeerReview}
use ai_council.Provider.{ModelProvider, Registry}
use ai_council.Council.Alias.{proposal_alias}
use ai_council.Council.Engine.{Seat, Generated, Outcome, ok, err, Dialogue}
use ai_council.Council.Review.{
  offsets, get_elem?, Trace, review_one, after_review, review_target, review_loop, review_seat,
  review_seats, Shuffle, Interleaving, none_left, another, failures, Reviews,
}
use ai_council.Council.Review.Coverage.{finished_parts}
use ai_council.Council.Review.Offsets.{
  mem-offsets, offset_of, offset_of_lem, mem_left, mem_right, not_same, get_elem?-length,
}

module _ (dialogue : Dialogue) (registry : Registry) (proposals : List (Generated Proposal)) where
  -- Some review in the list is by this seat, of the proposal at this place.
  pub record Covers (r : Seat) (place : ℕ) (all : List (Generated PeerReview)) : Type 0 where
    pub review : Generated PeerReview
    pub listed : Memᴰ review all
    pub by_seat : review.seat ≡ r
    pub of_place : review.value.proposal_alias ≡ proposal_alias (pos place)

  review_one_seat :
      (model : ModelProvider) (ri : ℕ) (r : Seat) (place : ℕ) (target : Generated Proposal)
      (g : Generated PeerReview)
      → review_one dialogue proposals model ri r place target ≡ ok g
      → (g.seat ≡ r) × (g.value.proposal_alias ≡ proposal_alias (pos place))
  unfolding review_one
  review_one_seat model ri r place target g h = ground arith

  Covers-tail :
      {r : Seat} {place : ℕ} {g : Generated PeerReview} {all : List (Generated PeerReview)}
      → Covers r place all
      → Covers r place (g ∷ all)
  Covers-tail c = record {
    review = c.review;
    listed = Memᴰ.tail c.listed;
    by_seat = c.by_seat;
    of_place = c.of_place;
  }

  module _ (model : ModelProvider) (ri : ℕ) (r : Seat) where
    head-Covers :
        (place : ℕ) (target : Generated Proposal) (out : Outcome (Generated PeerReview))
        (rest : Trace)
        → review_one dialogue proposals model ri r place target ≡ out
        → (after_review dialogue proposals out rest).failure ≡ none
        → Covers r place (after_review dialogue proposals out rest).appended
    unfolding after_review
    head-Covers place target (ok g) rest e f =
        let (s, a) = review_one_seat model ri r place target g e in
        record { review = g; listed = Memᴰ.head refl; by_seat = s; of_place = a }
    head-Covers place target (err x) rest e f = cc

    tail_failure :
        (p : ℕ) (o : Option (Generated Proposal)) (rest : Trace)
        → (review_target dialogue proposals model ri r p o rest).failure ≡ none
        → rest.failure ≡ none
    unfolding review_target
    tail_failure p o rest f = ground arith

    after-Covers :
        {place : ℕ} (out : Outcome (Generated PeerReview)) (rest : Trace)
        → (after_review dialogue proposals out rest).failure ≡ none
        → Covers r place rest.appended
        → Covers r place (after_review dialogue proposals out rest).appended
    unfolding after_review
    after-Covers (ok g) rest f c = Covers-tail c
    after-Covers (err x) rest f c = cc

    tail-Covers :
        {place : ℕ} (p : ℕ) (o : Option (Generated Proposal)) (rest : Trace)
        → (review_target dialogue proposals model ri r p o rest).failure ≡ none
        → Covers r place rest.appended
        → Covers r place (review_target dialogue proposals model ri r p o rest).appended
    unfolding review_target
    tail-Covers p none rest f c = c
    tail-Covers {place} p (some target) rest f c = elim (Bool-cases (str_eq target.seat.id r.id)) [
      | inl own ↦ rw own c
      | inr other ↦
          rw other (
            after-Covers (review_one dialogue proposals model ri r p target) rest (rw other at f) c)
    ]

    loop_head :
        (o : ℕ) (offs : List ℕ) (target : Generated Proposal)
        → get_elem? proposals ((ri + o) % length proposals) ≡ some target
        → str_eq target.seat.id r.id ≡ false
        → (review_loop dialogue proposals model ri r (o ∷ offs)).failure ≡ none
        → Covers r
            ((ri + o) % length proposals)
            (review_loop dialogue proposals model ri r (o ∷ offs)).appended
    unfolding review_loop review_target
    loop_head o offs target found other f =
        rw (found, other)
          (head-Covers ((ri + o) % length proposals) target _ _ refl (rw (found, other) at f))

    loop-Covers :
        (offs : List ℕ) (offset : ℕ) (target : Generated Proposal)
        → get_elem? proposals ((ri + offset) % length proposals) ≡ some target
        → str_eq target.seat.id r.id ≡ false
        → Memᴰ offset offs
        → (review_loop dialogue proposals model ri r offs).failure ≡ none
        → Covers r
            ((ri + offset) % length proposals)
            (review_loop dialogue proposals model ri r offs).appended
    unfolding review_loop
    loop-Covers [] offset target found other m f = elim m [ ]
    loop-Covers (o ∷ offs) offset target found other (Memᴰ.head e) f =
        subst
          (λ k.
            Covers r ((ri + k) % length proposals)
              (review_loop dialogue proposals model ri r (o ∷ offs)).appended)
          (sym e)
          (loop_head o offs target
            (subst (λ k. get_elem? proposals ((ri + k) % length proposals) ≡ some target) e found)
            other f)
    loop-Covers (o ∷ offs) offset target found other (Memᴰ.tail m) f =
        tail-Covers _ _ _ f (loop-Covers offs offset target found other m (tail_failure _ _ _ f))

  module _ {r : Seat} {place : ℕ} where
    Covers-left :
        {xs ys zs : List (Generated PeerReview)}
        → Shuffle xs ys zs
        → Covers r place xs
        → Covers r place zs
    Covers-left s c = record {
      review = c.review;
      listed = mem_left s c.listed;
      by_seat = c.by_seat;
      of_place = c.of_place;
    }

    Covers-right :
        {xs ys zs : List (Generated PeerReview)}
        → Shuffle xs ys zs
        → Covers r place ys
        → Covers r place zs
    Covers-right s c = record {
      review = c.review;
      listed = mem_right s c.listed;
      by_seat = c.by_seat;
      of_place = c.of_place;
    }

  seat-Covers :
      (ri : ℕ) (r : Seat) (place : ℕ) (target : Generated Proposal)
      → get_elem? proposals place ≡ some target
      → target.seat.id ≢ r.id
      → (review_seat dialogue proposals registry ri r).failure ≡ none
      → Covers r place (review_seat dialogue proposals registry ri r).appended
  unfolding review_seat
  seat-Covers ri r place target found other f = elim (Option-cases (registry r.provider)) [
    | inl absent ↦ absurd (ground arith)
    | inr (model, present) ↦
        rw (present, review_seat)
          (looked_up model
            (offset_of_lem (length proposals) ri place (get_elem?-length proposals place found))
            (rw (present, review_seat) at f))
  ]
    where
      looked_up :
          (model : ModelProvider)
          → ((ri + offset_of (length proposals) ri place) % length proposals ≡ place)
            × (0 < offset_of (length proposals) ri place)
            × (offset_of (length proposals) ri place ≤ length proposals)
          → (review_loop dialogue proposals model ri r (offsets 0 (length proposals))).failure
            ≡ none
          → Covers r place
              (review_loop dialogue proposals model ri r (offsets 0 (length proposals))).appended
      looked_up model (at_place, positive, bounded) g =
          subst
            (λ k.
              Covers r k
                (review_loop dialogue proposals model ri r (offsets 0 (length proposals))).appended)
            at_place
            (loop-Covers model ri r (offsets 0 (length proposals))
              (offset_of (length proposals) ri place) target (rw at_place found)
              (not_same target.seat.id r.id other)
              (mem-offsets 0 (length proposals) (offset_of (length proposals) ri place) positive
                (omega arith))
              g)

  seats_cover :
      (k : ℕ) (rs : List Seat) (i : ℕ) (r : Seat) (place : ℕ) (target : Generated Proposal)
      {ts : List Trace} {all : List (Generated PeerReview)}
      → get_elem? rs i ≡ some r
      → get_elem? proposals place ≡ some target
      → target.seat.id ≢ r.id
      → failures (review_seats dialogue proposals registry k rs) ≡ []
      → Interleaving ts all
      → ts ≡ review_seats dialogue proposals registry k rs
      → Covers r place all
  unfolding review_seats
  seats_cover k [] i r place target here found other f none_left e = cc
  seats_cover k [] i r place target here found other f (another run s) e = cc
  seats_cover k (x ∷ rs) zero r place target here found other f none_left e = cc
  seats_cover k (x ∷ rs) (suc i) r place target here found other f none_left e = cc
  seats_cover k (x ∷ rs) zero r place target here found other f (another run s) e =
      let same : x ≡ r = ground arith in
      let clean : (review_seat dialogue proposals registry k x).failure ≡ none = ground arith in
      Covers-left s (
        subst (λ t. Covers r place t.appended) (sym (cons_parts e).0)
          (subst (λ y. Covers r place (review_seat dialogue proposals registry k y).appended)
            (sym same)
            (seat-Covers k r place target found other (
              subst (λ y. (review_seat dialogue proposals registry k y).failure ≡ none) same
                clean))))
  seats_cover k (x ∷ rs) (suc i) r place target here found other f (another run s) e =
      Covers-right s (
        seats_cover (suc k) rs i r place target here found other (ground arith) run
          (cons_parts e).1)

  -- Where no goroutine failed, every reviewer has reviewed every proposal that another seat made,
  -- whatever the schedule.
  pub reviews_complete :
      (reviewers : List Seat) (i : ℕ) (r : Seat) (place : ℕ) (target : Generated Proposal)
      {all : List (Generated PeerReview)}
      → Reviews dialogue registry proposals reviewers (ok all)
      → get_elem? reviewers i ≡ some r
      → get_elem? proposals place ≡ some target
      → target.seat.id ≢ r.id
      → Covers r place all
  reviews_complete reviewers i r place target run here found other =
      let (clean, order) = finished_parts dialogue registry proposals run refl in
      seats_cover 0 reviewers i r place target here found other clean order refl
