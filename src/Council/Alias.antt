-- ===== src/Council/Alias.antt =====
-- internal/council/anonymize.go: the names under which proposals are reviewed.
mod Examples
use ai_council.Prelude.{
  ℕ, ℤ, pos, negsuc, zero, suc, ◌+◌, ◌-◌, ◌*◌, ◌/◌, ◌%◌, ◌≤◌, ◌≡◌, ◌≢◌, refl, sym, ap, ◌∙◌, List,
  [], ◌∷◌, ◌++◌, codes, arith,
}

-- The loop over `index`, which is one more than the number that is written; `rounds` bounds the
-- rounds, and `index` rounds are enough.
letters : ℕ → ℕ → List ℕ → List ℕ
letters zero index name = name
letters (suc rounds) zero name = name
letters (suc rounds) (suc index) name = letters rounds (index / 26) ((b'A' + index % 26) ∷ name)

unfoldable pub proposal_alias : ℤ → List ℕ
unfolding letters
proposal_alias (negsuc n) = codes "Proposal"
proposal_alias (pos n) = codes "Proposal " ++ letters (suc n) (suc n) []

-- Reads such a name back, as a number in base 26 with the digits 1 to 26.
value : ℕ → List ℕ → ℕ
value n [] = n
value n (c ∷ cs) = value (n * 26 + (c - b'A') + 1) cs

value-letters :
    (rounds index : ℕ) (name : List ℕ)
    → index ≤ rounds
    → value 0 (letters rounds index name) ≡ value index name
unfolding letters value
value-letters zero zero name h = refl
value-letters zero (suc index) name h = elim h [ ]
value-letters (suc rounds) zero name h = refl
value-letters (suc rounds) (suc index) name h =
    value-letters rounds (index / 26) ((b'A' + index % 26) ∷ name) (omega arith)
    ∙ ap (λ (n : ℕ). value n name) (omega arith)

alias_number : List ℕ → ℕ
unfolding value
alias_number (_ ∷ _ ∷ _ ∷ _ ∷ _ ∷ _ ∷ _ ∷ _ ∷ _ ∷ name) = value 0 name
alias_number _ = 0

alias_number_lem : (n : ℕ) → alias_number (proposal_alias (pos n)) ≡ suc n
unfolding alias_number proposal_alias value
alias_number_lem n = value-letters (suc n) (suc n) [] (omega arith)

-- Different proposals have different aliases.
pub proposal_alias_injective : (i j : ℕ) → proposal_alias (pos i) ≡ proposal_alias (pos j) → i ≡ j
proposal_alias_injective i j h =
    omega (arith, sym (alias_number_lem i) ∙ ap alias_number h ∙ alias_number_lem j)
