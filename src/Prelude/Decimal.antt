-- ===== src/Prelude/Decimal.antt =====
-- Package strconv: numbers written in decimal; and the concatenation of texts.
use Prim.Native.Nat.{ℕ, zero, suc, ◌/◌, ◌%◌}
use Prim.Native.String.{String}
use Prim.Native.Char.{code}
use Prim.Native.Nat.{◌+◌, ◌-◌, ◌*◌, ◌<◌}
use mathlib.Core.Path.{◌≡◌, refl, ap, ◌∙◌}
use native.Mathlib.Omega.{arith}
use mathlib.Core.List.{List, [], ◌∷◌}
use mathlib.Core.Bool.{false}
use mathlib.Core.Logic.{inl, inr}
use ai_council.Prelude.Tests.{ltb, ltb→lt, Bool-cases, if◌then◌else◌}
use ai_council.Prelude.Int.{ℤ, pos, negsuc}

infixr 30 ◌+++◌
abbrev pub ◌+++◌ : String → String → String
String.[] +++ t = t
(String.◌∷◌ c s) +++ t = String.◌∷◌ c (s +++ t)

pick : List String → ℕ → String
pick [] n = ""
pick (s ∷ ss) zero = s
pick (s ∷ ss) (suc n) = pick ss n

digit : ℕ → String
unfolding pick
digit n = pick ("0" ∷ "1" ∷ "2" ∷ "3" ∷ "4" ∷ "5" ∷ "6" ∷ "7" ∷ "8" ∷ "9" ∷ []) n

-- `rounds` bounds the digits; `suc n` rounds are enough for `n`.
digits : ℕ → ℕ → String
unfolding digit
digits zero n = ""
digits (suc rounds) n =
    let higher = digits rounds (n / 10) in if ltb n 10 then digit n else higher +++ digit (n % 10)

unfoldable pub format_uint : ℕ → String
unfolding digits
format_uint n = digits (suc n) n

-- `strconv.Itoa`, `strconv.FormatInt(i, 10)`
unfoldable pub itoa : ℤ → String
unfolding format_uint
itoa (pos n) = format_uint n
itoa (negsuc n) = "-" +++ format_uint (suc n)

-- Reads a number back.
unfoldable pub value : ℕ → String → ℕ
value acc String.[] = acc
value acc (String.◌∷◌ c s) = value (acc * 10 + (code c - b'0')) s

value-append : (acc : ℕ) (s t : String) → value acc (s +++ t) ≡ value (value acc s) t
unfolding value
value-append acc String.[] t = refl
value-append acc (String.◌∷◌ c s) t = value-append (acc * 10 + (code c - b'0')) s t

value-digit : (acc n : ℕ) → n < 10 → value acc (digit n) ≡ acc * 10 + n
unfolding value digit
value-digit acc zero h = omega arith
value-digit acc (suc zero) h = omega arith
value-digit acc (suc (suc zero)) h = omega arith
value-digit acc (suc (suc (suc zero))) h = omega arith
value-digit acc (suc (suc (suc (suc zero)))) h = omega arith
value-digit acc (suc (suc (suc (suc (suc zero))))) h = omega arith
value-digit acc (suc (suc (suc (suc (suc (suc zero)))))) h = omega arith
value-digit acc (suc (suc (suc (suc (suc (suc (suc zero))))))) h = omega arith
value-digit acc (suc (suc (suc (suc (suc (suc (suc (suc zero)))))))) h = omega arith
value-digit acc (suc (suc (suc (suc (suc (suc (suc (suc (suc zero))))))))) h = omega arith
value-digit acc (suc (suc (suc (suc (suc (suc (suc (suc (suc (suc n)))))))))) h =
    absurd (omega arith)

value-digits : (rounds n : ℕ) → n < rounds → value 0 (digits rounds n) ≡ n
unfolding digits
value-digits zero n h = absurd (omega arith)
value-digits (suc rounds) n h = elim (Bool-cases (ltb n 10)) [
  | inl e ↦ rw e (omega (arith, value-digit 0 n (ltb→lt n 10 e)))
  | inr e ↦ rw e (
      value-append 0 (digits rounds (n / 10)) (digit (n % 10))
      ∙ ap (λ acc. value acc (digit (n % 10))) (value-digits rounds (n / 10) (smaller e))
      ∙ value-digit (n / 10) (n % 10) (omega arith)
      ∙ omega arith)
]
  where
    smaller : ltb n 10 ≡ false → n / 10 < rounds
    smaller e = ground arith

-- A number is read back from its decimal digits.
pub value-format_uint : (n : ℕ) → value 0 (format_uint n) ≡ n
unfolding format_uint
value-format_uint n = value-digits (suc n) n (omega arith)
