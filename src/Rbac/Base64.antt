-- ===== src/Rbac/Base64.antt =====
-- `base64.RawStdEncoding` of Go's standard library: no padding, bits that are left over are not looked
-- at, and line breaks in what is decoded are passed over.
use ai_council.Prelude.{
  ℕ, ◌+◌, ◌-◌, ◌*◌, ◌/◌, ◌%◌, ◌<◌, ◌≡◌, refl, Bool, ◌&&◌, ◌||◌, not, Option, none, some, List, [],
  ◌∷◌, ltb, leb, ◌==◌, if◌then◌else◌, All, filter, length, arith, false, ◌∙◌,
}

digit : ℕ → ℕ
digit s =
    if ltb s 26
    then s + b'A'
    else if ltb s 52
    then s + 71
    else if ltb s 62
    then s - 4
    else if s == 62
    then b'+'
    else b'/'

abbrev between : ℕ → ℕ → ℕ → Bool
between low high c = leb low c && leb c high

value : ℕ → Option ℕ
value c =
    if between b'A' b'Z' c
    then some (c - b'A')
    else if between b'a' b'z' c
    then some (c - 71)
    else if between b'0' b'9' c
    then some (c + 4)
    else if c == b'+'
    then some 62
    else if c == b'/'
    then some 63
    else none

-- Six bits at a time.
sextets : List ℕ → List ℕ
sextets [] = []
sextets (a ∷ []) = a / 4 ∷ (a % 4 * 16) ∷ []
sextets (a ∷ b ∷ []) = a / 4 ∷ (a % 4 * 16 + b / 16) ∷ (b % 16 * 4) ∷ []
sextets (a ∷ b ∷ c ∷ rest) =
    a / 4 ∷ (a % 4 * 16 + b / 16) ∷ (b % 16 * 4 + c / 64) ∷ (c % 64) ∷ sextets rest

abbrev cons : {A : Type 0} → A → Option (List A) → Option (List A)
cons x none = none
cons x (some xs) = some (x ∷ xs)

octets : List ℕ → Option (List ℕ)
octets [] = some []
octets (p ∷ []) = none
octets (p ∷ q ∷ []) = some ((p * 4 + q / 16) ∷ [])
octets (p ∷ q ∷ r ∷ []) = some ((p * 4 + q / 16) ∷ (q % 16 * 16 + r / 4) ∷ [])
octets (p ∷ q ∷ r ∷ s ∷ rest) =
    cons (p * 4 + q / 16) (cons (q % 16 * 16 + r / 4) (cons (r % 4 * 64 + s) (octets rest)))

digits : List ℕ → List ℕ
digits [] = []
digits (s ∷ ss) = digit s ∷ digits ss

abbrev cons_value : Option ℕ → Option (List ℕ) → Option (List ℕ)
cons_value none vs = none
cons_value (some v) vs = cons v vs

values : List ℕ → Option (List ℕ)
values [] = some []
values (c ∷ cs) = cons_value (value c) (values cs)

abbrev is_line_break : ℕ → Bool
is_line_break c = c == 0x0a || c == 0x0d

abbrev all_octets : Option (List ℕ) → Option (List ℕ)
all_octets none = none
all_octets (some ss) = octets ss

unfoldable pub encode : List ℕ → List ℕ
unfolding digits digit sextets
encode bytes = digits (sextets bytes)

unfoldable pub decode : List ℕ → Option (List ℕ)
unfolding values value octets
decode text = all_octets (values (filter (λ c. not (is_line_break c)) text))

-- `EncodedLen`
abbrev pub encoded_len : ℕ → ℕ
encoded_len n = n / 3 * 4 + (n % 3 * 8 + 5) / 6

value-digit : (s : ℕ) → s < 64 → value (digit s) ≡ some s
unfolding value digit
value-digit s h = ground arith

digit_plain : (s : ℕ) → s < 64 → is_line_break (digit s) ≡ false
unfolding digit
digit_plain s h = ground arith

sextets_small : (bytes : List ℕ) → All (λ b. b < 256) bytes → All (λ s. s < 64) (sextets bytes)
unfolding sextets
sextets_small [] h = tt
sextets_small (a ∷ []) h = (omega arith, (omega arith, tt))
sextets_small (a ∷ b ∷ []) h = (omega arith, (omega arith, (omega arith, tt)))
sextets_small (a ∷ b ∷ c ∷ rest) h =
    (omega arith, (omega arith, (omega arith, (omega arith, sextets_small rest h.1.1.1))))

values-digits :
    (ss : List ℕ)
    → All (λ s. s < 64) ss
    → values (filter (λ c. not (is_line_break c)) (digits ss)) ≡ some ss
unfolding values digits
values-digits [] h = refl
values-digits (s ∷ ss) h = rw (digit_plain s h.0, value-digit s h.0, values-digits ss h.1) refl

octets-sextets : (bytes : List ℕ) → All (λ b. b < 256) bytes → octets (sextets bytes) ≡ some bytes
unfolding octets sextets
octets-sextets [] h = refl
octets-sextets (a ∷ []) h = ground arith
octets-sextets (a ∷ b ∷ []) h = ground arith
octets-sextets (a ∷ b ∷ c ∷ rest) h = ground (arith, octets-sextets rest h.1.1.1)

pub decode-encode : (bytes : List ℕ) → All (λ b. b < 256) bytes → decode (encode bytes) ≡ some bytes
unfolding decode encode
decode-encode bytes h =
    rw (values-digits (sextets bytes) (sextets_small bytes h)) (octets-sextets bytes h)

-- No digit of an encoding is one of these two separators.
digit_no_separator : (s : ℕ) → s < 64 → ((digit s == b'$') ≡ false) × ((digit s == b',') ≡ false)
unfolding digit
digit_no_separator s h = ground arith

digits_no_dollar : (ss : List ℕ) → All (λ s. s < 64) ss → All (λ c. (c == b'$') ≡ false) (digits ss)
unfolding digits
digits_no_dollar [] h = tt
digits_no_dollar (s ∷ ss) h = ((digit_no_separator s h.0).0, digits_no_dollar ss h.1)

pub encode_no_dollar :
    (bytes : List ℕ) → All (λ b. b < 256) bytes → All (λ c. (c == b'$') ≡ false) (encode bytes)
unfolding encode
encode_no_dollar bytes h = digits_no_dollar (sextets bytes) (sextets_small bytes h)

length-sextets : (bytes : List ℕ) → length (sextets bytes) ≡ encoded_len (length bytes)
unfolding sextets
length-sextets [] = refl
length-sextets (a ∷ []) = refl
length-sextets (a ∷ b ∷ []) = refl
length-sextets (a ∷ b ∷ c ∷ rest) = omega (arith, length-sextets rest)

length-digits : (ss : List ℕ) → length (digits ss) ≡ length ss
unfolding digits
length-digits [] = refl
length-digits (s ∷ ss) = omega (arith, length-digits ss)

pub length-encode : (bytes : List ℕ) → length (encode bytes) ≡ encoded_len (length bytes)
unfolding encode
length-encode bytes = length-digits (sextets bytes) ∙ length-sextets bytes
