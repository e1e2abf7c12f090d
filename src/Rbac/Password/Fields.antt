-- ===== src/Rbac/Password/Fields.antt =====
-- The fields of an encoded password, in internal/security/rbac/password.go: what a number and a base64
-- text that are accepted look like.
use ai_council.Prelude.{
  ℕ, ◌≤◌, ◌≡◌, refl, inl, inr, Bool, true, false, Option, none, some, List, [], ◌∷◌, ◌++◌, length,
  ltb, Bool-cases, arith, sym, ◌||◌,
}
use ai_council.Rbac.Base64.{encode, decode, encoded_len}
use ai_council.Rbac.Password.{
  cut_prefix, bytes_eq, parse_uint, parse_phc_uint, canonical_only, parse_cut, decode_phc_base64,
  accept_decoded, decimal, at_most, ◌>>=◌, guard, is_nil,
}

pub bytes_eq-eq : (xs ys : List ℕ) → bytes_eq xs ys ≡ true → xs ≡ ys
unfolding bytes_eq
bytes_eq-eq [] [] h = refl
bytes_eq-eq [] (y ∷ ys) h = absurd (cc)
bytes_eq-eq (x ∷ xs) [] h = absurd (cc)
bytes_eq-eq (x ∷ xs) (y ∷ ys) h = ground (arith, bytes_eq-eq xs ys)

pub bytes_eq_refl : (xs : List ℕ) → bytes_eq xs xs ≡ true
unfolding bytes_eq
bytes_eq_refl [] = refl
bytes_eq_refl (x ∷ xs) = ground (arith, bytes_eq_refl xs)

pub cut_prefix-eq :
    (text prefix rest : List ℕ) → cut_prefix text prefix ≡ some rest → text ≡ prefix ++ rest
unfolding cut_prefix
cut_prefix-eq text [] rest h = ground arith
cut_prefix-eq [] (p ∷ ps) rest h = absurd (cc)
cut_prefix-eq (c ∷ cs) (p ∷ ps) rest h = ground (arith, cut_prefix-eq cs ps rest)

pub canonical_only-eq :
    (raw : List ℕ) (o : Option ℕ) (v : ℕ) → canonical_only raw o ≡ some v → decimal v ≡ raw
canonical_only-eq raw none v h = absurd (cc)
canonical_only-eq raw (some u) v h = elim (Bool-cases (bytes_eq (decimal u) raw)) [
  | inl e ↦
      let same : u ≡ v = cc (let k : some u ≡ some v = rw e at h in k) in
      rw (← same) (bytes_eq-eq (decimal u) raw e)
  | inr e ↦ absurd (cc (let k : none ≡ some v = rw e at h in k))
]

pub parse_cut-eq :
    (field prefix : List ℕ) (bits : ℕ) (cut : Option (List ℕ)) (v : ℕ)
    → cut_prefix field prefix ≡ cut
    → parse_cut bits cut ≡ some v
    → field ≡ prefix ++ decimal v
parse_cut-eq field prefix bits none v c h = absurd (cc)
parse_cut-eq field prefix bits (some raw) v c h =
    rw (canonical_only-eq raw (parse_uint raw bits) v h) (cut_prefix-eq field prefix raw c)

-- A number is read from one text only.
pub parse_phc_uint-eq :
    (field prefix : List ℕ) (bits v : ℕ)
    → parse_phc_uint field prefix bits ≡ some v
    → field ≡ prefix ++ decimal v
parse_phc_uint-eq field prefix bits v h =
    parse_cut-eq field prefix bits (cut_prefix field prefix) v refl (unfold parse_phc_uint in h)

pub accept_decoded-eq :
    (field : List ℕ) (max : ℕ) (o : Option (List ℕ)) (bytes : List ℕ)
    → accept_decoded field max o ≡ some bytes
    → (field ≡ encode bytes) × ((1 ≤ length bytes) × (length bytes ≤ max))
accept_decoded-eq field max none bytes h = absurd (cc)
accept_decoded-eq field max (some []) bytes h = absurd (cc)
accept_decoded-eq field max (some (b ∷ bs)) bytes h =
    elim (Bool-cases (ltb max (length (b ∷ bs)))) [
      | inl long ↦ absurd (cc (let k : none ≡ some bytes = rw long at h in k))
      | inr short ↦ elim (Bool-cases (bytes_eq (encode (b ∷ bs)) field)) [
        | inl e ↦
            let k : some (b ∷ bs) ≡ some bytes = rw (short, e) at h in
            let same : b ∷ bs ≡ bytes = cc k in
            rw (← same) (sym (bytes_eq-eq (encode (b ∷ bs)) field e), (omega arith, ground arith))
        | inr e ↦ absurd (cc (let k : none ≡ some bytes = rw (short, e) at h in k))
      ]
    ]

pub decode_phc_base64-eq :
    (field : List ℕ) (max : ℕ) (bytes : List ℕ)
    → decode_phc_base64 field max ≡ some bytes
    → (field ≡ encode bytes) × ((1 ≤ length bytes) × (length bytes ≤ max))
unfolding decode_phc_base64
decode_phc_base64-eq field max bytes h =
    elim (Bool-cases (is_nil field || ltb (encoded_len max) (length field))) [
      | inl e ↦ absurd (cc (let k : none ≡ some bytes = rw e at h in k))
      | inr e ↦ accept_decoded-eq field max (decode field) bytes (rw e at h)
    ]

pub >>=-eq-some :
    {A B : Type 0} (m : Option A) (f : A → Option B) (b : B)
    → (m >>= f) ≡ some b
    → (a : A) × (m ≡ some a) × (f a ≡ some b)
>>=-eq-some none f b h = absurd (cc)
>>=-eq-some (some a) f b h = (a, refl, h)

pub guard-eq : (test : Bool) (u : Unit {0}) → guard test ≡ some u → test ≡ true
guard-eq true u h = refl
guard-eq false u h = absurd (cc)

pub at_most-eq :
    (max : ℕ) (o : Option ℕ) (n : ℕ) → at_most max o ≡ some n → (o ≡ some n) × ((1 ≤ n) × (n ≤ max))
at_most-eq max none n h = absurd (cc)
at_most-eq max (some m) n h = ground arith
