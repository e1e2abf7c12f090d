-- ===== src/Rbac/Password.antt =====
-- internal/security/rbac/password.go: passwords as Argon2 hashes in the PHC format. A text is the
-- sequence of its bytes.
pub mod Splitting
mod Fields
mod Reading
mod RoundTrip
mod Examples
use ai_council.Prelude.{
  ℕ, ◌^◌, ◌*◌, ◌+◌, ◌-◌, String, Bool, true, false, not, ◌&&◌, ◌||◌, Option, none, some, List, [],
  ◌∷◌, ◌++◌, length, ltb, leb, ◌==◌, codes, format_uint, if◌then◌else◌,
}
use ai_council.Storage.Sql.{Result, ok, err, invalid_password}
use ai_council.Rbac.Base64.{encode, decode, encoded_len}

-- `argon2.IDKey(password, salt, time, memory, threads, keyLen)` of golang.org/x/crypto
abbrev pub IdKey : Type 0
IdKey = List ℕ → List ℕ → ℕ → ℕ → ℕ → ℕ → List ℕ

abbrev pub argon_time : ℕ
argon_time = 1

abbrev pub argon_memory : ℕ
argon_memory = 65536

abbrev pub argon_threads : ℕ
argon_threads = 4

abbrev pub argon_key_len : ℕ
argon_key_len = 32

abbrev pub argon_max_time : ℕ
argon_max_time = 10

abbrev pub argon_max_memory : ℕ
argon_max_memory = 65536

abbrev pub argon_max_threads : ℕ
argon_max_threads = 16

abbrev pub argon_max_salt_len : ℕ
argon_max_salt_len = 64

abbrev pub argon_max_key_len : ℕ
argon_max_key_len = 64

-- `argon2.Version`
abbrev pub argon_version : ℕ
argon_version = 0x13

-- `strconv.FormatUint(n, 10)`, `%d`
abbrev pub decimal : ℕ → List ℕ
decimal n = codes (format_uint n)

abbrev pub attach : ℕ → List (List ℕ) → List (List ℕ)
attach c [] = (c ∷ []) ∷ []
attach c (part ∷ parts) = (c ∷ part) ∷ parts

-- `strings.Split` by one byte
unfoldable pub split : ℕ → List ℕ → List (List ℕ)
split sep [] = [] ∷ []
split sep (c ∷ cs) = let parts = split sep cs in if c == sep then [] ∷ parts else attach c parts

-- `strings.CutPrefix`
unfoldable pub cut_prefix : List ℕ → List ℕ → Option (List ℕ)
cut_prefix text [] = some text
cut_prefix [] (p ∷ ps) = none
cut_prefix (c ∷ cs) (p ∷ ps) = if c == p then cut_prefix cs ps else none

pub bytes_eq : List ℕ → List ℕ → Bool
bytes_eq [] [] = true
bytes_eq [] (d ∷ ds) = false
bytes_eq (c ∷ cs) [] = false
bytes_eq (c ∷ cs) (d ∷ ds) = c == d && bytes_eq cs ds

decimal_value : ℕ → List ℕ → Option ℕ
decimal_value n [] = some n
decimal_value n (c ∷ cs) =
    let rest = decimal_value (n * 10 + (c - b'0')) cs in
    if leb b'0' c && leb c b'9' then rest else none

abbrev below : ℕ → Option ℕ → Option ℕ
below bound none = none
below bound (some n) = if ltb n bound then some n else none

-- `strconv.ParseUint(raw, 10, bits)`
pub parse_uint : List ℕ → ℕ → Option ℕ
unfolding decimal_value
parse_uint [] bits = none
parse_uint (c ∷ cs) bits = below (2 ^ bits) (decimal_value 0 (c ∷ cs))

abbrev pub canonical_only : List ℕ → Option ℕ → Option ℕ
canonical_only raw none = none
canonical_only raw (some value) = if bytes_eq (decimal value) raw then some value else none

abbrev pub parse_cut : ℕ → Option (List ℕ) → Option ℕ
parse_cut bits none = none
parse_cut bits (some raw) = canonical_only raw (parse_uint raw bits)

unfoldable pub parse_phc_uint : List ℕ → List ℕ → ℕ → Option ℕ
unfolding cut_prefix parse_uint bytes_eq format_uint
parse_phc_uint field prefix bits = parse_cut bits (cut_prefix field prefix)

abbrev pub is_nil : List ℕ → Bool
is_nil [] = true
is_nil (c ∷ cs) = false

abbrev pub accept_decoded : List ℕ → ℕ → Option (List ℕ) → Option (List ℕ)
accept_decoded field max none = none
accept_decoded field max (some decoded) =
    if is_nil decoded || ltb max (length decoded) || not (bytes_eq (encode decoded) field)
    then none
    else some decoded

unfoldable pub decode_phc_base64 : List ℕ → ℕ → Option (List ℕ)
unfolding decode encode bytes_eq
decode_phc_base64 field max =
    if is_nil field || ltb (encoded_len max) (length field)
    then none
    else accept_decoded field max (decode field)

abbrev pub at_most : ℕ → Option ℕ → Option ℕ
at_most max none = none
at_most max (some n) = if n == 0 || ltb max n then none else some n

infixl 10 ◌>>=◌ ◌>>◌
abbrev pub ◌>>=◌ : {A B : Type 0} → Option A → (A → Option B) → Option B
none >>= f = none
some a >>= f = f a

abbrev pub guard : Bool → Option (Unit {0})
guard true = some tt
guard false = none

abbrev pub ◌>>◌ : {B : Type 0} → Option (Unit {0}) → Option B → Option B
m >> k = m >>= λ _. k

-- What is read from an encoded password.
pub record Encoded : Type 0 where
  pub memory : ℕ
  pub iterations : ℕ
  pub threads : ℕ
  pub salt : List ℕ
  pub want : List ℕ

unfoldable pub read_params : List (List ℕ) → Option (ℕ × ℕ × ℕ)
unfolding parse_phc_uint
read_params (memory ∷ iterations ∷ threads ∷ []) = do
  m ← at_most argon_max_memory (parse_phc_uint memory (codes "m=") 32)
  t ← at_most argon_max_time (parse_phc_uint iterations (codes "t=") 32)
  p ← at_most argon_max_threads (parse_phc_uint threads (codes "p=") 8)
  some (m, t, p)
read_params other = none

abbrev pub is_version : Option ℕ → Bool
is_version none = false
is_version (some v) = v == argon_version

unfoldable pub read_parts : List (List ℕ) → Option Encoded
unfolding parse_phc_uint split decode_phc_base64 read_params bytes_eq
read_parts (before ∷ scheme ∷ version ∷ params ∷ salt ∷ key ∷ []) = do
  guard (bytes_eq scheme (codes "argon2id"))
  guard (is_version (parse_phc_uint version (codes "v=") 32))
  costs ← read_params (split b',' params)
  s ← decode_phc_base64 salt argon_max_salt_len
  want ← decode_phc_base64 key argon_max_key_len
  some (record { memory = costs.0; iterations = costs.1; threads = costs.2; salt = s; want = want })
read_parts other = none

module _ (id_key : IdKey) where
  -- `HashPassword` with the salt that it has drawn.
  unfoldable pub hash_password : List ℕ → List ℕ → List ℕ
  unfolding encode format_uint
  hash_password salt password =
      codes "$argon2id$v="
      ++ (decimal argon_version
          ++ (codes "$m="
              ++ (decimal argon_memory
                  ++ (codes ",t="
                      ++ (decimal argon_time
                          ++ (codes ",p="
                              ++ (decimal argon_threads
                                  ++ (b'$'
                                      ∷ (encode salt
                                          ++ (b'$'
                                              ∷ encode (
                                                  id_key password salt argon_time argon_memory
                                                    argon_threads argon_key_len)))))))))))

  unfoldable pub check_key : List ℕ → Option Encoded → Result (Unit {0})
  unfolding bytes_eq
  check_key password none = err invalid_password
  check_key password (some e) =
      if bytes_eq (id_key password e.salt e.iterations e.memory e.threads (length e.want)) e.want
      then ok tt
      else err invalid_password

  unfoldable pub verify_password : List ℕ → List ℕ → Result (Unit {0})
  unfolding check_key read_parts split
  verify_password encoded password = check_key password (read_parts (split b'$' encoded))
