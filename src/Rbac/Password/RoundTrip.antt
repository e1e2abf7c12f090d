-- ===== src/Rbac/Password/RoundTrip.antt =====
-- A password that internal/security/rbac/password.go has hashed is accepted.
use ai_council.Prelude.{
  ℕ, ◌≤◌, ◌<◌, ◌≡◌, refl, false, some, List, [], ◌∷◌, ◌++◌, length, ◌==◌, codes, All, ltb, arith,
}
use ai_council.Storage.Sql.{ok}
use ai_council.Rbac.Base64.{
  encode, decode, encoded_len, decode-encode, encode_no_dollar, length-encode,
}
use ai_council.Rbac.Password.{
  IdKey, split, decode_phc_base64, accept_decoded, Encoded, read_parts, hash_password, check_key,
  verify_password, argon_max_salt_len, argon_max_key_len, argon_time, argon_memory, argon_threads,
  argon_key_len, is_nil,
}
use ai_council.Rbac.Password.Splitting.{split_plain, split_alone}
use ai_council.Rbac.Password.Fields.{bytes_eq_refl}

accept_decoded_self :
    (field bytes : List ℕ) (max : ℕ)
    → 1 ≤ length bytes
    → length bytes ≤ max
    → encode bytes ≡ field
    → accept_decoded field max (some bytes) ≡ some bytes
accept_decoded_self field [] max some_ fits e = absurd (omega arith)
accept_decoded_self field (b ∷ bs) max some_ fits e =
    rw (e, (let f : ltb max (length (b ∷ bs)) ≡ false = ground arith in f), bytes_eq_refl field)
      refl

length-is_nil : (xs : List ℕ) → 1 ≤ length xs → is_nil xs ≡ false
length-is_nil [] h = absurd (omega arith)
length-is_nil (x ∷ xs) h = refl

decode_phc_base64-decoded :
    (field bytes : List ℕ) (max : ℕ)
    → is_nil field ≡ false
    → length field ≤ encoded_len max
    → decode field ≡ some bytes
    → accept_decoded field max (some bytes) ≡ some bytes
    → decode_phc_base64 field max ≡ some bytes
decode_phc_base64-decoded field bytes max n l d a =
    unfold decode_phc_base64 in
    rw (n, (let f : ltb (encoded_len max) (length field) ≡ false = ground arith in f), d) a

decode_phc_base64-encode :
    (bytes : List ℕ) (max : ℕ)
    → All (λ b. b < 256) bytes
    → 1 ≤ length bytes
    → length bytes ≤ max
    → decode_phc_base64 (encode bytes) max ≡ some bytes
decode_phc_base64-encode bytes max small some_ fits =
    let l = length-encode bytes in
    decode_phc_base64-decoded (encode bytes) bytes max (length-is_nil (encode bytes) (omega arith))
      (omega arith) (decode-encode bytes small)
      (accept_decoded_self (encode bytes) bytes max some_ fits refl)

split_hashed :
    (salt key : List ℕ)
    → All (λ c. (c == b'$') ≡ false) salt
    → All (λ c. (c == b'$') ≡ false) key
    → split b'$' (codes "$argon2id$v=19$m=65536,t=1,p=4$" ++ salt ++ b'$' ∷ key)
      ≡ [] ∷ codes "argon2id" ∷ codes "v=19" ∷ codes "m=65536,t=1,p=4" ∷ salt ∷ key ∷ []
unfolding split
split_hashed salt key hs hk = rw (split_plain b'$' salt key hs, split_alone b'$' key hk) refl

read_hashed :
    (salt_text key_text salt key : List ℕ)
    → decode_phc_base64 salt_text argon_max_salt_len ≡ some salt
    → decode_phc_base64 key_text argon_max_key_len ≡ some key
    → read_parts
        ([] ∷ codes "argon2id" ∷ codes "v=19" ∷ codes "m=65536,t=1,p=4" ∷ salt_text ∷ key_text ∷ [])
      ≡ some (record {
        memory = argon_memory;
        iterations = argon_time;
        threads = argon_threads;
        salt = salt;
        want = key;
      })
unfolding read_parts
read_hashed salt_text key_text salt key hs hk = rw (hs, hk) refl

check_key-want :
    (id_key : IdKey) (password : List ℕ) (e : Encoded)
    → id_key password e.salt e.iterations e.memory e.threads (length e.want) ≡ e.want
    → check_key id_key password (some e) ≡ ok tt
unfolding check_key
check_key-want id_key password e h = rw (h, bytes_eq_refl e.want) refl

module _ (id_key : IdKey) (salt password : List ℕ) where
  -- A hashed password is accepted, where the salt has 16 bytes and the key has as many bytes as it was
  -- asked for.
  pub verify_password-hash_password :
      All (λ b. b < 256) salt
      → length salt ≡ 16
      → All
          (λ b. b < 256)
          (id_key password salt argon_time argon_memory argon_threads argon_key_len)
      → length (id_key password salt argon_time argon_memory argon_threads argon_key_len)
        ≡ argon_key_len
      → verify_password id_key (hash_password id_key salt password) password ≡ ok tt
  unfolding verify_password hash_password
  verify_password-hash_password hs ls hk lk =
      let key = id_key password salt argon_time argon_memory argon_threads argon_key_len in
      rw
        (
          split_hashed (encode salt) (encode key) (encode_no_dollar salt hs)
              (encode_no_dollar key hk),
          read_hashed (encode salt) (encode key) salt key
              (decode_phc_base64-encode salt argon_max_salt_len hs (omega arith) (omega arith))
              (decode_phc_base64-encode key argon_max_key_len hk (omega arith) (omega arith)),
        )
        (check_key-want id_key password _ (rw lk refl))
