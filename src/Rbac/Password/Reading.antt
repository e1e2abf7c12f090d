-- ===== src/Rbac/Password/Reading.antt =====
-- Which encoded passwords internal/security/rbac/password.go accepts.
use ai_council.Prelude.{
  ℕ, ◌≤◌, ◌≡◌, refl, inl, inr, true, Option, none, some, List, [], ◌∷◌, ◌++◌, length, ==_iff, codes,
  Bool-cases, ap, sym, subst, ◌∙◌,
}
use ai_council.Storage.Sql.{ok, err, invalid_password}
use ai_council.Rbac.Base64.{encode}
use ai_council.Rbac.Password.{
  IdKey, split, bytes_eq, parse_phc_uint, decode_phc_base64, decimal, at_most, guard, Encoded,
  read_params, read_parts, is_version, check_key, verify_password, argon_max_memory, argon_max_time,
  argon_max_threads, argon_max_salt_len, argon_max_key_len, argon_version,
}
use ai_council.Rbac.Password.Splitting.{join, join-split}
use ai_council.Rbac.Password.Fields.{
  bytes_eq-eq, parse_phc_uint-eq, decode_phc_base64-eq, >>=-eq-some, guard-eq, at_most-eq,
}

-- The texts of the three costs.
pub record IsParams (m t p : ℕ) (parts : List (List ℕ)) : Type 0 where
  pub texts :
      parts ≡ (codes "m=" ++ decimal m) ∷ (codes "t=" ++ decimal t) ∷ (codes "p=" ++ decimal p) ∷ []
  pub memory : (1 ≤ m) × (m ≤ argon_max_memory)
  pub iterations : (1 ≤ t) × (t ≤ argon_max_time)
  pub threads : (1 ≤ p) × (p ≤ argon_max_threads)

costs-IsParams :
    (a b c : List ℕ) (m t p m' t' p' : ℕ)
    → ◌≡◌ {A = Option (ℕ × ℕ × ℕ)} (some (m', t', p')) (some (m, t, p))
    → (at_most argon_max_memory (parse_phc_uint a (codes "m=") 32) ≡ some m')
    → (at_most argon_max_time (parse_phc_uint b (codes "t=") 32) ≡ some t')
    → (at_most argon_max_threads (parse_phc_uint c (codes "p=") 8) ≡ some p')
    → IsParams m t p (a ∷ b ∷ c ∷ [])
costs-IsParams a b c m t p m' t' p' e hm ht hp =
    let em : m' ≡ m = cc e in
    let et : t' ≡ t = cc e in
    let ep : p' ≡ p = cc e in
    let (km, bm) = at_most-eq argon_max_memory (parse_phc_uint a (codes "m=") 32) m (rw em at hm) in
    let (kt, bt) = at_most-eq argon_max_time (parse_phc_uint b (codes "t=") 32) t (rw et at ht) in
    let (kp, bp) = at_most-eq argon_max_threads (parse_phc_uint c (codes "p=") 8) p (rw ep at hp) in
    record {
      texts =
          rw
            (
              parse_phc_uint-eq a (codes "m=") 32 m km,
              parse_phc_uint-eq b (codes "t=") 32 t kt,
              parse_phc_uint-eq c (codes "p=") 8 p kp,
            )
            refl;
      memory = bm;
      iterations = bt;
      threads = bp;
    }

read_params-IsParams :
    (parts : List (List ℕ)) (m t p : ℕ) → read_params parts ≡ some (m, t, p) → IsParams m t p parts
unfolding read_params
read_params-IsParams [] m t p h = absurd (cc)
read_params-IsParams (a ∷ []) m t p h = absurd (cc)
read_params-IsParams (a ∷ b ∷ []) m t p h = absurd (cc)
read_params-IsParams (a ∷ b ∷ c ∷ d ∷ rest) m t p h = absurd (cc)
read_params-IsParams (a ∷ b ∷ c ∷ []) m t p h =
    let (m', hm, h') =
      >>=-eq-some (at_most argon_max_memory (parse_phc_uint a (codes "m=") 32)) _ _ h in
    let (t', ht, h'') =
      >>=-eq-some (at_most argon_max_time (parse_phc_uint b (codes "t=") 32)) _ _ h' in
    let (p', hp, e) =
      >>=-eq-some (at_most argon_max_threads (parse_phc_uint c (codes "p=") 8)) _ _ h'' in
    costs-IsParams a b c m t p m' t' p' e hm ht hp

-- The text of what is read from an encoded password, behind whatever stands before the first `$`.
abbrev pub written : List ℕ → Encoded → List ℕ
written before e = join b'$' (
    before
    ∷ codes "argon2id"
    ∷ (codes "v=" ++ decimal argon_version)
    ∷ join b',' (
        (codes "m=" ++ decimal e.memory)
        ∷ (codes "t=" ++ decimal e.iterations)
        ∷ (codes "p=" ++ decimal e.threads)
        ∷ [])
    ∷ encode e.salt
    ∷ encode e.want
    ∷ [])

-- The bounds on what is read.
pub record IsWithin (e : Encoded) : Type 0 where
  pub memory : (1 ≤ e.memory) × (e.memory ≤ argon_max_memory)
  pub iterations : (1 ≤ e.iterations) × (e.iterations ≤ argon_max_time)
  pub threads : (1 ≤ e.threads) × (e.threads ≤ argon_max_threads)
  pub salt : (1 ≤ length e.salt) × (length e.salt ≤ argon_max_salt_len)
  pub want : (1 ≤ length e.want) × (length e.want ≤ argon_max_key_len)

is_version-eq :
    (field : List ℕ) (o : Option ℕ)
    → parse_phc_uint field (codes "v=") 32 ≡ o
    → is_version o ≡ true
    → field ≡ codes "v=" ++ decimal argon_version
is_version-eq field none h e = absurd (cc)
is_version-eq field (some v) h e =
    let same : v ≡ argon_version = (==_iff v argon_version).0 e in
    parse_phc_uint-eq field (codes "v=") 32 argon_version (rw same at h)

-- What is read is within the bounds, and was written as above.
abbrev pub WasRead : List (List ℕ) → List ℕ → Encoded → Type 0
WasRead parts before e = IsWithin e × (join b'$' parts ≡ written before e)

read_of :
    (before scheme version params salt key : List ℕ) (m t p : ℕ) (s w : List ℕ)
    → bytes_eq scheme (codes "argon2id") ≡ true
    → is_version (parse_phc_uint version (codes "v=") 32) ≡ true
    → read_params (split b',' params) ≡ some (m, t, p)
    → decode_phc_base64 salt argon_max_salt_len ≡ some s
    → decode_phc_base64 key argon_max_key_len ≡ some w
    → WasRead
        (before ∷ scheme ∷ version ∷ params ∷ salt ∷ key ∷ [])
        before
        (record { memory = m; iterations = t; threads = p; salt = s; want = w })
read_of before scheme version params salt key m t p s w hs hv hp hd hk =
    let costs = read_params-IsParams (split b',' params) m t p hp in
    let (es, bs) = decode_phc_base64-eq salt argon_max_salt_len s hd in
    let (ek, bk) = decode_phc_base64-eq key argon_max_key_len w hk in
    let ep : params
        ≡ join b',' (
            (codes "m=" ++ decimal m)
            ∷ (codes "t=" ++ decimal t)
            ∷ (codes "p=" ++ decimal p)
            ∷ []) =
      sym (join-split b',' params) ∙ ap (join b',') costs.texts in
    (
      record {
        memory = costs.memory;
        iterations = costs.iterations;
        threads = costs.threads;
        salt = bs;
        want = bk;
      },
      rw (bytes_eq-eq scheme (codes "argon2id") hs, is_version-eq version _ refl hv, ep, es, ek)
          refl,
    )

read_parts-WasRead :
    (parts : List (List ℕ)) (e : Encoded)
    → read_parts parts ≡ some e
    → (before : List ℕ) × WasRead parts before e
unfolding read_parts
read_parts-WasRead [] e h = absurd (cc)
read_parts-WasRead (a ∷ []) e h = absurd (cc)
read_parts-WasRead (a ∷ b ∷ []) e h = absurd (cc)
read_parts-WasRead (a ∷ b ∷ c ∷ []) e h = absurd (cc)
read_parts-WasRead (a ∷ b ∷ c ∷ d ∷ []) e h = absurd (cc)
read_parts-WasRead (a ∷ b ∷ c ∷ d ∷ s ∷ []) e h = absurd (cc)
read_parts-WasRead (a ∷ b ∷ c ∷ d ∷ s ∷ k ∷ x ∷ rest) e h = absurd (cc)
read_parts-WasRead (before ∷ b ∷ c ∷ d ∷ s ∷ k ∷ []) e h =
    let (u, hb, h1) = >>=-eq-some (guard (bytes_eq b (codes "argon2id"))) _ _ h in
    let (v, hc, h2) = >>=-eq-some (guard (is_version (parse_phc_uint c (codes "v=") 32))) _ _ h1 in
    let (costs, hd, h3) = >>=-eq-some (read_params (split b',' d)) _ _ h2 in
    let (salt, hs, h4) = >>=-eq-some (decode_phc_base64 s argon_max_salt_len) _ _ h3 in
    let (want, hk, h5) = >>=-eq-some (decode_phc_base64 k argon_max_key_len) _ _ h4 in
    (
      before,
      subst (WasRead (before ∷ b ∷ c ∷ d ∷ s ∷ k ∷ []) before) (cc h5) (
          read_of before b c d s k costs.0 costs.1 costs.2 salt want (guard-eq _ u hb)
            (guard-eq _ v hc) hd hs hk),
    )

module _ (id_key : IdKey) (encoded password : List ℕ) where
  check_key-eq :
      (o : Option Encoded)
      → check_key id_key password o ≡ ok tt
      → (e : Encoded) × (o ≡ some e)
        × (id_key password e.salt e.iterations e.memory e.threads (length e.want) ≡ e.want)
  unfolding check_key
  check_key-eq none h = absurd (cc)
  check_key-eq (some e) h =
      elim (Bool-cases (
        bytes_eq (id_key password e.salt e.iterations e.memory e.threads (length e.want)) e.want)) [
          | inl q ↦ (e, refl, bytes_eq-eq _ e.want q)
          | inr q ↦ absurd (cc (let k : err invalid_password ≡ ok tt = rw q at h in k))
        ]

  -- A password is accepted only against a text in the one form that is written, whatever stands
  -- before the first `$`, with costs, salt and key within their bounds, and only where its key is the
  -- stored key.
  pub verify_password-ok :
      verify_password id_key encoded password ≡ ok tt
      → (before : List ℕ) × (e : Encoded) × IsWithin e
        × (encoded ≡ written before e)
        × (id_key password e.salt e.iterations e.memory e.threads (length e.want) ≡ e.want)
  unfolding verify_password
  verify_password-ok h =
      let (e, r, k) = check_key-eq (read_parts (split b'$' encoded)) h in
      let (before, read) = read_parts-WasRead (split b'$' encoded) e r in
      (before, e, read.0, sym (join-split b'$' encoded) ∙ read.1, k)
