-- ===== src/RbacApi/RateLimit/Maps.antt =====
-- Association lists as the maps of internal/transport/council/rbac_routes.go.
use ai_council.Prelude.{
  ◌≡◌, refl, inl, inr, ℕ, ◌≤◌, String, Bool, true, false, none, some, List, [], ◌∷◌, length, filter,
  str_eq, eq_iff, eq_refl, Bool-cases, if◌then◌else◌, arith,
}
use ai_council.RbacApi.RateLimit.{lookup, set, delete, has, prune, recent, unless_empty, attempts}

module _ {V : Type 0} where
  -- Each key has one entry.
  abbrev pub IsMap : List (String × V) → Type 0
  IsMap [] = Unit
  IsMap ((k, v) ∷ rest) = (has k rest ≡ false) × IsMap rest

  pub lookup-set :
      (j k : String) (v : V) (m : List (String × V))
      → lookup j (set k v m) ≡ (if str_eq k j then some v else lookup j m)
  lookup-set j k v [] = refl
  lookup-set j k v ((i, u) ∷ rest) =
      ground (arith, lookup-set j k v rest, eq_iff i k, eq_iff i j, eq_iff k j, eq_refl j)

  pub has-set :
      (j k : String) (v : V) (m : List (String × V))
      → has j (set k v m) ≡ (if str_eq k j then true else has j m)
  has-set j k v [] = ground arith
  has-set j k v ((i, u) ∷ rest) =
      ground (arith, has-set j k v rest, eq_iff i k, eq_iff i j, eq_iff k j, eq_refl j)

  pub lookup-delete :
      (j k : String) (m : List (String × V))
      → lookup j (delete k m) ≡ (if str_eq k j then none else lookup j m)
  lookup-delete j k [] = ground arith
  lookup-delete j k ((i, u) ∷ rest) =
      ground (arith, lookup-delete j k rest, eq_iff i k, eq_iff i j, eq_iff k j, eq_refl j)

  pub has-delete :
      (j k : String) (m : List (String × V))
      → has j (delete k m) ≡ (if str_eq k j then false else has j m)
  has-delete j k [] = ground arith
  has-delete j k ((i, u) ∷ rest) =
      ground (arith, has-delete j k rest, eq_iff i k, eq_iff i j, eq_iff k j, eq_refl j)

  pub lookup-not_has : (j : String) (m : List (String × V)) → has j m ≡ false → lookup j m ≡ none
  lookup-not_has j [] h = refl
  lookup-not_has j ((i, u) ∷ rest) h = ground (arith, lookup-not_has j rest)

  pub set-IsMap : (k : String) (v : V) (m : List (String × V)) → IsMap m → IsMap (set k v m)
  set-IsMap k v [] h = (refl, tt)
  set-IsMap k v ((i, u) ∷ rest) h = elim (Bool-cases (str_eq i k)) [
    | inl e ↦ rw e (rw ((eq_iff i k).0 e) at h)
    | inr e ↦
        rw e
          (ground (arith, has-set i k v rest, h.0, eq_iff i k, eq_iff k i), set-IsMap k v rest h.1)
  ]

  pub delete-IsMap : (k : String) (m : List (String × V)) → IsMap m → IsMap (delete k m)
  delete-IsMap k [] h = tt
  delete-IsMap k ((i, u) ∷ rest) h = elim (Bool-cases (str_eq i k)) [
    | inl e ↦ rw e (delete-IsMap k rest h.1)
    | inr e ↦ rw e (ground (arith, has-delete i k rest, h.0, eq_iff k i), delete-IsMap k rest h.1)
  ]

has-unless_empty :
    (j i : String) (ts : List ℕ) (rest : List (String × List ℕ))
    → has j rest ≡ false
    → str_eq i j ≡ false
    → has j (unless_empty i ts rest) ≡ false
has-unless_empty j i [] rest h e = h
has-unless_empty j i (t ∷ ts) rest h e = rw (e, h) refl

has-prune :
    (now : ℕ) (j : String) (m : List (String × List ℕ))
    → has j m ≡ false
    → has j (prune now m) ≡ false
unfolding prune
has-prune now j [] h = refl
has-prune now j ((i, ts) ∷ rest) h =
    has-unless_empty j i (recent now ts) (prune now rest) (has-prune now j rest (ground arith))
      (ground arith)

unless_empty-IsMap :
    (i : String) (ts : List ℕ) (rest : List (String × List ℕ))
    → has i rest ≡ false
    → IsMap rest
    → IsMap (unless_empty i ts rest)
unless_empty-IsMap i [] rest h m = m
unless_empty-IsMap i (t ∷ ts) rest h m = (h, m)

pub prune-IsMap : (now : ℕ) (m : List (String × List ℕ)) → IsMap m → IsMap (prune now m)
unfolding prune
prune-IsMap now [] h = tt
prune-IsMap now ((i, ts) ∷ rest) h =
    unless_empty-IsMap i (recent now ts) (prune now rest) (has-prune now i rest h.0)
      (prune-IsMap now rest h.1)

pub length-filter : (p : ℕ → Bool) (ts : List ℕ) → length (filter p ts) ≤ length ts
length-filter p [] = omega arith
length-filter p (t ∷ ts) = ground (arith, length-filter p ts)

attempts-unless_empty :
    (j i : String) (ts : List ℕ) (rest : List (String × List ℕ))
    → has i rest ≡ false
    → attempts (lookup j (unless_empty i ts rest))
      ≡ (if str_eq i j then ts else attempts (lookup j rest))
attempts-unless_empty j i [] rest h = elim (Bool-cases (str_eq i j)) [
  | inl e ↦ rw (e, lookup-not_has j rest (rw (← (eq_iff i j).0 e) h)) refl
  | inr e ↦ rw e refl
]
attempts-unless_empty j i (t ∷ ts) rest h = ground arith

-- Pruning keeps the recent attempts of each client.
pub attempts-prune :
    (now : ℕ) (j : String) (m : List (String × List ℕ))
    → IsMap m
    → attempts (lookup j (prune now m)) ≡ recent now (attempts (lookup j m))
unfolding prune
attempts-prune now j [] h = refl
attempts-prune now j ((i, ts) ∷ rest) h =
    rw
      (
        attempts-unless_empty j i (recent now ts) (prune now rest) (has-prune now i rest h.0),
        attempts-prune now j rest h.1,
      )
      (apart (str_eq i j))
  where
    apart :
        (b : Bool)
        → (if b then recent now ts else recent now (attempts (lookup j rest)))
          ≡ recent now (attempts (if b then some ts else lookup j rest))
    apart true = refl
    apart false = refl
