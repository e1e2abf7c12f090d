-- ===== src/Runner/Files/Undo.antt =====
-- What `Restore` of internal/runner/files/transaction.go brings back.
use ai_council.Prelude.{
  ℕ, ◌≡◌, ◌⊎◌, refl, String, Bool, true, false, Option, none, some, List, [], ◌∷◌, inl, inr, arith,
  ◌∙◌, sym, ap, Bool-cases, Option-cases, All, any, str_eq, eq_iff, ◌&&◌, if◌then◌else◌,
}
use ai_council.Runner.Diff.{Line}
use ai_council.Runner.Files.{
  File, Disk, Os, Snapshot, replace_file, remove, bring_back, restore_one, restore,
}

-- What a snapshot stands for
abbrev file_if : Bool → Line → ℕ → Option File
file_if true content mode = some (record { content = content; mode = mode })
file_if false content mode = none

abbrev pub original : Snapshot → Option File
original s = file_if s.existed s.content s.mode

abbrev pub covers : List Snapshot → String → Bool
covers ss p = any (λ s. str_eq p s.path) ss

both : (a b : Bool) → (a && b) ≡ true → (a ≡ true) × (b ≡ true)
both a b h = ground arith

module _ (os : Os) (before : Disk) where
  -- Snapshots of the files as they were before.
  abbrev pub AreTaken : List Snapshot → Type 0
  AreTaken ss = All (λ s. before.at s.path ≡ original s) ss

  pub replace-at :
      (path : String) (new : Line) (mode : ℕ) (d : Disk) (p : String)
      → (replace_file os path new mode d).0 ≡ true
      → (replace_file os path new mode d).1.at p
        ≡ (if str_eq p path then some (record { content = new; mode = mode }) else d.at p)
  unfolding replace_file
  replace-at path new mode d p h = ground arith

  remove-at :
      (path : String) (d : Disk) (p : String)
      → (remove os path d).0 ≡ true
      → (remove os path d).1.at p ≡ (if str_eq p path then none else d.at p)
  unfolding remove
  remove-at path d p h = elim (Option-cases (d.at path)) [
    | inl e ↦ elim (Bool-cases (str_eq p path)) [
      | inl f ↦ rw (e, f) (ap (λ q. d.at q) ((eq_iff p path).0 f) ∙ e)
      | inr f ↦ rw (e, f) refl
    ]
    | inr (file, e) ↦ ground arith
  ]

  bring_back-at :
      (existed : Bool) (path : String) (old : Line) (mode : ℕ) (d : Disk) (p : String)
      → (bring_back os existed path old mode d).0 ≡ true
      → (bring_back os existed path old mode d).1.at p
        ≡ (if str_eq p path then file_if existed old mode else d.at p)
  unfolding bring_back
  bring_back-at true path old mode d p h = replace-at path old mode d p h
  bring_back-at false path old mode d p h = remove-at path d p h

  restore_one-at :
      (s : Snapshot) (d : Disk) (p : String)
      → (restore_one os s d).0 ≡ true
      → (restore_one os s d).1.at p ≡ (if str_eq p s.path then original s else d.at p)
  unfolding restore_one
  restore_one-at s d p h = bring_back-at s.existed s.path s.content s.mode d p h

  -- Where no call of the restoration fails, every file that has a snapshot is as it was before, and
  -- so is every file that was not changed.
  pub restore_undoes :
      (ss : List Snapshot) (d : Disk) (p : String)
      → AreTaken ss
      → (covers ss p ≡ true) ⊎ (d.at p ≡ before.at p)
      → (restore os ss d).0 ≡ true
      → (restore os ss d).1.at p ≡ before.at p
  unfolding restore
  restore_undoes [] d p taken h fine = elim h [ inl e ↦ ground arith | inr e ↦ e ]
  restore_undoes (s ∷ ss) d p (t, taken) h fine =
      let later = restore os ss d in
      let (fine_later, fine_this) = both later.0 (restore_one os s later.1).0 fine in
      restore_one-at s later.1 p fine_this ∙ elim (Bool-cases (str_eq p s.path)) [
        | inl e ↦ rw e (sym t ∙ ap (λ q. before.at q) (sym ((eq_iff p s.path).0 e)))
        | inr e ↦ rw e (restore_undoes ss d p taken (rw e at h) fine_later)
      ]
