-- ===== src/Runner/Files/Steps.antt =====
-- The parts of `Apply` of internal/runner/files/transaction.go: the preparation, which changes no
-- file, and the replacements with their rollback.
use ai_council.Prelude.{
  ℕ, ◌≡◌, ◌⊎◌, refl, String, Bool, true, false, Option, none, some, List, [], ◌∷◌, inl, inr, arith,
  ◌∙◌, sym, ap, Bool-cases, All, str_eq, eq_iff,
}
use ai_council.Schema.{Patch}
use ai_council.Runner.Diff.{Line, Diffed, patched, mismatch, panicked}
use ai_council.Runner.Files.{
  File, Disk, Os, Snapshot, Target, Prepared, prepared, refused, crashed, Outcome, applied, failed,
  rollback_failed, panic, mode_of, tick, snapshot, target, bad_hash, keep_target, check_patch,
  prepare_at, prepare, replace_file, restore, roll_back, write_all, apply_prepared, with_first,
}
use ai_council.Runner.Files.Undo.{original, covers, AreTaken, replace-at, restore_undoes}

pub after_kept : {c d : Bool} {x y z : Option File} → (c ≡ d) ⊎ (x ≡ z) → y ≡ x → (c ≡ d) ⊎ (y ≡ z)
after_kept (inl e) f = inl e
after_kept (inr e) f = inr (f ∙ e)

module _ (os : Os) (before : Disk) where
  -- Targets whose files have snapshots
  abbrev AreCovered : List Snapshot → List Target → Type 0
  AreCovered ss ts = All (λ t. covers ss t.path ≡ true) ts

  abbrev pub IsKept : List Snapshot → Disk → Type 0
  IsKept ss d = (p : String) → (covers ss p ≡ true) ⊎ (d.at p ≡ before.at p)

  replace_kept :
      (path : String) (new : Line) (mode : ℕ) (d : Disk) (p : String)
      → (replace_file os path new mode d).0 ≡ false
      → (replace_file os path new mode d).1.at p ≡ d.at p
  unfolding replace_file
  replace_kept path new mode d p h = ground arith

  written-IsKept :
      (t : Target) (ss : List Snapshot) (d : Disk)
      → covers ss t.path ≡ true
      → IsKept ss d
      → IsKept ss (replace_file os t.path t.data_ t.mode d).1
  written-IsKept t ss d c kept p = elim (Bool-cases (replace_file os t.path t.data_ t.mode d).0) [
    | inl e ↦ elim (Bool-cases (str_eq p t.path)) [
      | inl f ↦ inl (ap (λ q. covers ss q) ((eq_iff p t.path).0 f) ∙ c)
      | inr f ↦ after_kept (kept p) (replace-at os before t.path t.data_ t.mode d p e ∙ rw f refl)
    ]
    | inr e ↦ after_kept (kept p) (replace_kept t.path t.data_ t.mode d p e)
  ]

  -- What a run of the replacements leaves behind
  abbrev Wrote : List Snapshot → Outcome × Disk → Type 0
  Wrote ss (applied rs, d) = (rs ≡ ss) × IsKept ss d
  Wrote ss (failed, d) = (p : String) → d.at p ≡ before.at p
  Wrote ss (_, d) = Unit

  roll_back-Wrote :
      (ss : List Snapshot) (d : Disk)
      → AreTaken os before ss
      → IsKept ss d
      → Wrote ss (roll_back os ss d)
  unfolding roll_back
  roll_back-Wrote ss d taken kept = elim (Bool-cases (restore os ss d).0) [
    | inl e ↦ rw e (λ p. restore_undoes os before ss d p taken (kept p) e)
    | inr e ↦ rw e tt
  ]

  write_all-Wrote :
      (ts : List Target) (ss : List Snapshot) (d : Disk)
      → AreTaken os before ss
      → AreCovered ss ts
      → IsKept ss d
      → Wrote ss (write_all os ts ss d)
  unfolding write_all
  write_all-Wrote [] ss d taken c kept = (refl, kept)
  write_all-Wrote (t ∷ ts) ss d taken (c, cs) kept =
      let written = replace_file os t.path t.data_ t.mode d in
      elim (Bool-cases written.0) [
        | inl e ↦ rw e (write_all-Wrote ts ss written.1 taken cs (written-IsKept t ss d c kept))
        | inr e ↦ rw e (roll_back-Wrote ss written.1 taken (written-IsKept t ss d c kept))
      ]

  -- What the preparation answers: it changes no file, and its snapshots are of the files before.
  abbrev pub IsReady : Prepared × Disk → Type 0
  IsReady (prepared ts ss, d) =
      ((p : String) → d.at p ≡ before.at p) × AreTaken os before ss × AreCovered ss ts
  IsReady (_, d) = (p : String) → d.at p ≡ before.at p

  more-AreCovered :
      (s : Snapshot) (ss : List Snapshot) (ts : List Target)
      → AreCovered ss ts
      → AreCovered (s ∷ ss) ts
  more-AreCovered s ss [] h = tt
  more-AreCovered s ss (t ∷ ts) (c, h) = (ground arith, more-AreCovered s ss ts h)

  with_first-IsReady :
      (t : Target) (s : Snapshot) (r : Prepared × Disk)
      → t.path ≡ s.path
      → before.at s.path ≡ original s
      → IsReady r
      → IsReady (with_first t s r)
  with_first-IsReady t s (prepared ts ss, d) e taken (kept, all_taken, covered) = (
    kept,
    (taken, all_taken),
    (ground (arith, (eq_iff t.path s.path).1 e), more-AreCovered s ss ts covered),
  )
  with_first-IsReady t s (refused, d) e taken h = h
  with_first-IsReady t s (crashed, d) e taken h = h

  snapshot-original :
      ((n : ℕ) → os.stat_fault n ≡ false)
      → (path : String) (old : Option File) (d : Disk) → original (snapshot os path old d) ≡ old
  unfolding snapshot mode_of
  snapshot-original stat path none d = refl
  snapshot-original stat path (some f) d = rw (stat d.calls) refl

  keep_target-IsReady :
      ((n : ℕ) → os.stat_fault n ≡ false)
      → (diffed : Diffed) (path : String) (old : Option File) (d : Disk) (rest : Prepared × Disk)
      → before.at path ≡ old
      → ((p : String) → d.at p ≡ before.at p)
      → IsReady rest
      → IsReady (keep_target os diffed path old d rest)
  unfolding keep_target snapshot target
  keep_target-IsReady stat (patched new) path old d rest e kept ready =
      with_first-IsReady (target os path new old d) (snapshot os path old d) rest refl
        (e ∙ sym (snapshot-original stat path old d)) ready
  keep_target-IsReady stat mismatch path old d rest e kept ready = kept
  keep_target-IsReady stat panicked path old d rest e kept ready = kept

  check_patch-IsReady :
      ((n : ℕ) → os.stat_fault n ≡ false)
      → (q : Patch) (path : String) (old : Option File) (d : Disk) (rest : Prepared × Disk)
      → before.at path ≡ old
      → ((p : String) → d.at p ≡ before.at p)
      → IsReady rest
      → IsReady (check_patch os q path old d rest)
  unfolding check_patch bad_hash
  check_patch-IsReady stat q path old d rest e kept ready = elim (Bool-cases (bad_hash os q old)) [
    | inl b ↦ rw b kept
    | inr b ↦ rw b (keep_target-IsReady stat _ path old d rest e kept ready)
  ]

  prepare_at-IsReady :
      ((n : ℕ) → os.stat_fault n ≡ false)
      → (path : Option String) (q : Patch) (d : Disk) (rest : Prepared × Disk)
      → ((p : String) → d.at p ≡ before.at p)
      → IsReady rest
      → IsReady (prepare_at os path q d rest)
  unfolding prepare_at
  prepare_at-IsReady stat none q d rest kept ready = kept
  prepare_at-IsReady stat (some path) q d rest kept ready = elim (Bool-cases (os.fault d.calls)) [
    | inl f ↦ rw f kept
    | inr f ↦ rw f (
        check_patch-IsReady stat q path (d.at path) (tick (tick d)) rest (sym (kept path)) kept
          ready)
  ]

  pub prepare-IsReady :
      ((n : ℕ) → os.stat_fault n ≡ false)
      → (ps : List Patch) (d : Disk) → ((p : String) → d.at p ≡ before.at p)
      → IsReady (prepare os ps d)
  unfolding prepare
  prepare-IsReady stat [] d kept = (kept, tt, tt)
  prepare-IsReady stat (q ∷ ps) d kept =
      prepare_at-IsReady stat (os.resolve_write q.path) q d (prepare os ps (tick (tick d))) kept
        (prepare-IsReady stat ps (tick (tick d)) kept)

  abbrev pub Applied : Outcome × Disk → Type 0
  Applied (applied ss, d) = AreTaken os before ss × IsKept ss d
  Applied (failed, d) = (p : String) → d.at p ≡ before.at p
  Applied (_, d) = Unit

  Wrote-Applied :
      (ss : List Snapshot) (r : Outcome × Disk) → AreTaken os before ss → Wrote ss r → Applied r
  Wrote-Applied ss (applied rs, d) taken (e, kept) = (rw e taken, rw e kept)
  Wrote-Applied ss (failed, d) taken h = h
  Wrote-Applied ss (rollback_failed, d) taken h = tt
  Wrote-Applied ss (panic, d) taken h = tt

  pub apply_prepared-Applied : (r : Prepared × Disk) → IsReady r → Applied (apply_prepared os r)
  unfolding apply_prepared
  apply_prepared-Applied (prepared ts ss, d) (kept, taken, covered) =
      Wrote-Applied ss (write_all os ts ss d) taken
        (write_all-Wrote ts ss d taken covered (λ p. inr (kept p)))
  apply_prepared-Applied (refused, d) kept = kept
  apply_prepared-Applied (crashed, d) kept = tt
