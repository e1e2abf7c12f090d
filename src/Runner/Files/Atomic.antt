-- ===== src/Runner/Files/Atomic.antt =====
-- What `Transaction` of internal/runner/files/transaction.go leaves behind when it fails, and when it
-- is undone.
use ai_council.Prelude.{
  ℕ, ◌≡◌, ◌⊎◌, refl, String, true, false, List, inl, inr, arith, Bool-cases, subst,
}
use ai_council.Schema.{Patch}
use ai_council.Runner.Files.{
  Disk, Os, Snapshot, Outcome, applied, failed, rollback_failed, panic, prepare, restore, apply,
}
use ai_council.Runner.Files.Undo.{covers, AreTaken, restore_undoes}
use ai_council.Runner.Files.Steps.{
  after_kept, IsKept, Applied, apply_prepared-Applied, prepare-IsReady,
}

module _ (os : Os) (stat : (n : ℕ) → os.stat_fault n ≡ false) where
  pub apply-Applied : (patches : List Patch) (d : Disk) → Applied os d (apply os patches d)
  unfolding apply
  apply-Applied patches d =
      apply_prepared-Applied os d (prepare os patches d)
        (prepare-IsReady os d stat patches d (λ p. refl))

  failed_kept :
      (d : Disk) (r : Outcome × Disk) (p : String)
      → Applied os d r
      → r.0 ≡ failed
      → r.1.at p ≡ d.at p
  failed_kept d (applied ss, e) p h f = ground arith
  failed_kept d (failed, e) p h f = h p
  failed_kept d (rollback_failed, e) p h f = ground arith
  failed_kept d (panic, e) p h f = ground arith

  -- An `Apply` that fails without a failure of its rollback has changed no file, whichever call
  -- failed, as long as the mode of a file that was read can be read too.
  pub apply_all_or_nothing :
      (patches : List Patch) (d : Disk) (p : String)
      → (apply os patches d).0 ≡ failed
      → (apply os patches d).1.at p ≡ d.at p
  apply_all_or_nothing patches d p h =
      failed_kept d (apply os patches d) p (apply-Applied patches d) h

  untouched :
      (d now : Disk) (ss : List Snapshot) (later : Disk) (p : String)
      → IsKept os d ss now
      → ((q : String) → covers ss q ≡ false → later.at q ≡ now.at q)
      → (covers ss p ≡ true) ⊎ (later.at p ≡ d.at p)
  untouched d now ss later p kept others = elim (Bool-cases (covers ss p)) [
    | inl c ↦ inl c
    | inr c ↦ after_kept (kept p) (others p c)
  ]

  restored :
      (d : Disk) (r : Outcome × Disk) (ss : List Snapshot) (later : Disk) (p : String)
      → Applied os d r
      → r.0 ≡ applied ss
      → ((q : String) → covers ss q ≡ false → later.at q ≡ r.1.at q)
      → (restore os ss later).0 ≡ true
      → (restore os ss later).1.at p ≡ d.at p
  restored d (applied rs, now) ss later p (taken, kept) e others fine =
      let same : rs ≡ ss = ground arith in
      restore_undoes os d ss later p (subst (λ xs. AreTaken os d xs) same taken)
        (untouched d now ss later p (subst (λ xs. IsKept os d xs now) same kept) others) fine
  restored d (failed, now) ss later p h e others fine = ground arith
  restored d (rollback_failed, now) ss later p h e others fine = ground arith
  restored d (panic, now) ss later p h e others fine = ground arith

  -- After an `Apply` that succeeded, a `Restore` without an error brings every file back to what it
  -- was before the `Apply`, whatever has happened to the patched files in between, as long as nothing
  -- else was changed.
  pub restore_after_apply :
      (patches : List Patch) (d : Disk) (ss : List Snapshot) (later : Disk) (p : String)
      → (apply os patches d).0 ≡ applied ss
      → ((q : String) → covers ss q ≡ false → later.at q ≡ (apply os patches d).1.at q)
      → (restore os ss later).0 ≡ true
      → (restore os ss later).1.at p ≡ d.at p
  restore_after_apply patches d ss later p e others fine =
      restored d (apply os patches d) ss later p (apply-Applied patches d) e others fine
