-- ===== src/Runner/Files.antt =====
-- `Transaction` of internal/runner/files/transaction.go: patches are prepared, applied one file at a
-- time, and undone from snapshots.
pub mod Undo
pub mod Steps
pub mod Atomic
mod Examples
use ai_council.Prelude.{
  ℕ, suc, String, Bool, true, false, Option, none, some, List, [], ◌∷◌, ◌++◌, str_eq, is_empty, not,
  ◌&&◌, ◌||◌, if◌then◌else◌,
}
use ai_council.Schema.{Patch}
use ai_council.Runner.Diff.{Line, Diffed, patched, mismatch, panicked, apply_unified_diff}

pub record File : Type 0 where
  pub content : Line
  pub mode : ℕ

-- The files of the workspace, and the number of system calls so far.
pub record Disk : Type 0 where
  pub at : String → Option File
  pub calls : ℕ

-- The path guard, the bytes of a text, the digest, and which system calls fail; `stat` may fail on a
-- file that was read.
pub record Os : Type 0 where
  pub resolve_write : String → Option String
  pub bytes : String → Line
  pub hash_bytes : Line → String
  pub fault : ℕ → Bool
  pub stat_fault : ℕ → Bool

pub record Snapshot : Type 0 where
  pub path : String
  pub existed : Bool
  pub mode : ℕ
  pub content : Line

-- What is to be written
pub record Target : Type 0 where
  pub path : String
  pub data_ : Line
  pub mode : ℕ

abbrev pub tick : Disk → Disk
tick d = record d { calls = suc d.calls }

abbrev pub content_of : Option File → Line
content_of none = []
content_of (some f) = f.content

abbrev pub exists_ : Option File → Bool
exists_ none = false
exists_ (some f) = true

pub data Prepared : Type 0 where
  prepared : List Target → List Snapshot → Prepared
  refused crashed : Prepared

pub data Outcome : Type 0 where
  applied : List Snapshot → Outcome
  failed rollback_failed panic : Outcome

abbrev pub with_first : Target → Snapshot → Prepared × Disk → Prepared × Disk
with_first t s (prepared ts ss, d) = (prepared (t ∷ ts) (s ∷ ss), d)
with_first t s (p, d) = (p, d)

module _ (os : Os) where
  -- `0o600`, or the mode of the file
  unfoldable pub mode_of : Option File → Disk → ℕ
  mode_of none d = 384
  mode_of (some f) d = if os.stat_fault d.calls then 384 else f.mode

  unfoldable pub snapshot : String → Option File → Disk → Snapshot
  unfolding mode_of
  snapshot path old d = record {
    path = path;
    existed = exists_ old;
    mode = mode_of old d;
    content = content_of old;
  }

  unfoldable pub target : String → Line → Option File → Disk → Target
  unfolding mode_of
  target path new old d = record { path = path; data_ = new; mode = mode_of old d }

  unfoldable pub bad_hash : Patch → Option File → Bool
  bad_hash p old =
      not (is_empty p.before_hash) && not (str_eq (os.hash_bytes (content_of old)) p.before_hash)

  -- What the loop of the preparation does with the new text of a file; `rest` is what follows.
  unfoldable pub keep_target :
      Diffed → String → Option File → Disk → Prepared × Disk → Prepared × Disk
  unfolding snapshot target
  keep_target (patched new) path old d rest =
      with_first (target path new old d) (snapshot path old d) rest
  keep_target mismatch path old d rest = (refused, d)
  keep_target panicked path old d rest = (crashed, d)

  -- After the file was read
  unfoldable pub check_patch :
      Patch → String → Option File → Disk → Prepared × Disk → Prepared × Disk
  unfolding keep_target apply_unified_diff bad_hash
  check_patch p path old d rest =
      if bad_hash p old
      then (refused, d)
      else keep_target (apply_unified_diff (content_of old) (os.bytes p.unified_diff)) path old d
          rest

  -- With the path that the guard gives
  unfoldable pub prepare_at : Option String → Patch → Disk → Prepared × Disk → Prepared × Disk
  unfolding check_patch
  prepare_at none p d rest = (refused, d)
  prepare_at (some path) p d rest =
      if os.fault d.calls
      then (refused, tick d)
      else check_patch p path (d.at path) (tick (tick d)) rest

  unfoldable pub prepare : List Patch → Disk → Prepared × Disk
  unfolding prepare_at
  prepare [] d = (prepared [] [], d)
  prepare (p ∷ ps) d = prepare_at (os.resolve_write p.path) p d (prepare ps (tick (tick d)))

  -- `replaceFile`: a new file takes the place of the old one, or nothing happens.
  unfoldable pub replace_file : String → Line → ℕ → Disk → Bool × Disk
  replace_file path new mode d = if os.fault d.calls then (false, tick d) else (
    true,
    record {
      calls = suc d.calls;
      at = λ p. if str_eq p path then some (record { content = new; mode = mode }) else d.at p;
    },
  )

  -- `os.Remove`, where a missing file is no error
  unfoldable pub remove : String → Disk → Bool × Disk
  remove path d =
      if exists_ (d.at path)
      then (if os.fault d.calls then (false, tick d) else (
        true,
        record { calls = suc d.calls; at = λ p. if str_eq p path then none else d.at p },
      ))
      else (true, tick d)

  -- Brings back a file that existed, or that did not.
  unfoldable pub bring_back : Bool → String → Line → ℕ → Disk → Bool × Disk
  unfolding replace_file remove
  bring_back true path old mode d = replace_file path old mode d
  bring_back false path old mode d = remove path d

  unfoldable pub restore_one : Snapshot → Disk → Bool × Disk
  unfolding bring_back
  restore_one s d = bring_back s.existed s.path s.content s.mode d

  -- The loop of `restore` from the last snapshot to the first: whether no call failed.
  unfoldable pub restore : List Snapshot → Disk → Bool × Disk
  unfolding restore_one
  restore [] d = (true, d)
  restore (s ∷ ss) d =
      let later = restore ss d in let this = restore_one s later.1 in (later.0 && this.0, this.1)

  -- Where a file could not be replaced
  unfoldable pub roll_back : List Snapshot → Disk → Outcome × Disk
  unfolding restore
  roll_back ss d =
      let undone = restore ss d in (if undone.0 then failed else rollback_failed, undone.1)

  unfoldable pub write_all : List Target → List Snapshot → Disk → Outcome × Disk
  unfolding replace_file roll_back
  write_all [] ss d = (applied ss, d)
  write_all (t ∷ ts) ss d =
      let written = replace_file t.path t.data_ t.mode d in
      let rest = write_all ts ss written.1 in if written.0 then rest else roll_back ss written.1

  unfoldable pub apply_prepared : Prepared × Disk → Outcome × Disk
  unfolding write_all
  apply_prepared (prepared ts ss, d) = write_all ts ss d
  apply_prepared (refused, d) = (failed, d)
  apply_prepared (crashed, d) = (panic, d)

  unfoldable pub apply : List Patch → Disk → Outcome × Disk
  unfolding prepare apply_prepared
  apply patches d = apply_prepared (prepare patches d)
