-- ===== src/Runner/Diff/Hunks.antt =====
-- What `applyUnifiedDiff` of internal/runner/files/transaction.go makes of the hunks of a diff.
use ai_council.Prelude.{
  ℕ, suc, ◌+◌, ◌<◌, ◌≡◌, refl, Bool, true, false, some, List, [], ◌∷◌, ◌++◌, length, ltb, arith,
  ◌∙◌, subst,
}
use native.Mathlib.Nat.{add-zero}
use ai_council.Runner.Diff.{
  Line, Rest, bytes_eq, is_header, header, copy, start_hunk, match_line, hunk_line, apply_lines,
}

pub data Edit : Type 0 where
  keep drop add : Line → Edit

-- The line of the diff for an edit
unfoldable pub render : Edit → Line
render (Edit.keep l) = 32 ∷ l
render (Edit.drop l) = b'-' ∷ l
render (Edit.add l) = b'+' ∷ l

-- A hunk: the old lines before it that the diff leaves out, its first line, and the edits.
pub record Hunk : Type 0 where
  pub gap : List Line
  pub first : Line
  pub edits : List Edit

-- The lines of the diff after those of the edits
unfoldable pub edit_lines : List Edit → List Line → List Line
unfolding render
edit_lines [] rest = rest
edit_lines (e ∷ es) rest = render e ∷ edit_lines es rest

unfoldable pub diff_lines : List Hunk → List Line
unfolding edit_lines
diff_lines [] = []
diff_lines (h ∷ hs) = h.first ∷ edit_lines h.edits (diff_lines hs)

-- What the edits take from the old text, and what they put into the new one, before `rest`
unfoldable pub old_side : List Edit → List Line → List Line
old_side [] rest = rest
old_side (Edit.keep l ∷ es) rest = l ∷ old_side es rest
old_side (Edit.drop l ∷ es) rest = l ∷ old_side es rest
old_side (Edit.add l ∷ es) rest = old_side es rest

unfoldable pub new_side : List Edit → List Line → List Line
new_side [] rest = rest
new_side (Edit.keep l ∷ es) rest = l ∷ new_side es rest
new_side (Edit.drop l ∷ es) rest = new_side es rest
new_side (Edit.add l ∷ es) rest = l ∷ new_side es rest

unfoldable pub old_text : List Hunk → List Line → List Line
unfolding old_side
old_text [] tail = tail
old_text (h ∷ hs) tail = h.gap ++ old_side h.edits (old_text hs tail)

unfoldable pub new_text : List Hunk → List Line → List Line
unfolding new_side
new_text [] tail = tail
new_text (h ∷ hs) tail = h.gap ++ new_side h.edits (new_text hs tail)

-- The number of old lines that the edits take
unfoldable pub old_length : List Edit → ℕ
old_length [] = 0
old_length (Edit.keep l ∷ es) = suc (old_length es)
old_length (Edit.drop l ∷ es) = suc (old_length es)
old_length (Edit.add l ∷ es) = old_length es

-- The first line of each hunk says how many old lines come before it, from line number `oi` on.
unfoldable pub IsPlaced : ℕ → List Hunk → Type 0
unfolding old_length
IsPlaced oi [] = Unit
IsPlaced oi (h ∷ hs) =
    (is_header h.first ≡ true)
    × (header h.first ≡ some (oi + length h.gap))
    × IsPlaced (oi + length h.gap + old_length h.edits) hs

ltb_refl : (n : ℕ) → ltb n n ≡ false
ltb_refl n = ground arith

ltb_less : (m n : ℕ) → m < n → ltb m n ≡ true
ltb_less m n h = ground arith

bytes_eq_refl : (l : Line) → bytes_eq l l ≡ true
bytes_eq_refl [] = refl
bytes_eq_refl (c ∷ cs) = ground (arith, bytes_eq_refl cs)

-- The old lines of the gap are copied.
copy_none : (next : Rest) (oi : ℕ) (old : List Line) → copy oi next oi old ≡ next oi old
unfolding copy
copy_none next oi [] = refl
copy_none next oi (x ∷ xs) = rw (ltb_refl oi) refl

copy_gap :
    (gap : List Line) (limit : ℕ) (next : Rest) (oi : ℕ) (old : List Line) (out : List Line)
    → limit ≡ oi + length gap
    → next limit old ≡ some out
    → copy limit next oi (gap ++ old) ≡ some (gap ++ out)
unfolding copy
copy_gap [] limit next oi old out e h =
    let same : limit ≡ oi = omega (arith, e) in rw (same) (copy_none next oi old ∙ (rw same at h))
copy_gap (g ∷ gap) limit next oi old out e h =
    rw
      (
        ltb_less oi limit (omega (arith, e)),
        copy_gap gap limit next (suc oi) old out (omega (arith, e)) h,
      )
      refl

-- The lines of a hunk do to the old text what the edits say.
edits_apply :
    (es : List Edit) (rest : List Line) (oi : ℕ) (old out : List Line)
    → apply_lines true rest (oi + old_length es) old ≡ some out
    → apply_lines true (edit_lines es rest) oi (old_side es old) ≡ some (new_side es out)
unfolding apply_lines edit_lines old_side new_side old_length hunk_line match_line
edits_apply [] rest oi old out h = rw add-zero at h
edits_apply (Edit.keep l ∷ es) rest oi old out h =
    rw
      (
        bytes_eq_refl l,
        edits_apply es rest (suc oi) old out
            (subst (λ n. apply_lines true rest n old ≡ some out) (omega arith) h),
      )
      refl
edits_apply (Edit.drop l ∷ es) rest oi old out h = rw (bytes_eq_refl l) (
    edits_apply es rest (suc oi) old out
      (subst (λ n. apply_lines true rest n old ≡ some out) (omega arith) h))
edits_apply (Edit.add l ∷ es) rest oi old out h = rw (edits_apply es rest oi old out h) refl

-- The first line of a hunk, in the inner loop and in the outer one
first_line :
    (in_hunk : Bool) (l : Line) (ls : List Line) (oi : ℕ) (old : List Line)
    → is_header l ≡ true
    → apply_lines in_hunk (l ∷ ls) oi old ≡ start_hunk (header l) (apply_lines true ls) oi old
unfolding apply_lines
first_line in_hunk l ls oi old h = rw h refl

nothing_left :
    (in_hunk : Bool) (oi : ℕ) (tail : List Line) → apply_lines in_hunk [] oi tail ≡ some tail
unfolding apply_lines
nothing_left in_hunk oi tail = refl

started :
    (gap : List Line) (limit : ℕ) (next : Rest) (oi : ℕ) (old out : List Line)
    → limit ≡ oi + length gap
    → next limit old ≡ some out
    → start_hunk (some limit) next oi (gap ++ old) ≡ some (gap ++ out)
unfolding start_hunk
started gap limit next oi old out e h = copy_gap gap limit next oi old out e h

-- Hunks that are placed where the old text has their lines turn the old text into the new one: the
-- lines of the gaps and the tail are kept, and each edit keeps, drops or adds its line.
pub hunks_apply :
    (in_hunk : Bool) (hs : List Hunk) (oi : ℕ) (tail : List Line)
    → IsPlaced oi hs
    → apply_lines in_hunk (diff_lines hs) oi (old_text hs tail) ≡ some (new_text hs tail)
unfolding diff_lines old_text new_text IsPlaced
hunks_apply in_hunk [] oi tail p = nothing_left in_hunk oi tail
hunks_apply in_hunk (h ∷ hs) oi tail (head_, place, rest) =
    first_line in_hunk h.first (edit_lines h.edits (diff_lines hs)) oi _ head_
    ∙ rw (place) (
        started h.gap (oi + length h.gap) _ oi _ _ refl (
          edits_apply h.edits (diff_lines hs) (oi + length h.gap) (old_text hs tail)
            (new_text hs tail) (hunks_apply true hs _ tail rest)))
