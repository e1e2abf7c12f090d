-- ===== src/Runner/Diff.antt =====
-- `applyUnifiedDiff` of internal/runner/files/transaction.go, on texts as bytes.
pub mod Hunks
mod Examples
use ai_council.Prelude.{
  ℕ, ℤ, pos, negsuc, zero, suc, ◌+◌, ◌-◌, ◌*◌, ◌^◌, Bool, true, false, Option, none, some, List, [],
  ◌∷◌, ◌++◌, ltb, leb, ◌==◌, not, ◌&&◌, ◌||◌, codes, if◌then◌else◌,
}

abbrev pub Line : Type 0
Line = List ℕ

abbrev pub bytes_eq : Line → Line → Bool
bytes_eq [] [] = true
bytes_eq [] (d ∷ ds) = false
bytes_eq (c ∷ cs) [] = false
bytes_eq (c ∷ cs) (d ∷ ds) = (c == d) && bytes_eq cs ds

-- `strings.HasPrefix(l, p)`
abbrev pub has_prefix : Line → Line → Bool
has_prefix l [] = true
has_prefix [] (d ∷ ds) = false
has_prefix (c ∷ cs) (d ∷ ds) = (c == d) && has_prefix cs ds

-- The white space of package unicode, in UTF-8: its width at the start of a text, or 0.
space_width : Line → ℕ
space_width [] = 0
space_width (a ∷ rest) = if (leb 9 a && leb a 13) || (a == 32) then 1 else wide_space a rest
  where
    wide_space : ℕ → Line → ℕ
    wide_space a [] = 0
    wide_space a (b ∷ []) = if (a == 194) && ((b == 133) || (b == 160)) then 2 else 0
    wide_space a (b ∷ c ∷ rest) =
        if (a == 194) && ((b == 133) || (b == 160))
        then 2
        else if ((a == 225) && ((b == 154) && (c == 128)))
            || (((a == 226) && ((b == 128) && (leb 128 c && leb c 138)))
                || (((a == 226) && ((b == 128) && ((c == 168) || ((c == 169) || (c == 175)))))
                    || (((a == 226) && ((b == 129) && (c == 159)))
                        || ((a == 227) && ((b == 128) && (c == 128))))))
        then 3
        else 0

-- Puts a byte in front of the first field, which is open or not.
add_byte : ℕ → Bool × List Line → Bool × List Line
add_byte c (true, f ∷ fs) = (true, (c ∷ f) ∷ fs)
add_byte c (_, fs) = (true, (c ∷ []) ∷ fs)

-- `strings.Fields`; `skip` bytes of white space are still to be passed over.
split_fields : ℕ → Line → Bool × List Line
split_fields skip [] = (false, [])
split_fields (suc skip) (c ∷ cs) = (false, (split_fields skip cs).1)
split_fields zero (c ∷ cs) = elim (space_width (c ∷ cs)) [
  | zero ↦ add_byte c (split_fields zero cs)
  | suc w ↦ (false, (split_fields w cs).1)
]

abbrev fields : Line → List Line
fields l = (split_fields zero l).1

-- `strings.Split(s, ",")[0]`
before_comma : Line → Line
before_comma [] = []
before_comma (c ∷ cs) = if c == b',' then [] else c ∷ before_comma cs

-- The digits of a number, `none` where another byte stands among them.
number : ℕ → Line → Option ℕ
number n [] = some n
number n (c ∷ cs) = if leb b'0' c && leb c b'9' then number (n * 10 + (c - b'0')) cs else none

digits : Line → Option ℕ
digits [] = none
digits (c ∷ cs) = number 0 (c ∷ cs)

clamp : ℕ → ℕ → ℕ
clamp limit n = if leb n limit then n else limit

negative : ℕ → ℤ
negative zero = pos 0
negative (suc n) = negsuc n

-- The value of `strconv.Atoi`, its error passed over: 0 for a text that is no number, and the
-- nearest number where it does not fit into 64 bits.
atoi : Line → ℤ
atoi [] = pos 0
atoi (c ∷ cs) =
    if c == b'-'
    then elim (digits cs) [ none ↦ pos 0 | some n ↦ negative (clamp (2 ^ 63) n) ]
    else elim (digits (if c == b'+' then cs else c ∷ cs)) [
      | none ↦ pos 0
      | some n ↦ pos (clamp (2 ^ 63 - 1) n)
    ]

-- `start-1` as the number of lines before the hunk: none where it is negative; it wraps round.
lines_before : ℤ → ℕ
lines_before (pos n) = n - 1
lines_before (negsuc n) = if n == 2 ^ 63 - 1 then 2 ^ 63 - 1 else 0

trim_minus : Line → Line
trim_minus [] = []
trim_minus (c ∷ cs) = if c == b'-' then cs else c ∷ cs

header_of : List Line → Option ℕ
header_of (_ ∷ old ∷ _ ∷ _) = some (lines_before (atoi (before_comma (trim_minus old))))
header_of _ = none

-- The number of old lines before a hunk that begins with the line `l`; `none` for a bad header.
unfoldable pub header : Line → Option ℕ
unfolding split_fields header_of lines_before atoi before_comma trim_minus add_byte space_width
    negative clamp digits number
header l = header_of (fields l)

abbrev pub prepend : Line → Option (List Line) → Option (List Line)
prepend x none = none
prepend x (some xs) = some (x ∷ xs)

-- What is done from line number `oi` of the old text on, with the old lines that are left: the new
-- lines, or `none` for an error.
abbrev pub Rest : Type 0
Rest = ℕ → List Line → Option (List Line)

-- Copies old lines up to the hunk.
unfoldable pub copy : ℕ → Rest → Rest
copy limit next oi [] = next oi []
copy limit next oi (x ∷ xs) =
    let more = prepend x (copy limit next (suc oi) xs) in
    if ltb oi limit then more else next oi (x ∷ xs)

unfoldable pub start_hunk : Option ℕ → Rest → Rest
unfolding copy
start_hunk none next oi old = none
start_hunk (some limit) next oi old = copy limit next oi old

-- An old line that the diff names: `kept` is whether it goes on to the new text.
unfoldable pub match_line : Bool → Line → Rest → Rest
match_line kept l next oi [] = none
match_line kept l next oi (x ∷ xs) =
    if bytes_eq x l then (if kept then prepend x (next (suc oi) xs) else next (suc oi) xs) else none

abbrev pub no_newline : Line
no_newline = codes "\\ No newline at end of file"

-- A line of a hunk
unfoldable pub hunk_line : Line → Rest → Rest
unfolding match_line
hunk_line [] next oi old = next oi old
hunk_line (c ∷ l) next oi old =
    if bytes_eq (c ∷ l) no_newline
    then next oi old
    else if c == 32
    then match_line true l next oi old
    else if c == b'-'
    then match_line false l next oi old
    else if c == b'+'
    then prepend l (next oi old)
    else next oi old

abbrev pub is_header : Line → Bool
is_header l = has_prefix l (b'@' ∷ b'@' ∷ [])

-- The loops over the lines of the diff; `in_hunk` tells the inner one.
unfoldable pub apply_lines : Bool → List Line → Rest
unfolding start_hunk hunk_line header
apply_lines in_hunk [] oi old = some old
apply_lines in_hunk (l ∷ ls) oi old =
    if is_header l
    then start_hunk (header l) (apply_lines true ls) oi old
    else if in_hunk
    then hunk_line l (apply_lines true ls) oi old
    else apply_lines false ls oi old

-- `strings.ReplaceAll(diff, "\r\n", "\n")`
replace_crlf : Line → Line
replace_crlf [] = []
replace_crlf (c ∷ []) = c ∷ []
replace_crlf (c ∷ d ∷ cs) =
    let rest = replace_crlf (d ∷ cs) in if (c == 13) && (d == 10) then rest else c ∷ rest

in_front : ℕ → List Line → List Line
in_front c [] = (c ∷ []) ∷ []
in_front c (l ∷ ls) = (c ∷ l) ∷ ls

-- `strings.Split(s, "\n")`
unfoldable pub split_lines : Line → List Line
unfolding in_front
split_lines [] = [] ∷ []
split_lines (c ∷ cs) = let rest = split_lines cs in if c == 10 then [] ∷ rest else in_front c rest

-- `strings.TrimSuffix(s, "\n")`
trim_newline : Line → Line
trim_newline [] = []
trim_newline (c ∷ []) = if c == 10 then [] else c ∷ []
trim_newline (c ∷ d ∷ cs) = c ∷ trim_newline (d ∷ cs)

-- A text of one empty line has no lines.
old_lines : List Line → List Line
old_lines ([] ∷ []) = []
old_lines ls = ls

-- `strings.Join(out, "\n") + "\n"`
unfoldable pub join_lines : List Line → Line
join_lines [] = 10 ∷ []
join_lines (l ∷ []) = l ++ 10 ∷ []
join_lines (l ∷ m ∷ ls) = l ++ 10 ∷ join_lines (m ∷ ls)

-- The new text, an error, or the panic of a slice that is out of bounds.
pub data Diffed : Type 0 where
  patched : Line → Diffed
  mismatch panicked : Diffed

diffed : Option (List Line) → Diffed
diffed none = mismatch
diffed (some out) = Diffed.patched (join_lines out)

-- `lines = lines[2:]` where the first line begins with `---`.
after_names : List Line → Option (List Line)
after_names [] = some []
after_names (l ∷ ls) =
    if has_prefix l (b'-' ∷ b'-' ∷ b'-' ∷ [])
    then elim ls [ [] ↦ none | _ ∷ rest ↦ some rest ]
    else some (l ∷ ls)

unfoldable pub apply_unified_diff : Line → Line → Diffed
unfolding apply_lines replace_crlf split_lines trim_newline old_lines join_lines diffed after_names
apply_unified_diff original diff = elim (after_names (split_lines (replace_crlf diff))) [
  | none ↦ panicked
  | some lines ↦
      diffed (apply_lines false lines 0 (old_lines (split_lines (trim_newline original))))
]
