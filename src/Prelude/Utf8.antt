-- ===== src/Prelude/Utf8.antt =====
-- `utf8.Valid` of Go's standard library, byte by byte.
use Prim.Native.Nat.{ℕ, zero, suc}
use mathlib.Core.Bool.{Bool, false, ◌&&◌}
use mathlib.Core.Option.{Option, none, some}
use mathlib.Core.List.{List, [], ◌∷◌}
use ai_council.Prelude.Tests.{ltb, leb, ◌==◌, if◌then◌else◌}

-- How many continuation bytes are due, and the range of the next.
record Due : Type 0 where
  count : ℕ
  low : ℕ
  high : ℕ

abbrev due : ℕ → ℕ → ℕ → Option Due
due count low high = some (record { count = count; low = low; high = high })

abbrev between : ℕ → ℕ → ℕ → Bool
between low high b = leb low b && leb b high

first_byte : ℕ → Option Due
first_byte b =
    if ltb b 0x80
    then due 0 0x80 0xbf
    else if between 0xc2 0xdf b
    then due 1 0x80 0xbf
    else if b == 0xe0
    then due 2 0xa0 0xbf
    else if b == 0xed
    then due 2 0x80 0x9f
    else if between 0xe1 0xef b
    then due 2 0x80 0xbf
    else if b == 0xf0
    then due 3 0x90 0xbf
    else if between 0xf1 0xf3 b
    then due 3 0x80 0xbf
    else if b == 0xf4
    then due 3 0x80 0x8f
    else none

next_byte : ℕ → ℕ → ℕ → ℕ → Option Due
next_byte zero low high b = first_byte b
next_byte (suc count) low high b = if between low high b then due count 0x80 0xbf else none

scan : Due → List ℕ → Bool
scan d [] = d.count == 0
scan d (b ∷ bs) = elim (next_byte d.count d.low d.high b) [ none ↦ false | some e ↦ scan e bs ]

unfoldable pub utf8_valid : List ℕ → Bool
unfolding scan next_byte first_byte
utf8_valid = scan (record { count = 0; low = 0x80; high = 0xbf })
