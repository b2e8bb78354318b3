-- ===== src/Prelude/Strings.antt =====
-- What the source uses of Go's package `strings`: white space and case, character by character.
use Prim.Native.Nat.{ℕ}
use Prim.Native.Char.{Char, code}
use Prim.Native.String.{String, [], ◌∷◌}
use mathlib.Core.Bool.{Bool, true, false, ◌&&◌, ◌||◌}
use crankfire.Prelude.Tests.{nat_beq, leb, if◌then◌else◌}

abbrev pub between : ℕ → ℕ → ℕ → Bool
between low high n = leb low n && leb n high

-- `unicode.IsSpace`.
abbrev pub is_space : ℕ → Bool
is_space n =
    between 9 13 n
    || nat_beq n 32
    || nat_beq n 133
    || nat_beq n 160
    || nat_beq n 5760
    || between 8192 8202 n
    || nat_beq n 8232
    || nat_beq n 8233
    || nat_beq n 8239
    || nat_beq n 8287
    || nat_beq n 12288

abbrev pub is_empty : String → Bool
is_empty [] = true
is_empty (c ∷ s) = false

unfoldable pub trim_left : String → String
trim_left [] = []
trim_left (c ∷ s) = let rest = trim_left s in if is_space (code c) then rest else c ∷ s

unfoldable pub trim_end : String → String
trim_end [] = []
trim_end (c ∷ s) =
    let rest = trim_end s in if is_space (code c) && is_empty rest then [] else c ∷ rest

-- `strings.TrimSpace`.
unfoldable pub trim_space : String → String
unfolding trim_left trim_end
trim_space s = trim_end (trim_left s)

-- `strings.ToLower`, by the lower case of a character.
unfoldable pub lower_all : (Char → Char) → String → String
lower_all lower [] = []
lower_all lower (c ∷ s) = lower c ∷ lower_all lower s

-- The first character of a name, and the others.
abbrev pub is_letter : ℕ → Bool
is_letter n = between 97 122 n || between 65 90 n || nat_beq n 95

abbrev pub is_word : ℕ → Bool
is_word n = is_letter n || between 48 57 n

unfoldable pub are_words : String → Bool
are_words [] = true
are_words (c ∷ s) = is_word (code c) && are_words s
