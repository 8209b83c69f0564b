-- ===== src/Common/Space.antt =====
-- unicode.IsSpace on UTF-8 text, and the functions of package `strings` that go by it.
use Prim.Native.Nat.{ℕ, zero, suc, ◌+◌, ◌-◌, ◌≤◌}
use mathlib.Core.Bool.{Bool, true, false, ◌&&◌, ◌||◌}
use mathlib.Core.List.{List, [], ◌∷◌}
use native.Mathlib.Omega.{arith}
use headroom_go.Common.Lists.{length}
use headroom_go.Common.Tests.{leb, ◌==◌, if◌then◌else◌}
use headroom_go.Common.Text.{Bytes}

third_is_space : ℕ → ℕ → ℕ → Bool
third_is_space a b c =
    (a == 0xE1 && b == 0x9A && c == 0x80)
    || (a == 0xE2
        && b == 0x80
        && ((leb 0x80 c && leb c 0x8A) || c == 0xA8 || c == 0xA9 || c == 0xAF))
    || (a == 0xE2 && b == 0x81 && c == 0x9F)
    || (a == 0xE3 && b == 0x80 && c == 0x80)

one_byte : ℕ → ℕ
one_byte a = if (leb 9 a && leb a 13) || a == 32 then 1 else 0

two_bytes : ℕ → ℕ → ℕ
unfolding one_byte
two_bytes a b = if a == 0xC2 && (b == 0x85 || b == 0xA0) then 2 else one_byte a

-- The bytes of the space at the start of a text, or 0.
unfoldable pub space_width : Bytes → ℕ
unfolding third_is_space one_byte two_bytes
space_width [] = 0
space_width (a ∷ []) = one_byte a
space_width (a ∷ b ∷ []) = two_bytes a b
space_width (a ∷ b ∷ c ∷ s) = if third_is_space a b c then 3 else two_bytes a b

abbrev add_word : Bytes → List Bytes → List Bytes
add_word [] ws = ws
add_word (c ∷ w) ws = (c ∷ w) ∷ ws

-- The start of a word up to the first space, and the words behind it; the first argument counts the
-- bytes left of a space.
unfoldable pub words_from : ℕ → Bytes → Bytes × List Bytes
unfolding space_width
words_from skip [] = ([], [])
words_from (suc skip) (c ∷ s) = words_from skip s
words_from zero (c ∷ s) =
    let (w, ws) = words_from (space_width (c ∷ s) - 1) s in
    if space_width (c ∷ s) == 0 then (c ∷ w, ws) else ([], add_word w ws)

-- strings.Fields.
unfoldable pub fields : Bytes → List Bytes
unfolding words_from
fields s = let (w, ws) = words_from 0 s in add_word w ws

-- strings.TrimLeftFunc(s, unicode.IsSpace).
trim_left_from : ℕ → Bytes → Bytes
unfolding space_width
trim_left_from skip [] = []
trim_left_from (suc skip) (c ∷ s) = trim_left_from skip s
trim_left_from zero (c ∷ s) =
    let rest = trim_left_from (space_width (c ∷ s) - 1) s in
    if space_width (c ∷ s) == 0 then c ∷ s else rest

unfoldable pub trim_left : Bytes → Bytes
unfolding trim_left_from
trim_left s = trim_left_from 0 s

abbrev no_words : List Bytes → Bool
no_words [] = true
no_words (w ∷ ws) = false

-- strings.TrimRightFunc(s, unicode.IsSpace): cut where only spaces are left.
unfoldable pub trim_right : Bytes → Bytes
unfolding fields
trim_right [] = []
trim_right (c ∷ s) = let rest = trim_right s in if no_words (fields (c ∷ s)) then [] else c ∷ rest

-- strings.TrimSpace.
unfoldable pub trim_space : Bytes → Bytes
unfolding trim_left trim_right
trim_space s = trim_right (trim_left s)

-- The bytes of words, with one more for each.
abbrev pub words_size : List Bytes → ℕ
words_size [] = 0
words_size (w ∷ ws) = length w + 1 + words_size ws

add_word_size :
    (w : Bytes) (ws : List Bytes) → words_size (add_word w ws) ≤ length w + 1 + words_size ws
add_word_size [] ws = omega arith
add_word_size (c ∷ w) ws = omega arith

words_from_size :
    (skip : ℕ) (s : Bytes)
    → length (words_from skip s).0 + words_size (words_from skip s).1 ≤ length s
unfolding words_from
words_from_size skip [] = omega arith
words_from_size (suc skip) (c ∷ s) = omega (arith, words_from_size skip s)
words_from_size zero (c ∷ s) =
    let r = words_from (space_width (c ∷ s) - 1) s in
    ground (arith, words_from_size (space_width (c ∷ s) - 1) s, add_word_size r.0 r.1)

-- The words are not larger than the text.
pub fields_size : (s : Bytes) → words_size (fields s) ≤ length s + 1
unfolding fields
fields_size s =
    omega (arith, words_from_size 0 s, add_word_size (words_from 0 s).0 (words_from 0 s).1)
