-- ===== src/Common/Text.antt =====
-- Go strings and byte slices as lists of bytes, and the tests of package `strings` on them.
use Prim.Native.Char.{code}
use Prim.Native.Nat.{ℕ}
use Prim.Native.String.{String}
use mathlib.Core.Bool.{Bool, true, false, ◌&&◌, ◌||◌}
use mathlib.Core.List.{List, [], ◌∷◌, ◌++◌}
use mathlib.Core.Logic.{◌↔◌}
use mathlib.Core.Option.{Option, none, some}
use mathlib.Core.Path.{◌≡◌, refl}
use native.Mathlib.Omega.{arith}
use headroom_go.Common.Tests.{◌==◌, if◌then◌else◌}

abbrev pub Bytes : Type 0
Bytes = List ℕ

-- The bytes of a literal: its code points, since every literal used is ASCII.
abbrev pub codes : String → Bytes
codes String.[] = []
codes (String.◌∷◌ c s) = code c ∷ codes s

-- Go's == on strings.
unfoldable pub text_eq : Bytes → Bytes → Bool
text_eq [] [] = true
text_eq [] (y ∷ ys) = false
text_eq (x ∷ xs) [] = false
text_eq (x ∷ xs) (y ∷ ys) = x == y && text_eq xs ys

text_eq-true : (a b : Bytes) → text_eq a b ≡ true → a ≡ b
unfolding text_eq
text_eq-true [] [] h = refl
text_eq-true [] (y ∷ ys) h = cc
text_eq-true (x ∷ xs) [] h = cc
text_eq-true (x ∷ xs) (y ∷ ys) h = ground (arith, text_eq-true xs ys)

pub text_eq_refl : (a : Bytes) → text_eq a a ≡ true
unfolding text_eq
text_eq_refl [] = refl
text_eq_refl (x ∷ xs) = ground (arith, text_eq_refl xs)

pub text_eq_iff : (a b : Bytes) → (text_eq a b ≡ true) ↔ (a ≡ b)
text_eq_iff a b = (text_eq-true a b, λ e. rw e (text_eq_refl b))

-- strings.HasPrefix, with the rest of the text.
unfoldable pub strip_prefix : Bytes → Bytes → Option Bytes
strip_prefix [] s = some s
strip_prefix (p ∷ ps) [] = none
strip_prefix (p ∷ ps) (c ∷ s) = let rest = strip_prefix ps s in if p == c then rest else none

pub strip_prefix-append : (p s : Bytes) → strip_prefix p (p ++ s) ≡ some s
unfolding strip_prefix
strip_prefix-append [] s = refl
strip_prefix-append (c ∷ p) s = ground (arith, strip_prefix-append p s)

pub strip_prefix_sound : (p s r : Bytes) → strip_prefix p s ≡ some r → s ≡ p ++ r
unfolding strip_prefix
strip_prefix_sound [] s r h = cc
strip_prefix_sound (x ∷ p) [] r h = cc
strip_prefix_sound (x ∷ p) (c ∷ s) r h = ground (arith, strip_prefix_sound p s r)

-- strings.HasPrefix.
abbrev pub has_prefix : Bytes → Bytes → Bool
has_prefix s p = elim (strip_prefix p s) [ none ↦ false | some _ ↦ true ]

-- strings.Contains.
unfoldable pub contains : Bytes → Bytes → Bool
unfolding strip_prefix
contains [] needle = elim (strip_prefix needle []) [ none ↦ false | some _ ↦ true ]
contains (c ∷ s) needle = elim (strip_prefix needle (c ∷ s)) [
  | none ↦ contains s needle
  | some _ ↦ true
]

-- Whether a text is in a list of texts.
unfoldable pub is_in : Bytes → List Bytes → Bool
unfolding text_eq
is_in t [] = false
is_in t (s ∷ ss) = text_eq s t || is_in t ss

-- No text twice.
abbrev pub Distinct : List Bytes → Type 0
Distinct [] = Unit
Distinct (x ∷ xs) = (is_in x xs ≡ false) × Distinct xs
