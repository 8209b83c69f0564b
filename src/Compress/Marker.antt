-- ===== src/Compress/Marker.antt =====
-- The line with a key that internal/compress adds to an output.
use headroom_go.Common.{
  ℕ, ◌+◌, ◌≤◌, ◌≡◌, refl, Bool, Bool-cases, inl, inr, true, not, ◌&&◌, List, [], ◌∷◌, ◌++◌, arith,
  Bytes, codes, ◌==◌, if◌then◌else◌, length, All,
}
use headroom_go.Common.Lines.{split_lines, onto_first}
use headroom_go.Ccr.Key.{HashSums, compute_key_md5, compute_key-IsHash}
use headroom_go.Ccr.Marker.{decimal, is_hex}
use headroom_go.Ccr.Marker.Decimal.{IsDigit, decimal-IsDigit}

abbrev pub no_newline : Bytes → Bool
no_newline [] = true
no_newline (c ∷ s) = not (c == 10) && no_newline s

abbrev OneLine : Bytes → Type 0
OneLine s = no_newline s ≡ true

no_newline-append : (a b : Bytes) → no_newline (a ++ b) ≡ no_newline a && no_newline b
no_newline-append [] b = refl
no_newline-append (c ∷ a) b = ground (arith, no_newline-append a b)

digits-OneLine : (s : Bytes) → All IsDigit s → OneLine s
digits-OneLine [] h = refl
digits-OneLine (c ∷ s) h = ground (arith, h.0, digits-OneLine s h.1)

hash-OneLine : (s : Bytes) → All (λ c. is_hex c ≡ true) s → OneLine s
unfolding is_hex
hash-OneLine [] h = refl
hash-OneLine (c ∷ s) h = ground (arith, h.0, hash-OneLine s h.1)

length-onto_first : (c : ℕ) (ls : List Bytes) → 1 ≤ length ls → length (onto_first c ls) ≡ length ls
length-onto_first c [] h = absurd (omega (arith, h))
length-onto_first c (l ∷ ls) h = refl

some_line : (s : Bytes) → 1 ≤ length (split_lines s)
unfolding split_lines
some_line [] = omega arith
some_line (c ∷ s) = elim (Bool-cases (c == 10)) [
  | inl ends ↦ rw ends (omega arith)
  | inr inside ↦
      rw inside (omega (arith, some_line s, length-onto_first c (split_lines s) (some_line s)))
]

-- A byte before a text.
lines-cons :
    (c : ℕ) (s : Bytes)
    → length (split_lines (c ∷ s))
      ≡ (if c == 10 then length (split_lines s) + 1 else length (split_lines s))
unfolding split_lines
lines-cons c s = ground (arith, length-onto_first c (split_lines s) (some_line s))

one_line : (s : Bytes) → OneLine s → length (split_lines s) ≡ 1
unfolding split_lines
one_line [] h = refl
one_line (c ∷ s) h = ground (arith, h, lines-cons c s, one_line s (ground (arith, h)))

line_added :
    (a m : Bytes) → OneLine m → length (split_lines (a ++ (10 ∷ m))) ≡ length (split_lines a) + 1
unfolding split_lines
line_added [] m h = omega (arith, one_line m h)
line_added (c ∷ a) m h =
    ground (arith, lines-cons c a, lines-cons c (a ++ (10 ∷ m)), line_added a m h)

-- The two counts and the key in brackets, whatever the words between them, are one more line.
pub marker_added :
    (sums : HashSums) (content body : Bytes) (n k : ℕ) (verb tail : Bytes)
    → no_newline verb ≡ true
    → no_newline tail ≡ true
    → length (
        split_lines (
          body
          ++ (codes "\n["
              ++ (decimal n
                  ++ (verb
                      ++ (decimal k ++ (tail ++ (compute_key_md5 sums content ++ codes "]"))))))))
      ≡ length (split_lines body) + 1
marker_added sums content body n k verb tail v t = line_added body _ (
    simp (
      no_newline-append,
      digits-OneLine (decimal n) (decimal-IsDigit n),
      digits-OneLine (decimal k) (decimal-IsDigit k),
      v,
      t,
      hash-OneLine (compute_key_md5 sums content) (compute_key-IsHash sums content).1.1,
    ))
