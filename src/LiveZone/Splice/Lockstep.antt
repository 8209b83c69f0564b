-- ===== src/LiveZone/Splice/Lockstep.antt =====
-- Outside the ranges the output is the input; inside, it is the replacements.

use headroom_go.Common.{
  ℕ, ◌+◌, ◌-◌, ◌≤◌, ◌≡◌, refl, Bool-cases, inl, inr, false, List, [], ◌∷◌, ◌++◌, map, append-nil,
  append_assoc, arith, Bytes, if◌then◌else◌, length, take, drop, slice, length-take, length-drop,
  length-append, take-append_length, drop-append_length,
}
use headroom_go.LiveZone.Splice.{
  Replacement, Range, sort_by_start, is_bad, splice_from, or_unchanged, apply_replacements,
}

-- Ranges in order, none overlapping another, none before `cursor`, none past `size`.
abbrev pub Ordered : ℕ → ℕ → List Range → Type 0
Ordered cursor size [] = cursor ≤ size
Ordered cursor size (g ∷ gs) =
    (cursor ≤ g.start) × (g.start ≤ g.end) × (g.end ≤ size) × Ordered g.end size gs

-- The bytes of the input outside the ranges, from `cursor` on.
abbrev pub outside_input : Bytes → ℕ → List Range → Bytes
outside_input orig cursor [] = drop cursor orig
outside_input orig cursor (g ∷ gs) = slice cursor g.start orig ++ outside_input orig g.end gs

-- The bytes of the output outside the rewritten spans: both buffers are walked in lockstep, and
-- `rest` is what is left of the output at input position `cursor`.
abbrev pub outside_output : ℕ → Bytes → List Range → Bytes
outside_output cursor rest [] = rest
outside_output cursor rest (g ∷ gs) =
    take (g.start - cursor) rest
    ++ outside_output g.end (drop (g.start - cursor + g.new_len) rest) gs

-- The rewritten spans of the output.
abbrev pub inside_output : ℕ → Bytes → List Range → List Bytes
inside_output cursor rest [] = []
inside_output cursor rest (g ∷ gs) =
    take g.new_len (drop (g.start - cursor) rest)
    ∷ inside_output g.end (drop (g.start - cursor + g.new_len) rest) gs

-- The replacements that the loop applies.
abbrev pub applied : Bytes → ℕ → List Replacement → List Replacement
applied orig cursor [] = []
applied orig cursor (r ∷ rs) =
    let skip = applied orig cursor rs in
    let take_it = r ∷ applied orig r.end rs in if is_bad orig cursor r then skip else take_it

abbrev pub range_of : Replacement → Range
range_of r = record { start = r.start; end = r.end; new_len = length r.repl }

abbrev pub text_of : Replacement → Bytes
text_of r = r.repl

-- What is written from `cursor` on.
abbrev woven : Bytes → ℕ → List Replacement → Bytes
woven orig cursor [] = drop cursor orig
woven orig cursor (r ∷ rs) = slice cursor r.start orig ++ (r.repl ++ woven orig r.end rs)

splice_from-woven :
    (orig : Bytes) (cursor : ℕ) (out : Bytes) (ranges : List Range) (rs : List Replacement)
    → splice_from orig cursor out ranges rs ≡ (
      out ++ woven orig cursor (applied orig cursor rs),
      ranges ++ map range_of (applied orig cursor rs),
    )
unfolding splice_from
splice_from-woven orig cursor out ranges [] = rw append-nil
splice_from-woven orig cursor out ranges (r ∷ rs) = elim (Bool-cases (is_bad orig cursor r)) [
  | inl bad ↦ rw bad (splice_from-woven orig cursor out ranges rs)
  | inr fine ↦
      rw
        (
          fine,
          splice_from-woven orig r.end ((out ++ slice cursor r.start orig) ++ r.repl)
              (ranges ++ (range_of r ∷ [])) rs,
        )
        (simp append_assoc)
]

pub fits :
    (orig : Bytes) (cursor : ℕ) (r : Replacement)
    → is_bad orig cursor r ≡ false
    → (cursor ≤ r.start) × (r.start ≤ r.end) × (r.end ≤ length orig)
unfolding is_bad
fits orig cursor r h = ground arith

applied-Ordered :
    (orig : Bytes) (cursor : ℕ) (rs : List Replacement)
    → cursor ≤ length orig
    → Ordered cursor (length orig) (map range_of (applied orig cursor rs))
applied-Ordered orig cursor [] h = h
applied-Ordered orig cursor (r ∷ rs) h = elim (Bool-cases (is_bad orig cursor r)) [
  | inl bad ↦ rw bad (applied-Ordered orig cursor rs h)
  | inr fine ↦
      let (a, b, c) = fits orig cursor r fine in rw fine (a, b, c, applied-Ordered orig r.end rs c)
]

length-slice : (a b : ℕ) (xs : Bytes) → a ≤ b → b ≤ length xs → length (slice a b xs) ≡ b - a
length-slice a b xs h k = omega (arith, length-take {0} (b - a) (drop a xs), length-drop {0} a xs)

-- A segment of known length in front of a text is cut off again.
cut_take : (n : ℕ) (a b : Bytes) → length a ≡ n → take n (a ++ b) ≡ a
cut_take n a b e = rw (← e) (take-append_length a b)

cut_drop : (n : ℕ) (a b : Bytes) → length a ≡ n → drop n (a ++ b) ≡ b
cut_drop n a b e = rw (← e) (drop-append_length a b)

cut_drop_two :
    (n m : ℕ) (a b c : Bytes) → length a ≡ n → length b ≡ m → drop (n + m) (a ++ (b ++ c)) ≡ c
cut_drop_two n m a b c e e' =
    rw (← append_assoc a b c) (cut_drop (n + m) (a ++ b) c (omega (arith, length-append a b)))

module _ (orig : Bytes) where
  walk_outside :
      (cursor : ℕ) (ks : List Replacement)
      → Ordered cursor (length orig) (map range_of ks)
      → outside_output cursor (woven orig cursor ks) (map range_of ks)
        ≡ outside_input orig cursor (map range_of ks)
  walk_outside cursor [] o = refl
  walk_outside cursor (k ∷ ks) o =
      let seg = slice cursor k.start orig in
      let rest = woven orig k.end ks in
      let e = length-slice cursor k.start orig o.0 (omega arith) in
      rw (
        cut_take (k.start - cursor) seg (k.repl ++ rest) e,
        cut_drop_two (k.start - cursor) (length k.repl) seg k.repl rest e refl,
        walk_outside k.end ks o.3,
      )

  walk_inside :
      (cursor : ℕ) (ks : List Replacement)
      → Ordered cursor (length orig) (map range_of ks)
      → inside_output cursor (woven orig cursor ks) (map range_of ks) ≡ map text_of ks
  walk_inside cursor [] o = refl
  walk_inside cursor (k ∷ ks) o =
      let seg = slice cursor k.start orig in
      let rest = woven orig k.end ks in
      let e = length-slice cursor k.start orig o.0 (omega arith) in
      rw (
        cut_drop (k.start - cursor) seg (k.repl ++ rest) e,
        take-append_length k.repl rest,
        cut_drop_two (k.start - cursor) (length k.repl) seg k.repl rest e refl,
        walk_inside k.end ks o.3,
      )

-- The ranges reported are in order, within the body and disjoint; outside them the output is the
-- input, byte for byte; inside them stand the replacements that were applied, in order of start.
pub record IsSplice (orig : Bytes) (reps : List Replacement) (result : Bytes × List Range)
    : Type 0 where
  pub ordered : Ordered 0 (length orig) result.1
  pub outside : outside_output 0 result.0 result.1 ≡ outside_input orig 0 result.1
  pub inside : inside_output 0 result.0 result.1 ≡ map text_of (applied orig 0 (sort_by_start reps))
  pub ranges : result.1 ≡ map range_of (applied orig 0 (sort_by_start reps))

woven-IsSplice :
    (orig : Bytes) (reps : List Replacement)
    → IsSplice orig reps (
      woven orig 0 (applied orig 0 (sort_by_start reps)),
      map range_of (applied orig 0 (sort_by_start reps)),
    )
woven-IsSplice orig reps =
    let ks = applied orig 0 (sort_by_start reps) in
    let o = applied-Ordered orig 0 (sort_by_start reps) (omega arith) in
    record {
      ordered = o;
      outside = walk_outside orig 0 ks o;
      inside = walk_inside orig 0 ks o;
      ranges = refl;
    }

or_unchanged-woven :
    (orig : Bytes) (ks : List Replacement)
    → or_unchanged orig (woven orig 0 ks, map range_of ks) ≡ (woven orig 0 ks, map range_of ks)
unfolding or_unchanged
or_unchanged-woven orig [] = refl
or_unchanged-woven orig (k ∷ ks) = refl

-- For all bodies and replacements, whatever their order and however they overlap.
pub apply_replacements-IsSplice :
    (orig : Bytes) (reps : List Replacement) → IsSplice orig reps (apply_replacements orig reps)
unfolding apply_replacements sort_by_start
apply_replacements-IsSplice orig [] = record {
  ordered = omega arith;
  outside = refl;
  inside = refl;
  ranges = refl;
}
apply_replacements-IsSplice orig (r ∷ rs) =
    rw
      (
        splice_from-woven orig 0 [] [] (sort_by_start (r ∷ rs)),
        or_unchanged-woven orig (applied orig 0 (sort_by_start (r ∷ rs))),
      )
      (woven-IsSplice orig (r ∷ rs))
