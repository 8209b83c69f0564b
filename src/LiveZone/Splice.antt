-- ===== src/LiveZone/Splice.antt =====
-- internal/livezone/splice.go: replacements spliced into the body.
-- A position is not negative here: a negative start would be refused like one below the cursor.
pub mod Lockstep
pub mod Complete
use headroom_go.Common.{
  ℕ, Bool, false, ◌||◌, ltb, leb, List, [], ◌∷◌, ◌++◌, Bytes, if◌then◌else◌, length, drop, slice,
}

pub record Replacement : Type 0 where
  pub start : ℕ
  pub end : ℕ
  pub repl : Bytes

-- livezone.go: one rewritten span, by its place in the input and its length in the output.
pub record Range : Type 0 where
  pub start : ℕ
  pub end : ℕ
  pub new_len : ℕ

-- sort.SliceStable by ascending start.
unfoldable pub insert_by_start : Replacement → List Replacement → List Replacement
insert_by_start r [] = r ∷ []
insert_by_start r (x ∷ xs) = if leb r.start x.start then r ∷ (x ∷ xs) else x ∷ insert_by_start r xs

unfoldable pub sort_by_start : List Replacement → List Replacement
sort_by_start [] = []
sort_by_start (r ∷ rs) = insert_by_start r (sort_by_start rs)

-- Overlapping or out of bounds.
unfoldable pub is_bad : Bytes → ℕ → Replacement → Bool
is_bad orig cursor r = ltb r.start cursor || (ltb r.end r.start || ltb (length orig) r.end)

-- The loop, with its variables cursor, out and ranges.
unfoldable pub splice_from : Bytes → ℕ → Bytes → List Range → List Replacement → Bytes × List Range
splice_from orig cursor out ranges [] = (out ++ drop cursor orig, ranges)
splice_from orig cursor out ranges (r ∷ rs) =
    let skipped = splice_from orig cursor out ranges rs in
    let applied =
      splice_from orig r.end ((out ++ slice cursor r.start orig) ++ r.repl)
        (ranges ++ (record { start = r.start; end = r.end; new_len = length r.repl } ∷ [])) rs in
    if is_bad orig cursor r then skipped else applied

or_unchanged : Bytes → Bytes × List Range → Bytes × List Range
or_unchanged orig (out, []) = (orig, [])
or_unchanged orig (out, g ∷ gs) = (out, g ∷ gs)

unfoldable pub apply_replacements : Bytes → List Replacement → Bytes × List Range
unfolding or_unchanged
apply_replacements orig [] = (orig, [])
apply_replacements orig (r ∷ rs) =
    or_unchanged orig (splice_from orig 0 [] [] (sort_by_start (r ∷ rs)))
