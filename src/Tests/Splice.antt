-- ===== src/Tests/Splice.antt =====
-- Splices on concrete inputs.
use mathlib.Core.List.{Perm}
use headroom_go.Common.{◌≡◌, inr, refl, List, [], ◌∷◌, map, arith, Bytes, codes}
use headroom_go.LiveZone.Splice.{
  Replacement, insert_by_start, sort_by_start, is_bad, splice_from, apply_replacements,
}
use headroom_go.LiveZone.Splice.Lockstep.{
  IsSplice, range_of, text_of, inside_output, apply_replacements-IsSplice,
}
use headroom_go.LiveZone.Splice.Complete.{apply_replacements-All}

splices : Unit {0}
unfolding insert_by_start sort_by_start is_bad splice_from apply_replacements
splices = tt

abbrev body : Bytes
body = codes "0123456789"

-- Out of order, and one that overlaps another.
abbrev tangled : List Replacement
tangled =
    record { start = 6; end = 8; repl = codes "B" }
    ∷ record { start = 1; end = 3; repl = codes "AAA" }
    ∷ record { start = 2; end = 4; repl = codes "X" }
    ∷ []

abbrev apart : List Replacement
apart =
    record { start = 6; end = 8; repl = codes "B" }
    ∷ record { start = 1; end = 3; repl = codes "AAA" }
    ∷ []

overlap_dropped : (apply_replacements body tangled).0 ≡ codes "0AAA345B89"
unfolding splices
overlap_dropped = refl

apply_replacements-IsSplice_example : IsSplice body tangled (apply_replacements body tangled)
apply_replacements-IsSplice_example = apply_replacements-IsSplice body tangled

apply_replacements-All_example :
    ((apply_replacements body apart).1 ≡ map range_of (sort_by_start apart))
    × (inside_output 0 (apply_replacements body apart).0 (apply_replacements body apart).1
        ≡ map text_of (sort_by_start apart))
    × Perm (sort_by_start apart) apart
apply_replacements-All_example =
    apply_replacements-All body apart (omega arith) ((inr (omega arith), tt), (tt, tt))
