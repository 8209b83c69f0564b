-- ===== src/Common/Lines.antt =====
-- Texts cut into lines and put together: strings.Split(s, "\n") and strings.Join.
use Prim.Native.Nat.{ℕ}
use mathlib.Core.List.{List, [], ◌∷◌, ◌++◌}
use headroom_go.Common.Tests.{◌==◌, if◌then◌else◌}
use headroom_go.Common.Text.{Bytes}

-- A byte before the first line.
abbrev pub onto_first : ℕ → List Bytes → List Bytes
onto_first c [] = (c ∷ []) ∷ []
onto_first c (l ∷ ls) = (c ∷ l) ∷ ls

unfoldable pub split_lines : Bytes → List Bytes
split_lines [] = [] ∷ []
split_lines (c ∷ s) = let rest = split_lines s in if c == 10 then [] ∷ rest else onto_first c rest

unfoldable pub join : Bytes → List Bytes → Bytes
join sep [] = []
join sep (s ∷ []) = s
join sep (s ∷ t ∷ ts) = s ++ (sep ++ join sep (t ∷ ts))

-- strings.TrimSuffix(s, "\r").
strip_cr : Bytes → Bytes
strip_cr [] = []
strip_cr (c ∷ []) = if c == 13 then [] else c ∷ []
strip_cr (c ∷ d ∷ s) = c ∷ strip_cr (d ∷ s)

-- The parts without the last one where it is empty, and without the carriage return of an ended line.
end_lines : List Bytes → List Bytes
unfolding strip_cr
end_lines [] = []
end_lines ([] ∷ []) = []
end_lines ((c ∷ s) ∷ []) = (c ∷ s) ∷ []
end_lines (l ∷ m ∷ ls) = strip_cr l ∷ end_lines (m ∷ ls)

-- splitLinesRust of internal/offloads and internal/compress.
unfoldable pub split_lines_rust : Bytes → List Bytes
unfolding end_lines
split_lines_rust s = end_lines (split_lines s)
