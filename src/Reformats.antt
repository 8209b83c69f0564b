-- ===== src/Reformats.antt =====
-- internal/reformats: lines.go.
pub mod LogTemplate
use headroom_go.Common.{ℕ, Bool, List, [], ◌∷◌, map, Bytes, ◌==◌, if◌then◌else◌}
use headroom_go.Common.Lines.{split_lines}

-- strings.TrimSuffix(s, "\r").
strip_cr : Bytes → Bytes
strip_cr [] = []
strip_cr (c ∷ []) = if c == 13 then [] else c ∷ []
strip_cr (c ∷ d ∷ s) = c ∷ strip_cr (d ∷ s)

without_empty_last : List Bytes → List Bytes
without_empty_last [] = []
without_empty_last ([] ∷ []) = []
without_empty_last ((c ∷ s) ∷ []) = (c ∷ s) ∷ []
without_empty_last (l ∷ m ∷ ls) = l ∷ without_empty_last (m ∷ ls)

unfoldable pub split_lines_rust : Bytes → List Bytes
unfolding strip_cr without_empty_last
split_lines_rust s = map strip_cr (without_empty_last (split_lines s))
