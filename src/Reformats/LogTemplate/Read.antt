-- ===== src/Reformats/LogTemplate/Read.antt =====
-- A reader of the output of internal/reformats/log_template.go: lines and templates with tables.
use headroom_go.Common.{
  ℕ, true, false, List, [], ◌∷◌, ◌++◌, map, Option, none, some, Bytes, codes, length,
}
use headroom_go.Common.Lines.{join}
use headroom_go.Common.Space.{fields}
use headroom_go.Reformats.LogTemplate.{Slot, template_header, ended_lines}

-- A line as it is, or a numbered template with a row of tokens for each line.
pub data Block : Type 0 where
  verbatim : Bytes → Block
  packed : ℕ → List Slot → List (List Bytes) → Block

abbrev pub block_text : Block → Bytes
block_text (verbatim l) = l ++ (10 ∷ [])
block_text (packed id slots rows) =
    template_header id slots (length rows) ++ ended_lines (map (join (codes " ")) rows)

abbrev pub blocks_text : List Block → Bytes
blocks_text [] = []
blocks_text (b ∷ bs) = block_text b ++ blocks_text bs

abbrev pub with_token : Bytes → Option (List Bytes) → Option (List Bytes)
with_token t none = none
with_token t (some ts) = some (t ∷ ts)

-- The template with each wildcard replaced, in order, by the row's tokens.
abbrev pub fill : List Slot → List Bytes → Option (List Bytes)
fill [] [] = some []
fill [] (v ∷ vs) = none
fill (s ∷ ss) vs = elim s.wild [
  | false ↦ with_token s.tok (fill ss vs)
  | true ↦ elim vs [ [] ↦ none | v ∷ rest ↦ with_token v (fill ss rest) ]
]

-- The tokens of each line of a block.
abbrev pub read_block : Block → List (Option (List Bytes))
read_block (verbatim l) = some (fields l) ∷ []
read_block (packed id slots rows) = map (fill slots) rows

abbrev pub read_blocks : List Block → List (Option (List Bytes))
read_blocks [] = []
read_blocks (b ∷ bs) = read_block b ++ read_blocks bs

abbrev pub line_tokens : List Bytes → List (Option (List Bytes))
line_tokens = map (λ l. some (fields l))
