-- ===== src/Reformats/LogTemplate.antt =====
-- internal/reformats/log_template.go: runs of lines of one shape, as a template and a table.
pub mod Flushed
pub mod Fits
pub mod Read
pub mod Blocks
use headroom_go.Common.{
  ℕ, zero, suc, ◌+◌, ◌-◌, Bool, true, false, not, ◌&&◌, ◌||◌, List, [], ◌∷◌, ◌++◌, map, Option,
  none, some, Bytes, codes, ltb, leb, ◌==◌, if◌then◌else◌, text_eq, length,
}
use headroom_go.Common.Lines.{join}
use headroom_go.Common.Space.{fields}
use headroom_go.Ccr.Marker.{decimal}
use headroom_go.Transform.{
  Result, ok, err, skipped, ReformatOutput, ReformatTransform, build_output,
}
use headroom_go.Pipeline.{Float}
use headroom_go.Reformats.{split_lines_rust}

-- defaultLogTemplateConfig, but for the similarity threshold, which is a parameter.
abbrev pub min_lines : ℕ
min_lines = 20

abbrev pub min_run : ℕ
min_run = 3

abbrev pub min_constant_tokens : ℕ
min_constant_tokens = 2

pub record Slot : Type 0 where
  pub tok : Bytes
  pub wild : Bool

-- The lines stand for their indices, and their fields for tokenized.
pub record Run : Type 0 where
  pub lines : List Bytes
  pub template : List Slot

unfoldable pub start_run : Bytes → Run
start_run line = record {
  lines = line ∷ [];
  template = map (λ t. record { tok = t; wild = false }) (fields line);
}

-- How many positions match.
matches : List Slot → List Bytes → ℕ
matches [] ts = 0
matches (s ∷ ss) [] = 0
matches (s ∷ ss) (t ∷ ts) = let n = matches ss ts in if s.wild || text_eq s.tok t then n + 1 else n

unfoldable pub merge_into_template : List Slot → List Bytes → List Slot
merge_into_template [] ts = []
merge_into_template (s ∷ ss) [] = s ∷ ss
merge_into_template (s ∷ ss) (t ∷ ts) =
    (if not s.wild && not (text_eq s.tok t) then record s { wild = true } else s)
    ∷ merge_into_template ss ts

constants : List Slot → ℕ
constants [] = 0
constants (s ∷ ss) = let n = constants ss in if s.wild then n else n + 1

unfoldable pub collapses : Run → Bool
unfolding constants
collapses r =
    leb min_run (length r.lines)
    && leb min_constant_tokens (constants r.template)
    && ltb 0 (length r.template - constants r.template)

abbrev pub slot_text : Slot → Bytes
slot_text s = if s.wild then codes "<*>" else s.tok

-- The tokens at the wildcard positions.
unfoldable pub variants : List Slot → List Bytes → List Bytes
variants [] ts = []
variants (s ∷ ss) [] = []
variants (s ∷ ss) (t ∷ ts) = let rest = variants ss ts in if s.wild then t ∷ rest else rest

unfoldable pub template_header : ℕ → List Slot → ℕ → Bytes
template_header id slots n =
    codes "[Template T"
    ++ (decimal id
        ++ (codes ": "
            ++ (join (codes " ") (map slot_text slots)
                ++ (codes "] (" ++ (decimal n ++ codes " occurrences)\n")))))

unfoldable pub ended_lines : List Bytes → Bytes
ended_lines [] = []
ended_lines (l ∷ ls) = l ++ (10 ∷ ended_lines ls)

-- What flushRun writes, and the next template's number.
unfoldable pub flush_run : Run → ℕ → Bytes × ℕ
unfolding collapses template_header ended_lines variants
flush_run r id =
    if collapses r
    then (
      template_header id r.template (length r.lines)
          ++ ended_lines (map (λ l. join (codes " ") (variants r.template (fields l))) r.lines),
      id + 1,
    )
    else (ended_lines r.lines, id)

-- The variables of Apply.
pub record Mining : Type 0 where
  pub active : Option Run
  pub next_id : ℕ
  pub out : Bytes

unfoldable pub flush_active : Mining → Mining
unfolding flush_run
flush_active m = elim m.active [
  | none ↦ m
  | some r ↦
      let (text, id) = flush_run r m.next_id in
      record { active = none; next_id = id; out = m.out ++ text }
]

abbrev pub no_fields : List Bytes → Bool
no_fields [] = true
no_fields (t ∷ ts) = false

-- strings.HasSuffix(s, "\n").
ends_with_newline : Bytes → Bool
ends_with_newline [] = false
ends_with_newline (c ∷ []) = c == 10
ends_with_newline (c ∷ d ∷ s) = ends_with_newline (d ∷ s)

strip_newline : Bytes → Bytes
strip_newline [] = []
strip_newline (c ∷ []) = if c == 10 then [] else c ∷ []
strip_newline (c ∷ d ∷ s) = c ∷ strip_newline (d ∷ s)

-- Without its last newline where the content has none.
unfoldable pub fix_end : Bytes → Bytes → Bytes
unfolding ends_with_newline strip_newline
fix_end content result = if ends_with_newline content then result else strip_newline result

abbrev pub nothing_mined : Mining
nothing_mined = record { active = none; next_id = 1; out = [] }

module _ (fl : Float) (similarity : fl.F) where
  unfoldable pub extends_run : Run → List Bytes → Bool
  unfolding matches
  extends_run r toks =
      length toks == length r.template
      && fl.le similarity (fl.ratio (matches r.template toks) (length toks))

  -- A run with one more line.
  unfoldable pub extend_run : Bytes → Run → Run
  unfolding merge_into_template
  extend_run line r = record {
    lines = r.lines ++ (line ∷ []);
    template = merge_into_template r.template (fields line);
  }

  -- The run that goes on with a line.
  unfoldable pub extended : Option Run → Bytes → Option Run
  unfolding extends_run extend_run
  extended none line = none
  extended (some r) line = if extends_run r (fields line) then some (extend_run line r) else none

  unfoldable pub mine_line : Bytes → Mining → Mining
  unfolding flush_active extended start_run
  mine_line line m =
      let flushed = flush_active m in
      if no_fields (fields line)
      then record flushed { out = flushed.out ++ (line ++ (10 ∷ [])) }
      else elim (extended m.active line) [
        | none ↦ record flushed { active = some (start_run line) }
        | some r ↦ record m { active = some r }
      ]

  unfoldable pub mine_lines : List Bytes → Mining → Mining
  unfolding mine_line
  mine_lines [] m = m
  mine_lines (line ∷ lines) m = mine_lines lines (mine_line line m)

  unfoldable pub log_template : Bytes → Result ReformatOutput
  unfolding mine_lines flush_active fix_end split_lines_rust
  log_template content =
      let lines = split_lines_rust content in
      let result = fix_end content (flush_active (mine_lines lines nothing_mined)).out in
      if text_eq content [] || ltb (length lines) min_lines
      then err skipped
      else if leb (length content) (length result)
      then ok (record { output = content; bytes_saved = 0 })
      else ok (record { output = result; bytes_saved = length content - length result })

  abbrev pub log_template_reformat : ReformatTransform
  log_template_reformat = record {
    name = codes "log_template";
    applies_to = build_output ∷ [];
    apply = log_template;
  }
