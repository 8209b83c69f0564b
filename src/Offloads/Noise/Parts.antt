-- ===== src/Offloads/Noise/Parts.antt =====
-- The segments of internal/offloads/diff_noise.go are the parts of the text.
use headroom_go.Common.Lines.{split_lines_rust}
use headroom_go.Common.{
  has_prefix, ◌⊎◌, ◌≡◌, ◌⊎◌, inl, inr, refl, sym, ap, ◌∙◌, Bool, Bool-cases, true, false, ◌||◌,
  List, [], ◌∷◌, ◌++◌, append_assoc, arith, Bytes, codes, All,
}
use headroom_go.Offloads.Noise.{
  DiffSegment, flush_segment, segment_line, segment_lines, no_segments, parse_segments, write_lines,
  prelude_of, leading_pre_diff_lines, is_droppable, any_droppable, write_segment, write_segments,
  noise_output,
}
use headroom_go.Offloads.Noise.Parsing.{
  lines_of, IsSegment, start_segment, segment_lines-Reads, flush_segment-Reads,
}

abbrev Parts : List Bytes → Type 0
Parts lines =
    let done = flush_segment (segment_lines lines no_segments) in
    All IsSegment done × (prelude_of lines ++ lines_of done ≡ lines)

prelude_new :
    (line : Bytes) (lines : List Bytes)
    → has_prefix line (codes "diff --git") ≡ true
    → prelude_of (line ∷ lines) ≡ []
unfolding prelude_of
prelude_new line lines new = rw new refl

skip_line :
    (line : Bytes)
    → has_prefix line (codes "diff --git") ≡ false
    → segment_line line no_segments ≡ no_segments
unfolding segment_line
skip_line line old = rw old refl

lines-Parts : (lines : List Bytes) → Parts lines
unfolding segment_lines prelude_of flush_segment
lines-Parts [] = (tt, refl)
lines-Parts (line ∷ lines) = elim (Bool-cases (has_prefix line (codes "diff --git"))) [
  | inl new ↦
      let first = start_segment no_segments line [] new tt refl in
      let (all, e) =
        flush_segment-Reads (segment_lines lines (segment_line line no_segments)) (line ∷ lines)
          (segment_lines-Reads lines (segment_line line no_segments) (line ∷ []) first) in
      (
        all,
        ap
              (λ ls.
                ls
                ++ lines_of (flush_segment (segment_lines lines (segment_line line no_segments))))
              (prelude_new line lines new)
            ∙ e,
      )
  | inr old ↦
      let same = skip_line line old in
      let (all, e) = lines-Parts lines in rw same (all, rw old (ap (λ ls. line ∷ ls) e))
]

write_lines-append : (a b : List Bytes) → write_lines (a ++ b) ≡ write_lines a ++ write_lines b
unfolding write_lines
write_lines-append [] b = refl
write_lines-append (l ∷ a) b = simp (write_lines-append a b, append_assoc)

neither : (a b : Bool) → (a || b) ≡ false → (a ≡ false) × (b ≡ false)
neither a b h = ground arith

-- What is written when nothing is dropped.
kept_segments :
    (ss : List DiffSegment)
    → any_droppable ss ≡ false
    → write_segments ss ≡ write_lines (lines_of ss)
unfolding any_droppable write_segments write_segment write_lines
kept_segments [] none' = refl
kept_segments (s ∷ ss) none' =
    let (keeps, rest) = neither (is_droppable s) (any_droppable ss) none' in
    let whole : write_segment s ≡ write_lines (s.header_lines ++ s.body_lines) =
      rw keeps (sym (write_lines-append s.header_lines s.body_lines)) in
    ap (λ t. t ++ write_segments ss) whole
    ∙ ap (λ t. write_lines (s.header_lines ++ s.body_lines) ++ t) (kept_segments ss rest)
    ∙ sym (write_lines-append (s.header_lines ++ s.body_lines) (lines_of ss))

-- The segments that are parsed open with a header each, and their bodies with a hunk; with the lines
-- before the first header they are all the lines of the text, in order. A segment may be dropped, or
-- the output is the text again, each line ended by a newline.
pub parse_segments-Parts :
    (content : Bytes)
    → All IsSegment (parse_segments content)
      × (prelude_of (split_lines_rust content) ++ lines_of (parse_segments content)
          ≡ split_lines_rust content)
      × ((any_droppable (parse_segments content) ≡ true)
          ⊎ (noise_output content ≡ write_lines (split_lines_rust content)))
unfolding parse_segments noise_output leading_pre_diff_lines
parse_segments-Parts content =
    let lines = split_lines_rust content in
    let (all, e) = lines-Parts lines in
    let whole : any_droppable (parse_segments content) ≡ false
        → noise_output content ≡ write_lines lines =
      λ keeps.
        ap (λ t. write_lines (prelude_of lines) ++ t) (kept_segments (parse_segments content) keeps)
        ∙ sym (write_lines-append (prelude_of lines) (lines_of (parse_segments content)))
        ∙ ap write_lines e in
    (
      all,
      e,
      elim (Bool-cases (any_droppable (parse_segments content))) [
        | inl drops ↦ inl drops
        | inr keeps ↦ inr (whole keeps)
      ],
    )
