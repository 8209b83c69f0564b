-- ===== src/Offloads/Noise/Parsing.antt =====
-- The invariant of the parser of internal/offloads/diff_noise.go.

use headroom_go.Common.{
  has_prefix, ◌⊎◌, ◌≡◌, ◌⊎◌, inl, inr, refl, sym, ap, subst, ◌∙◌, Bool, Bool-cases, true, false,
  List, [], ◌∷◌, ◌++◌, append-nil, append_assoc, some, Bytes, codes, All, All-append,
}
use headroom_go.Offloads.Noise.{
  DiffSegment, Segments, parse_new_path, flush_segment, add_to_segment, segment_line, segment_lines,
}

-- The lines of segments, all of them.
abbrev pub lines_of : List DiffSegment → List Bytes
lines_of [] = []
lines_of (s ∷ ss) = (s.header_lines ++ s.body_lines) ++ lines_of ss

lines_of-append : (a b : List DiffSegment) → lines_of (a ++ b) ≡ lines_of a ++ lines_of b
lines_of-append [] b = refl
lines_of-append (s ∷ a) b =
    ap (λ ls. (s.header_lines ++ s.body_lines) ++ ls) (lines_of-append a b)
    ∙ sym (append_assoc (s.header_lines ++ s.body_lines) (lines_of a) (lines_of b))

abbrev Begins : Bytes → List Bytes → Type 0
Begins p [] = ⊥
Begins p (l ∷ ls) = has_prefix l p ≡ true

-- A segment opens with its header, and its body, if any, with a hunk.
abbrev pub IsSegment : DiffSegment → Type 0
IsSegment s =
    Begins (codes "diff --git") s.header_lines
    × ((s.body_lines ≡ []) ⊎ Begins (codes "@@") s.body_lines)

Begins-append : (p : Bytes) (ls ms : List Bytes) → Begins p ls → Begins p (ls ++ ms)
Begins-append p [] ms h = elim h [ ]
Begins-append p (l ∷ ls) ms h = h

-- The parser inside a segment.
abbrev inside : List DiffSegment → DiffSegment → Bool → Segments
inside segments s in_body = record { segments = segments; cur = some s; in_body = in_body }

abbrev BodyFits : DiffSegment → Bool → Type 0
BodyFits s true = Begins (codes "@@") s.body_lines
BodyFits s false = s.body_lines ≡ []

abbrev Holds : List DiffSegment → DiffSegment → Bool → List Bytes → Type 0
Holds segments s in_body lines =
    All IsSegment segments
    × Begins (codes "diff --git") s.header_lines
    × BodyFits s in_body
    × (lines_of segments ++ (s.header_lines ++ s.body_lines) ≡ lines)

abbrev Reads : Segments → List Bytes → Type 0
Reads p lines =
    (segments : List DiffSegment) × (s : DiffSegment) × (in_body : Bool) × (p
      ≡ inside segments s in_body)
    × Holds segments s in_body lines

fits_segment :
    (s : DiffSegment) (b : Bool)
    → BodyFits s b
    → (s.body_lines ≡ []) ⊎ Begins (codes "@@") s.body_lines
fits_segment s true h = inr h
fits_segment s false h = inl h

flush_segment-Holds :
    (segments : List DiffSegment) (s : DiffSegment) (b : Bool) (lines : List Bytes)
    → Holds segments s b lines
    → let done = flush_segment (inside segments s b) in All IsSegment done × (lines_of done ≡ lines)
unfolding flush_segment
flush_segment-Holds segments s b lines (all, head, fits, e) = (
  All-append IsSegment segments (s ∷ []) all ((head, fits_segment s b fits), tt),
  lines_of-append segments (s ∷ [])
      ∙ ap (λ ls. lines_of segments ++ ls) (append-nil (s.header_lines ++ s.body_lines))
      ∙ e,
)

new_segment : Bytes → DiffSegment
new_segment line = record {
  new_path = parse_new_path line;
  header_lines = line ∷ [];
  body_lines = [];
}

pub start_segment :
    (p : Segments) (line : Bytes) (lines : List Bytes)
    → has_prefix line (codes "diff --git") ≡ true
    → All IsSegment (flush_segment p)
    → lines_of (flush_segment p) ≡ lines
    → Reads (segment_line line p) (lines ++ (line ∷ []))
unfolding segment_line new_segment
start_segment p line lines new all e = (
  flush_segment p,
  new_segment line,
  false,
  rw new refl,
  (all, new, refl, ap (λ ls. ls ++ (line ∷ [])) e),
)

add_body :
    (segments : List DiffSegment) (s : DiffSegment) (line : Bytes) (lines : List Bytes)
    → lines_of segments ++ (s.header_lines ++ s.body_lines) ≡ lines
    → lines_of segments ++ (s.header_lines ++ (s.body_lines ++ (line ∷ []))) ≡ lines ++ (line ∷ [])
add_body segments s line lines e =
    ap (λ ls. lines_of segments ++ ls) (sym (append_assoc s.header_lines s.body_lines (line ∷ [])))
    ∙ sym (append_assoc (lines_of segments) (s.header_lines ++ s.body_lines) (line ∷ []))
    ∙ ap (λ ls. ls ++ (line ∷ [])) e

add_header :
    (segments : List DiffSegment) (s : DiffSegment) (line : Bytes) (lines : List Bytes)
    → s.body_lines ≡ []
    → lines_of segments ++ (s.header_lines ++ s.body_lines) ≡ lines
    → lines_of segments ++ ((s.header_lines ++ (line ∷ [])) ++ s.body_lines) ≡ lines ++ (line ∷ [])
add_header segments s line lines bare e =
    let before = lines_of segments in
    let header = s.header_lines in
    ap (λ b. before ++ ((header ++ (line ∷ [])) ++ b)) bare
    ∙ ap (λ ls. before ++ ls) (append-nil (header ++ (line ∷ [])))
    ∙ sym (append_assoc before header (line ∷ []))
    ∙ ap (λ ls. ls ++ (line ∷ []))
        (ap (λ ls. before ++ ls) (sym (append-nil header))
          ∙ ap (λ b. before ++ (header ++ b)) (sym bare)
          ∙ e)

segment_line-Reads :
    (segments : List DiffSegment) (s : DiffSegment) (b : Bool) (line : Bytes) (lines : List Bytes)
    → Holds segments s b lines
    → Reads (segment_line line (inside segments s b)) (lines ++ (line ∷ []))
unfolding segment_line add_to_segment
segment_line-Reads segments s b line lines h =
    elim (Bool-cases (has_prefix line (codes "diff --git"))) [
      | inl new ↦
          let (all, e) = flush_segment-Holds segments s b lines h in
          start_segment (inside segments s b) line lines new all e
      | inr old ↦ continue b h old
    ]
  where
    continue :
        (b : Bool)
        → Holds segments s b lines
        → has_prefix line (codes "diff --git") ≡ false
        → Reads (segment_line line (inside segments s b)) (lines ++ (line ∷ []))
    continue true (all, head, fits, e) old = (
      segments,
      record s { body_lines = s.body_lines ++ (line ∷ []) },
      true,
      rw old refl,
      (
        all,
        head,
        Begins-append (codes "@@") s.body_lines (line ∷ []) fits,
        add_body segments s line lines e,
      ),
    )
    continue false (all, head, fits, e) old = elim (Bool-cases (has_prefix line (codes "@@"))) [
      | inl hunk ↦ (
        segments,
        record s { body_lines = s.body_lines ++ (line ∷ []) },
        true,
        rw old (rw hunk refl),
        (all, head, rw fits hunk, add_body segments s line lines e),
      )
      | inr more ↦ (
        segments,
        record s { header_lines = s.header_lines ++ (line ∷ []) },
        false,
        rw old (rw more refl),
        (
          all,
          Begins-append (codes "diff --git") s.header_lines (line ∷ []) head,
          fits,
          add_header segments s line lines fits e,
        ),
      )
    ]

pub segment_lines-Reads :
    (more : List Bytes) (p : Segments) (lines : List Bytes)
    → Reads p lines
    → Reads (segment_lines more p) (lines ++ more)
unfolding segment_lines
segment_lines-Reads [] p lines h = rw (append-nil lines) h
segment_lines-Reads (line ∷ more) p lines (segments, s, b, e, h) =
    let next = segment_line-Reads segments s b line lines h in
    let here : Reads (segment_line line p) (lines ++ (line ∷ [])) =
      subst (λ q. Reads (segment_line line q) (lines ++ (line ∷ []))) (sym e) next in
    subst (Reads (segment_lines more (segment_line line p))) (append_assoc lines (line ∷ []) more)
      (segment_lines-Reads more (segment_line line p) (lines ++ (line ∷ [])) here)

pub flush_segment-Reads :
    (p : Segments) (lines : List Bytes)
    → Reads p lines
    → All IsSegment (flush_segment p) × (lines_of (flush_segment p) ≡ lines)
flush_segment-Reads p lines (segments, s, b, e, h) =
    subst (λ q. All IsSegment (flush_segment q) × (lines_of (flush_segment q) ≡ lines)) (sym e)
      (flush_segment-Holds segments s b lines h)
