-- ===== src/TagProtect/Spans.antt =====
-- The spans of the walk over tagprotect.go's input: in order, apart and inside the text.
use mathlib.Core.List.{reverse_aux}
use headroom_go.Common.{
  reverse, ℕ, zero, suc, ◌+◌, ◌-◌, ◌≤◌, ◌<◌, ◌≡◌, inl, inr, refl, Bool, Bool-cases, List, [], ◌∷◌,
  Option, Option-cases, none, some, map, arith, Bytes, ltb, length, keep,
}
use headroom_go.TagProtect.HtmlTags.{to_lower, is_known_html_tag}
use headroom_go.TagProtect.{
  Span, SpanKind, kind_block, kind_self_closing, kind_open_marker, kind_close_marker, OpenTag,
  ParsedTag, TagKind, open_tag_kind, close_tag_kind, Walk, match_open, add_span, on_open, on_match,
  on_close, on_kind, on_tag, tag_here, walk_tags, collect_tags, choose_prefix, no_stats,
}
use headroom_go.TagProtect.Within.{tag_here-Within}
use headroom_go.TagProtect.Opened.{
  Down, Down-le, Opened, Opened-le, Down-Apart, keep-Down, keep-Opened, Opened-cons,
  match_open-Opened,
}

abbrev IsWalked : ℕ → Walk → Type 0
IsWalked i w = Down i w.spans × Opened i w.spans w.stack

IsWalked-le : (w : Walk) (i j : ℕ) → i ≤ j → IsWalked i w → IsWalked j w
IsWalked-le w i j le v = (Down-le w.spans i j le v.0, Opened-le w.spans w.stack i j le v.1)

Opened-tag :
    (start end : ℕ) (kind : SpanKind) (w : Walk)
    → start ≤ end
    → IsWalked start w
    → IsWalked end (add_span start end kind w)
Opened-tag start end kind w le v = (
  (omega arith, le, v.0),
  Opened-le (_ ∷ w.spans) w.stack start end le (
      Opened-cons (record { start = start; end = end; kind = kind }) w.spans w.stack start
        (omega arith) v.1),
)

on_open-IsWalked :
    (flag : Bool) (name : Bytes) (t : ParsedTag) (i : ℕ) (w : Walk)
    → i < t.tag_end
    → IsWalked i w
    → IsWalked t.tag_end (on_open flag name t i w)
unfolding on_open
on_open-IsWalked flag name t i w lt v = elim (Bool-cases t.is_self_closing) [
  | inl closes ↦ rw closes (
      Opened-tag i t.tag_end kind_self_closing
        (record w {
          stats = record w.stats { self_closing_protected = w.stats.self_closing_protected + 1 };
        })
        (omega arith) v)
  | inr opens ↦ elim (Bool-cases flag) [
    | inl marks ↦
        rw (opens, marks)
          (
            (omega arith, omega arith, v.0),
            (
              lt,
              (inr (omega arith), Down-Apart w.spans i i (omega arith) v.0),
              Opened-cons (record { start = i; end = t.tag_end; kind = kind_open_marker }) w.spans
                  w.stack i (omega arith) v.1,
            ),
          )
    | inr blocks ↦
        rw (opens, blocks)
          (
            Down-le w.spans i t.tag_end (omega arith) v.0,
            (lt, Down-Apart w.spans i i (omega arith) v.0, v.1),
          )
  ]
]

on_match-IsWalked :
    (flag : Bool) (t : ParsedTag) (i : ℕ) (w : Walk) (matched : OpenTag) (below : List OpenTag)
    → i < t.tag_end
    → Down i w.spans
    → Opened i w.spans (matched ∷ below)
    → IsWalked t.tag_end (on_match flag t i w (matched, below))
unfolding on_match
on_match-IsWalked flag t i w matched below lt d o = elim (Bool-cases flag) [
  | inl marks ↦ rw marks (
      Opened-tag i t.tag_end kind_close_marker (record w { stack = below }) (omega arith)
        (d, Opened-le w.spans below matched.open_start i (omega arith) o.2))
  | inr blocks ↦ rw blocks (
      Opened-tag matched.open_start t.tag_end kind_block
        (record w {
          spans = keep (λ x. ltb x.start matched.open_start) w.spans;
          stack = below;
          stats = record w.stats { custom_blocks_protected = w.stats.custom_blocks_protected + 1 };
        })
        (omega arith)
        (
          keep-Down w.spans i matched.open_start d o.1,
          keep-Opened (λ x. ltb x.start matched.open_start) w.spans below matched.open_start o.2,
        ))
]

on_close-IsWalked :
    (flag : Bool) (name : Bytes) (t : ParsedTag) (i : ℕ) (w : Walk)
    → i < t.tag_end
    → IsWalked i w
    → IsWalked t.tag_end (on_close flag name t i w)
unfolding on_close
on_close-IsWalked flag name t i w lt v = elim (Option-cases (match_open name w.stack)) [
  | inl orphan ↦ rw (orphan, on_close) (IsWalked-le w i t.tag_end (omega arith) v)
  | inr ((matched, below), found) ↦
      rw (found, on_close)
        (on_match-IsWalked flag t i w matched below lt v.0
          (match_open-Opened name w.spans w.stack below matched i found v.1))
]

on_kind-IsWalked :
    (flag : Bool) (name : Bytes) (t : ParsedTag) (i : ℕ) (w : Walk) (k : TagKind)
    → i < t.tag_end
    → IsWalked i w
    → IsWalked t.tag_end (on_kind flag name t i w k)
unfolding on_kind
on_kind-IsWalked flag name t i w open_tag_kind lt v = on_open-IsWalked flag name t i w lt v
on_kind-IsWalked flag name t i w close_tag_kind lt v = on_close-IsWalked flag name t i w lt v

on_tag-IsWalked :
    (flag : Bool) (t : ParsedTag) (i : ℕ) (w : Walk)
    → i < t.tag_end
    → IsWalked i w
    → IsWalked t.tag_end (on_tag flag t i w)
unfolding on_tag
on_tag-IsWalked flag t i w lt v =
    let name = map to_lower t.name in
    let seen = record w { stats = record w.stats { tags_seen = w.stats.tags_seen + 1 } } in
    elim (Bool-cases (is_known_html_tag name)) [
      | inl html ↦ rw html (IsWalked-le w i t.tag_end (omega arith) v)
      | inr custom ↦ rw custom (on_kind-IsWalked flag name t i seen t.kind lt v)
    ]

walk_tags-IsWalked :
    (flag : Bool) (skip : ℕ) (s : Bytes) (i : ℕ) (w : Walk) (at n : ℕ)
    → skip ≤ length s
    → at ≡ i + skip
    → n ≡ i + length s
    → IsWalked at w
    → IsWalked n (walk_tags flag skip s i w)
unfolding walk_tags
walk_tags-IsWalked flag zero [] i w at n le e f v = IsWalked-le w at n (omega arith) v
walk_tags-IsWalked flag (suc skip) [] i w at n le e f v = absurd (omega arith)
walk_tags-IsWalked flag (suc skip) (b ∷ s) i w at n le e f v =
    walk_tags-IsWalked flag skip s (i + 1) w at n (omega arith) (omega arith) (omega arith) v
walk_tags-IsWalked flag zero (b ∷ s) i w at n le e f v =
    (elim (tag_here b s i) as (λ o. tag_here b s i ≡ o → IsWalked n (next o)) [
      | none ↦ λ plain.
          walk_tags-IsWalked flag zero s (i + 1) w (i + 1) n (omega arith) (omega arith)
            (omega arith) (IsWalked-le w at (i + 1) (omega arith) v)
      | some t ↦ λ tag.
          let within = tag_here-Within b s i t tag in
          walk_tags-IsWalked flag (t.tag_end - (i + 1)) s (i + 1) (on_tag flag t i w) t.tag_end n
            (omega arith) (omega arith) (omega arith)
            (on_tag-IsWalked flag t i w (omega arith) (IsWalked-le w at i (omega arith) v))
    ])
      refl
  where
    next : Option ParsedTag → Walk
    next none = walk_tags flag zero s (i + 1) w
    next (some t) = walk_tags flag (t.tag_end - (i + 1)) s (i + 1) (on_tag flag t i w)

-- The spans in the order of the text.
abbrev pub Chain : ℕ → ℕ → List Span → Type 0
Chain n cursor [] = cursor ≤ n
Chain n cursor (s ∷ ss) = (cursor ≤ s.start) × (s.start ≤ s.end) × Chain n s.end ss

Chain-lower : (n i j : ℕ) (ss : List Span) → j ≤ i → Chain n i ss → Chain n j ss
Chain-lower n i j [] le c = omega arith
Chain-lower n i j (s ∷ ss) le c = (omega arith, c.1, c.2)

reverse_aux-Chain :
    (n i : ℕ) (ss after : List Span)
    → Down i ss
    → Chain n i after
    → Chain n 0 (reverse_aux ss after)
reverse_aux-Chain n i [] after d c = Chain-lower n i 0 after (omega arith) c
reverse_aux-Chain n i (s ∷ ss) after d c =
    reverse_aux-Chain n s.start ss (s ∷ after) d.2
      (omega arith, d.1, Chain-lower n i s.end after d.0 c)

-- Whatever the text, the spans that the walk leaves are in order, apart and inside the text, in both
-- modes: no slice of the second stage is out of range.
pub collect_tags-Chain :
    (flag : Bool) (text : Bytes) → Chain (length text) 0 (reverse (collect_tags flag text).spans)
unfolding collect_tags
collect_tags-Chain flag text =
    let w : Walk = record {
      spans = [];
      stack = [];
      stats = record no_stats { placeholder_collision_avoided = (choose_prefix text).1 };
    } in
    let v =
      walk_tags-IsWalked flag 0 text 0 w 0 (length text) (omega arith) (omega arith) (omega arith)
        (tt, tt) in
    reverse_aux-Chain (length text) (length text) (collect_tags flag text).spans [] v.0
      (omega arith)
