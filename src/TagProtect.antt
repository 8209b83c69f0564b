-- ===== src/TagProtect.antt =====
-- internal/tagprotect/tagprotect.go: parseTagAt, choosePrefix, ProtectTags, RestoreTags.
pub mod Replaced
pub mod Opened
pub mod Within
pub mod HtmlTags
pub mod Spans
pub mod Occurs
pub mod RoundTrip
use mathlib.Core.Option
use headroom_go.Common.{
  ℕ, zero, suc, ◌+◌, ◌-◌, Bool, true, false, not, ◌&&◌, ◌||◌, List, [], ◌∷◌, ◌++◌, Option, none,
  some, map, Bytes, codes, ltb, leb, ◌==◌, if◌then◌else◌, text_eq, strip_prefix, contains, length,
  drop, slice, keep, reverse,
}
use headroom_go.Ccr.Marker.{decimal}
use headroom_go.TagProtect.HtmlTags.{is_known_html_tag, to_lower}

abbrev pub default_prefix : Bytes
default_prefix = codes "{{HEADROOM_TAG_"

abbrev pub placeholder_suffix : Bytes
placeholder_suffix = codes "}}"

abbrev pub fallback_prefix : Bytes
fallback_prefix = codes "{{HEADROOM_TAG_FALLBACK_a4f1c7e2_"

abbrev pub salt_attempts : ℕ
salt_attempts = 16

pub record ProtectStats : Type 0 where
  pub tags_seen : ℕ
  pub html_tags_skipped : ℕ
  pub custom_blocks_protected : ℕ
  pub self_closing_protected : ℕ
  pub orphan_closes : ℕ
  pub placeholder_collision_avoided : Bool

pub data SpanKind : Type 0 where
  kind_block : SpanKind
  kind_self_closing : SpanKind
  kind_open_marker : SpanKind
  kind_close_marker : SpanKind

pub record Span : Type 0 where
  pub start : ℕ
  pub end : ℕ
  pub kind : SpanKind

pub record OpenTag : Type 0 where
  pub name_lower : Bytes
  pub open_start : ℕ

-- notTag is `none`, where a parsed tag is expected.
pub data TagKind : Type 0 where
  open_tag_kind : TagKind
  close_tag_kind : TagKind

-- The name itself for its two indices.
pub record ParsedTag : Type 0 where
  pub kind : TagKind
  pub name : Bytes
  pub tag_end : ℕ
  pub is_self_closing : Bool

unfoldable pub is_ascii_letter : ℕ → Bool
is_ascii_letter b = (leb b'a' b && leb b b'z') || (leb b'A' b && leb b b'Z')

unfoldable pub is_ascii_alnum : ℕ → Bool
unfolding is_ascii_letter
is_ascii_alnum b = is_ascii_letter b || (leb b'0' b && leb b b'9')

unfoldable pub is_name_start : ℕ → Bool
unfolding is_ascii_letter
is_name_start b = is_ascii_letter b || b == b'_'

unfoldable pub is_name_cont : ℕ → Bool
unfolding is_ascii_alnum
is_name_cont b = is_ascii_alnum b || b == b'_' || b == b'-' || b == b'.' || b == b':'

unfoldable pub is_ascii_whitespace : ℕ → Bool
is_ascii_whitespace b = b == 32 || b == 9 || b == 10 || b == 13 || b == 12 || b == 11

-- The name at the start of a text, and the rest.
unfoldable pub take_name : Bytes → Bytes × Bytes
unfolding is_name_cont
take_name [] = ([], [])
take_name (b ∷ bs) =
    let (name, rest) = take_name bs in if is_name_cont b then (b ∷ name, rest) else ([], b ∷ bs)

-- A close tag's end, from the place after its name.
unfoldable pub close_end : Bytes → ℕ → Option ℕ
unfolding is_ascii_whitespace
close_end [] j = none
close_end (b ∷ bs) j =
    let after = close_end bs (j + 1) in
    if is_ascii_whitespace b then after else if b == b'>' then some (j + 1) else none

starts_with : ℕ → Bytes → Bool
starts_with c [] = false
starts_with c (b ∷ bs) = b == c

-- The loop over the attributes of an open tag, in a quote or not: its end, and whether it closes itself.
unfoldable pub open_end : Option ℕ → Bytes → ℕ → Option (ℕ × Bool)
unfolding starts_with
open_end quote [] j = none
open_end (some quote) (b ∷ bs) j =
    let closed = open_end none bs (j + 1) in
    let inside = open_end (some quote) bs (j + 1) in if b == quote then closed else inside
open_end none (b ∷ bs) j =
    let quoted = open_end (some b) bs (j + 1) in
    let next = open_end none bs (j + 1) in
    if b == b'"' || b == 39
    then quoted
    else if b == b'/'
    then if starts_with b'>' bs then some (j + 2, true) else next
    else if b == b'>'
    then some (j + 1, false)
    else next

unfoldable pub parse_close : Bytes → ℕ → Option ParsedTag
unfolding take_name close_end is_name_start
parse_close [] j = none
parse_close (b ∷ bs) j =
    let (name, rest) = take_name (b ∷ bs) in
    if is_name_start b
    then Option.map
        (λ e. record { kind = close_tag_kind; name = name; tag_end = e; is_self_closing = false })
        (close_end rest (j + length name))
    else none

unfoldable pub parse_open : Bytes → ℕ → Option ParsedTag
unfolding take_name open_end is_name_start
parse_open [] j = none
parse_open (b ∷ bs) j =
    let (name, rest) = take_name (b ∷ bs) in
    if is_name_start b
    then Option.map
        (λ e. record { kind = open_tag_kind; name = name; tag_end = e.0; is_self_closing = e.1 })
        (open_end none rest (j + length name))
    else none

-- The text is what follows the '<' at `start`.
unfoldable pub parse_tag_at : Bytes → ℕ → Option ParsedTag
unfolding parse_close parse_open
parse_tag_at [] start = none
parse_tag_at (b ∷ bs) start =
    if b == b'/' then parse_close bs (start + 2) else parse_open (b ∷ bs) (start + 1)

unfoldable pub salted_prefix : ℕ → Bytes
salted_prefix salt = default_prefix ++ (decimal salt ++ codes "_")

-- The loop over the salts, with the attempts that are left.
unfoldable pub try_salts : Bytes → ℕ → ℕ → Bytes
unfolding salted_prefix
try_salts text zero salt = fallback_prefix
try_salts text (suc attempts) salt =
    let next = try_salts text attempts (salt + 1) in
    if not (contains text (salted_prefix salt)) then salted_prefix salt else next

unfoldable pub choose_prefix : Bytes → Bytes × Bool
unfolding try_salts
choose_prefix text =
    if not (contains text default_prefix)
    then (default_prefix, false)
    else (try_salts text salt_attempts 0, true)

-- The variables of the loop, the last span first and the top of the stack first.
pub record Walk : Type 0 where
  pub spans : List Span
  pub stack : List OpenTag
  pub stats : ProtectStats

-- The search from the top: the tag that matches, and the stack below it.
unfoldable pub match_open : Bytes → List OpenTag → Option (OpenTag × List OpenTag)
match_open name [] = none
match_open name (t ∷ stack) =
    let below = match_open name stack in
    if text_eq t.name_lower name then some (t, stack) else below

abbrev pub add_span : ℕ → ℕ → SpanKind → Walk → Walk
add_span start end kind w = record w {
  spans = record { start = start; end = end; kind = kind } ∷ w.spans;
}

unfoldable pub on_open : Bool → Bytes → ParsedTag → ℕ → Walk → Walk
on_open compress_tagged_content name tag i w =
    let s = w.stats in
    let opened = record { name_lower = name; open_start = i } ∷ w.stack in
    if tag.is_self_closing
    then add_span i tag.tag_end kind_self_closing
        (record w { stats = record s { self_closing_protected = s.self_closing_protected + 1 } })
    else if compress_tagged_content
    then add_span i tag.tag_end kind_open_marker (record w { stack = opened })
    else record w { stack = opened }

unfoldable pub on_match : Bool → ParsedTag → ℕ → Walk → OpenTag × List OpenTag → Walk
on_match compress_tagged_content tag i w (matched, below) =
    let s = w.stats in
    if compress_tagged_content
    then add_span i tag.tag_end kind_close_marker (record w { stack = below })
    else add_span matched.open_start tag.tag_end kind_block (record w {
      spans = keep (λ x. ltb x.start matched.open_start) w.spans;
      stack = below;
      stats = record s { custom_blocks_protected = s.custom_blocks_protected + 1 };
    })

unfoldable pub on_close : Bool → Bytes → ParsedTag → ℕ → Walk → Walk
unfolding match_open on_match
on_close compress_tagged_content name tag i w =
    let s = w.stats in
    elim (match_open name w.stack) [
      | none ↦ record w { stats = record s { orphan_closes = s.orphan_closes + 1 } }
      | some found ↦ on_match compress_tagged_content tag i w found
    ]

-- The switch on the kind of a tag.
unfoldable pub on_kind : Bool → Bytes → ParsedTag → ℕ → Walk → TagKind → Walk
unfolding on_open on_close
on_kind compress_tagged_content name tag i w open_tag_kind =
    on_open compress_tagged_content name tag i w
on_kind compress_tagged_content name tag i w close_tag_kind =
    on_close compress_tagged_content name tag i w

-- One tag, at `i`.
unfoldable pub on_tag : Bool → ParsedTag → ℕ → Walk → Walk
unfolding on_kind is_known_html_tag to_lower
on_tag compress_tagged_content tag i w =
    let name_lower = map to_lower tag.name in
    let s = record w.stats { tags_seen = w.stats.tags_seen + 1 } in
    let seen = record w { stats = s } in
    if is_known_html_tag name_lower
    then record w { stats = record s { html_tags_skipped = s.html_tags_skipped + 1 } }
    else on_kind compress_tagged_content name_lower tag i seen tag.kind

unfoldable pub tag_here : ℕ → Bytes → ℕ → Option ParsedTag
unfolding parse_tag_at
tag_here b bs i = if b == b'<' then parse_tag_at bs i else none

-- The walk, at `i`; the first argument counts the bytes up to the end of a tag that is done.
unfoldable pub walk_tags : Bool → ℕ → Bytes → ℕ → Walk → Walk
unfolding tag_here on_tag
walk_tags compress_tagged_content skip [] i w = w
walk_tags compress_tagged_content (suc skip) (b ∷ bs) i w =
    walk_tags compress_tagged_content skip bs (i + 1) w
walk_tags compress_tagged_content zero (b ∷ bs) i w = elim (tag_here b bs i) [
  | none ↦ walk_tags compress_tagged_content zero bs (i + 1) w
  | some tag ↦
      walk_tags compress_tagged_content (tag.tag_end - (i + 1)) bs (i + 1)
        (on_tag compress_tagged_content tag i w)
]

unfoldable pub placeholder : Bytes → ℕ → Bytes
placeholder prefix counter = prefix ++ (decimal counter ++ placeholder_suffix)

-- Stage 2, from a cursor and a counter: the text, and the pairs of placeholder and original.
unfoldable pub emit_spans : Bytes → Bytes → ℕ → ℕ → List Span → Bytes × List (Bytes × Bytes)
emit_spans prefix text counter cursor [] = (drop cursor text, [])
emit_spans prefix text counter cursor (s ∷ ss) =
    let (out, blocks) = emit_spans prefix text (counter + 1) s.end ss in
    let hidden = placeholder prefix counter in
    (slice cursor s.start text ++ (hidden ++ out), (hidden, slice s.start s.end text) ∷ blocks)

abbrev pub no_stats : ProtectStats
no_stats = record {
  tags_seen = 0;
  html_tags_skipped = 0;
  custom_blocks_protected = 0;
  self_closing_protected = 0;
  orphan_closes = 0;
  placeholder_collision_avoided = false;
}

-- Stage 1 on a whole text.
unfoldable pub collect_tags : Bool → Bytes → Walk
unfolding walk_tags choose_prefix
collect_tags compress_tagged_content text = walk_tags compress_tagged_content 0 text 0 (record {
  spans = [];
  stack = [];
  stats = record no_stats { placeholder_collision_avoided = (choose_prefix text).1 };
})

emit_if_any : Bytes → Bytes → List Span → Bytes × List (Bytes × Bytes)
unfolding emit_spans
emit_if_any prefix text [] = (text, [])
emit_if_any prefix text (s ∷ ss) = emit_spans prefix text 0 0 (s ∷ ss)

unfoldable pub protect_tags : Bytes → Bool → Bytes × List (Bytes × Bytes) × ProtectStats
unfolding collect_tags emit_if_any choose_prefix
protect_tags text compress_tagged_content =
    let w = collect_tags compress_tagged_content text in
    let (out, blocks) = emit_if_any (choose_prefix text).0 text (reverse w.spans) in
    if text_eq text [] || not (contains text (codes "<"))
    then (text, [], no_stats)
    else (out, blocks, w.stats)

-- strings.ReplaceAll of a text that is not empty; the first argument counts the bytes up to the end of
-- an occurrence.
unfoldable pub replace_from : ℕ → Bytes → Bytes → Bytes → Bytes
replace_from skip old new [] = []
replace_from (suc skip) old new (c ∷ s) = replace_from skip old new s
replace_from zero old new (c ∷ s) = elim (strip_prefix old (c ∷ s)) [
  | none ↦ c ∷ replace_from zero old new s
  | some _ ↦ new ++ replace_from (length old - 1) old new s
]

unfoldable pub restore_tags : Bytes → List (Bytes × Bytes) → Bytes
unfolding replace_from
restore_tags working [] = working
restore_tags working ((hidden, original) ∷ blocks) =
    restore_tags
      (if contains working hidden then replace_from 0 hidden original working else working) blocks
