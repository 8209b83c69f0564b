-- ===== src/CacheControl.antt =====
-- internal/cachecontrol/cachecontrol.go: the frozen-message floor and the order of TTL markers.
-- The body is the tree that gjson reads; log lines are not modelled.
pub mod Floor
pub mod Ttl
use headroom_go.Common.{
  ℕ, zero, suc, ◌+◌, Bool, true, false, ltb, List, [], ◌∷◌, ◌++◌, Option, none, some, Bytes, codes,
  text_eq, if◌then◌else◌,
}
use headroom_go.Json.{Json, member, elements, is_object, string_of}

pub data Field : Type 0 where
  messages system tools : Field

-- The index is that of the message, or -1, `none`, for system and tools. The message text is one
-- constant.
pub record Warning : Type 0 where
  pub field : Field
  pub index : Option ℕ

-- The variables of the walk; `highest` is -1 as `none`.
pub record Walk : Type 0 where
  pub highest : Option ℕ
  pub seen_5m : Bool
  pub warns : List Warning

abbrev pub ttl_1h : Bytes
ttl_1h = codes "1h"

abbrev pub ttl_5m : Bytes
ttl_5m = codes "5m"

-- The warning, if any, and the new seen5m.
unfoldable pub check_ttl_order : Option Json → Bool → Field → Option ℕ → List Warning × Bool
check_ttl_order marker seen_5m field index =
    let ttl = string_of (member (codes "ttl") marker) in
    if text_eq ttl ttl_5m
    then ([], true)
    else if text_eq ttl ttl_1h
    then ((if seen_5m then record { field = field; index = index } ∷ [] else []), seen_5m)
    else ([], seen_5m)

raise : ℕ → Option ℕ → Option ℕ
raise i none = some i
raise i (some h) = if ltb h i then some i else some h

-- What one marker of message `i` does.
unfoldable pub note_marker : ℕ → Option Json → Walk → Walk
unfolding raise
note_marker i marker w =
    let (found, seen) = check_ttl_order marker w.seen_5m messages (some i) in
    record w { highest = raise i w.highest; seen_5m = seen; warns = w.warns ++ found }

unfoldable pub walk_nested : ℕ → List Json → Walk → Walk
walk_nested i [] w = w
walk_nested i (elem ∷ elems) w =
    let marker = member (codes "cache_control") (some elem) in
    walk_nested i elems (if is_object marker then note_marker i marker w else w)

walk_inner : ℕ → Option (List Json) → Walk → Walk
walk_inner i none w = w
walk_inner i (some elems) w = walk_nested i elems w

unfoldable pub walk_block : ℕ → Json → Walk → Walk
unfolding walk_inner
walk_block i block w =
    let marker = member (codes "cache_control") (some block) in
    if is_object marker
    then note_marker i marker w
    else if text_eq (string_of (member (codes "type") (some block))) (codes "tool_result")
    then walk_inner i (elements (member (codes "content") (some block))) w
    else w

unfoldable pub walk_blocks : ℕ → List Json → Walk → Walk
walk_blocks i [] w = w
walk_blocks i (block ∷ blocks) w = walk_blocks i blocks (walk_block i block w)

walk_content : ℕ → Option (List Json) → Walk → Walk
walk_content i none w = w
walk_content i (some blocks) w = walk_blocks i blocks w

unfoldable pub walk_messages : ℕ → List Json → Walk → Walk
unfolding walk_content
walk_messages i [] w = w
walk_messages i (msg ∷ msgs) w =
    walk_messages (i + 1) msgs (walk_content i (elements (member (codes "content") (some msg))) w)

unfoldable pub walk_markers : Field → List Json → Bool → List Warning
walk_markers field [] seen_5m = []
walk_markers field (block ∷ blocks) seen_5m =
    let marker = member (codes "cache_control") (some block) in
    let (found, seen) = check_ttl_order marker seen_5m field none in
    if is_object marker
    then found ++ walk_markers field blocks seen
    else walk_markers field blocks seen_5m

unfoldable pub walk_list : Option (List Json) → Field → List Warning
walk_list none field = []
walk_list (some blocks) field = walk_markers field blocks false

abbrev pub start : Walk
start = record { highest = none; seen_5m = false; warns = [] }

all_messages : Option (List Json) → Walk
all_messages none = start
all_messages (some msgs) = walk_messages 0 msgs start

floor_of : Option ℕ → ℕ
floor_of none = 0
floor_of (some h) = h + 1

-- The root is what ParseBytes returns of the body.
unfoldable pub compute_frozen_count : Option Json → ℕ × List Warning
unfolding all_messages floor_of
compute_frozen_count root =
    let w = all_messages (elements (member (codes "messages") root)) in
    let warns =
      (w.warns ++ walk_list (elements (member (codes "system") root)) system)
      ++ walk_list (elements (member (codes "tools") root)) tools in
    if is_object root then (floor_of w.highest, warns) else (0, [])
