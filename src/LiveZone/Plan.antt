-- ===== src/LiveZone/Plan.antt =====
-- internal/livezone/plan.go: which strings of a message may be rewritten, and where they stand.
-- gjson.Get(body, "messages.3.content.0.text") is a walk down the tree of the whole body, so the
-- Index of what it finds is a position in the body.
pub mod Latest
pub mod Spans
use headroom_go.Common.{
  ℕ, zero, suc, ◌+◌, Bool, true, false, ◌||◌, ltb, leb, List, [], ◌∷◌, ◌++◌, Option, none, some,
  Bytes, codes, text_eq, is_in, is_some, if◌then◌else◌, length, get_elem?,
}
use headroom_go.Json.{Json, str, arr, member, elements, items_list, string_of}

pub data SlotKind : Type 0 where
  compressible string_content hot_zone below_threshold image unreachable : SlotKind

-- `content_index` is -1, `none`, for a slot that is not nested.
pub record PlanSlot : Type 0 where
  pub block_index : ℕ
  pub kind : SlotKind
  pub block_type : Bytes
  pub text : Bytes
  pub start : ℕ
  pub end : ℕ
  pub tool_use_id : Bytes
  pub content_index : Option ℕ

-- replay.go: the kinds of slot whose text may be replaced.
abbrev pub writes : PlanSlot → Bool
writes s = elim s.kind [
  | compressible ↦ true
  | string_content ↦ true
  | image ↦ true
  | hot_zone ↦ false
  | below_threshold ↦ false
  | unreachable ↦ false
]

abbrev pub block_byte_threshold : ℕ
block_byte_threshold = 512

abbrev pub hot_zone_block_types : List Bytes
hot_zone_block_types =
    codes "tool_use" ∷ codes "thinking" ∷ codes "redacted_thinking" ∷ codes "compaction" ∷ []

unfoldable pub is_hot_zone : Bytes → Bool
is_hot_zone block_type = is_in block_type hot_zone_block_types

pub is_user : Option Json → Bool
is_user msg = text_eq (string_of (member (codes "role") msg)) (codes "user")

-- The loop from the end down to the floor; the number counts the messages still to be seen.
unfoldable pub latest_user : List Json → ℕ → ℕ → Option ℕ
unfolding is_user
latest_user msgs floor zero = none
latest_user msgs floor (suc i) =
    let rest = latest_user msgs floor i in
    if leb floor i then (if is_user (get_elem? msgs i) then some i else rest) else none

find_in : Option (List Json) → ℕ → Option ℕ
find_in none floor = none
find_in (some msgs) floor = latest_user msgs floor (length msgs)

unfoldable pub find_latest_user_message : Option Json → ℕ → Option ℕ
unfolding find_in
find_latest_user_message root floor = find_in (elements (member (codes "messages") root)) floor

-- Start, end and text of a string whose offset is known.
unfoldable pub string_slot : Option Json → Option (ℕ × ℕ × Bytes)
string_slot (some (str index raw text)) =
    if ltb 0 index then some (index, index + length raw, text) else none
string_slot _ = none

unfoldable pub classify : ℕ → Bytes → ℕ × ℕ × Bytes → SlotKind → PlanSlot
classify block_index block_type (start, end, text) base = record {
  block_index = block_index;
  kind = if ltb (length text) block_byte_threshold then below_threshold else base;
  block_type = block_type;
  text = text;
  start = start;
  end = end;
  tool_use_id = [];
  content_index = none;
}

-- A slot that is recorded and never rewritten: its span and text are the zero values.
unfoldable pub mark : ℕ → SlotKind → Bytes → Bytes → Option ℕ → PlanSlot
mark i kind block_type tool_use_id content_index = record {
  block_index = i;
  kind = kind;
  block_type = block_type;
  text = [];
  start = 0;
  end = 0;
  tool_use_id = tool_use_id;
  content_index = content_index;
}

-- The slot of a located string, or an unreachable one.
nested_slot : ℕ → ℕ → Bytes → Bytes → SlotKind → Option (ℕ × ℕ × Bytes) → PlanSlot
nested_slot i j id elem_type kind none = mark i unreachable elem_type id (some j)
nested_slot i j id elem_type kind (some s) =
    let slot = classify i elem_type s kind in
    record slot { tool_use_id = id; content_index = some j }

-- One element of a tool_result's structured content.
unfoldable pub plan_elem : ℕ → ℕ → Bytes → Json → PlanSlot
unfolding nested_slot
plan_elem i j id elem =
    let elem_type = string_of (member (codes "type") (some elem)) in
    if is_some (member (codes "cache_control") (some elem)) || is_hot_zone elem_type
    then mark i hot_zone elem_type id (some j)
    else if text_eq elem_type (codes "text")
    then nested_slot i j id elem_type compressible (string_slot (member (codes "text") (some elem)))
    else if text_eq elem_type (codes "image")
    then nested_slot i j id elem_type image
        (string_slot (member (codes "data") (member (codes "source") (some elem))))
    else mark i unreachable elem_type id (some j)

unfoldable pub plan_elems : ℕ → ℕ → Bytes → List Json → List PlanSlot
plan_elems i j id [] = []
plan_elems i j id (elem ∷ elems) = plan_elem i j id elem ∷ plan_elems i (j + 1) id elems

-- A block whose text stands in one field.
field_slot : ℕ → Bytes → Bytes → SlotKind → Option (ℕ × ℕ × Bytes) → PlanSlot
field_slot i block_type id kind none = mark i unreachable block_type [] none
field_slot i block_type id kind (some s) = record (classify i block_type s kind) {
  tool_use_id = id;
}

plan_tool_result : ℕ → Bytes → Bytes → Option Json → Option (List Json) → List PlanSlot
plan_tool_result i block_type id inner none =
    field_slot i block_type id compressible (string_slot inner) ∷ []
plan_tool_result i block_type id inner (some elems) = plan_elems i 0 id elems

unfoldable pub plan_block : ℕ → Json → List PlanSlot
unfolding field_slot plan_tool_result
plan_block i block =
    let block_type = string_of (member (codes "type") (some block)) in
    let inner = member (codes "content") (some block) in
    if is_hot_zone block_type
    then mark i hot_zone block_type [] none ∷ []
    else if text_eq block_type (codes "text")
    then field_slot i block_type [] compressible (string_slot (member (codes "text") (some block)))
      ∷ []
    else if text_eq block_type (codes "image")
    then field_slot i block_type [] image
        (string_slot (member (codes "data") (member (codes "source") (some block))))
      ∷ []
    else if text_eq block_type (codes "tool_result")
    then plan_tool_result i block_type (string_of (member (codes "tool_use_id") (some block))) inner
        (elements inner)
    else mark i unreachable block_type [] none ∷ []

unfoldable pub plan_list : ℕ → List Json → List PlanSlot
plan_list i [] = []
plan_list i (block ∷ blocks) = plan_block i block ++ plan_list (i + 1) blocks

plan_string : Option (ℕ × ℕ × Bytes) → List PlanSlot
plan_string none = []
plan_string (some s) = classify 0 [] s string_content ∷ []

unfoldable pub plan_content : Option Json → List PlanSlot
unfolding plan_string
plan_content (some (str index raw text)) = plan_string (string_slot (some (str index raw text)))
plan_content (some (arr raw blocks)) = plan_list 0 (items_list blocks)
plan_content _ = []

unfoldable pub nth : Option (List Json) → ℕ → Option Json
nth none i = none
nth (some msgs) i = get_elem? msgs i

unfoldable pub plan_blocks : Option Json → ℕ → List PlanSlot
unfolding plan_content nth
plan_blocks root msg_idx =
    plan_content
      (member (codes "content") (nth (elements (member (codes "messages") root)) msg_idx))
