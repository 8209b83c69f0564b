-- ===== src/ToolPairs.antt =====
-- internal/toolpairs: the block types that are never rewritten, and the index of tool_use blocks.
pub mod Index
use headroom_go.Common.{
  Bool, List, [], ◌∷◌, Option, none, some, Bytes, codes, is_in, text_eq, if◌then◌else◌,
}

abbrev pub hot_zone_block_types : List Bytes
hot_zone_block_types =
    codes "tool_use" ∷ codes "thinking" ∷ codes "redacted_thinking" ∷ codes "compaction" ∷ []

unfoldable pub is_hot_zone_block_type : Bytes → Bool
is_hot_zone_block_type block_type = is_in block_type hot_zone_block_types

unfoldable pub inner_content_field : Bytes → Option Bytes
inner_content_field block_type =
    if text_eq block_type (codes "tool_result")
    then some (codes "content")
    else if text_eq block_type (codes "text")
    then some (codes "text")
    else none
