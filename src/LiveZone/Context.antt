-- ===== src/LiveZone/Context.antt =====
-- internal/livezone/livezone.go: what a compressor is told of a block.
use headroom_go.Common.{
  ℕ, ◌+◌, ltb, Bool, not, ◌&&◌, List, [], ◌∷◌, Option, none, some, Bytes, codes, text_eq, is_in,
  if◌then◌else◌,
}
use headroom_go.Common.Maps
use headroom_go.Common.Maps.{Map}
use headroom_go.Json.{Json, member, string_of}
use headroom_go.Transform.{CompressionContext}
use headroom_go.ToolPairs.Index.{ToolUse}

abbrev pub read_tools : List Bytes
read_tools =
    codes "Read"
    ∷ codes "read_file"
    ∷ codes "view"
    ∷ codes "cat"
    ∷ codes "mcp__filesystem__read_text_file"
    ∷ codes "mcp__fs__read_text_file"
    ∷ []

unfoldable pub is_read_tool : Bytes → Bool
is_read_tool tool_name = is_in tool_name read_tools

abbrev pub path_keys : List Bytes
path_keys = codes "file_path" ∷ codes "path" ∷ codes "filePath" ∷ codes "filename" ∷ []

-- The first key with a value that is not empty.
first_path : List Bytes → Option Json → Bytes
first_path [] input = []
first_path (key ∷ keys) input =
    let rest = first_path keys input in
    let v = string_of (member key input) in if text_eq v [] then rest else v

unfoldable pub file_path_from_input : (Bytes → Option Json) → Bytes → Bytes
unfolding first_path
file_path_from_input parse input_json = first_path path_keys (parse input_json)

-- How many earlier Reads of the map are of the same file.
unfoldable pub prior_reads : (Bytes → Option Json) → Bytes → ℕ → Map ToolUse → ℕ
prior_reads parse path seq [] = 0
prior_reads parse path seq ((id, u) ∷ tools) =
    let rest = prior_reads parse path seq tools in
    if ltb u.seq seq && (is_read_tool u.name && text_eq (file_path_from_input parse u.input) path)
    then rest + 1
    else rest

known_context : (Bytes → Option Json) → Bytes → Map ToolUse → ToolUse → CompressionContext
known_context parse query tools u =
    let path = file_path_from_input parse u.input in
    record {
      query = query;
      token_budget = none;
      producing_tool = u.name;
      tool_command = string_of (member (codes "command") (parse u.input));
      tool_input = u.input;
      prior_reads =
          if is_read_tool u.name && not (text_eq path [])
          then prior_reads parse path u.seq tools
          else 0;
    }

unfoldable pub block_context :
    (Bytes → Option Json) → Bytes → Map ToolUse → Bytes → CompressionContext
unfolding known_context
block_context parse query tools tool_use_id =
    let unknown : CompressionContext = record {
      query = query;
      token_budget = none;
      producing_tool = [];
      tool_command = [];
      tool_input = [];
      prior_reads = 0;
    } in
    if text_eq tool_use_id [] then unknown else elim (Maps.get tools tool_use_id) [
      | none ↦ unknown
      | some u ↦ known_context parse query tools u
    ]
