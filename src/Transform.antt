-- ===== src/Transform.antt =====
-- internal/transform/transform.go: content types, and the two transform interfaces.
-- A float32 is a value of the parameter `Float` of Pipeline.
use headroom_go.Common.{ℕ, List, Option, Bytes, codes}
use headroom_go.Ccr.Store.{Prog}

pub data ContentType : Type 0 where
  json_array source_code search_results build_output git_diff html plain_text : ContentType
  -- any other number
  other : ℕ → ContentType

unfoldable pub tag : ContentType → Bytes
tag json_array = codes "json_array"
tag source_code = codes "source_code"
tag search_results = codes "search"
tag build_output = codes "build"
tag git_diff = codes "diff"
tag html = codes "html"
tag _ = codes "text"

pub record CompressionContext : Type 0 where
  pub query : Bytes
  pub token_budget : Option ℕ
  pub producing_tool : Bytes
  pub tool_command : Bytes
  pub tool_input : Bytes
  pub prior_reads : ℕ

-- The sentinel errors, wrapped or not: all mean that the transform is skipped.
pub data TransformError : Type 0 where
  invalid_input skipped internal : TransformError

pub data Result (A : Type 0) : Type 0 where
  ok : A → Result A
  err : TransformError → Result A

pub record ReformatOutput : Type 0 where
  pub output : Bytes
  pub bytes_saved : ℕ

pub record OffloadOutput : Type 0 where
  pub output : Bytes
  pub bytes_saved : ℕ
  pub cache_key : Bytes

pub record ReformatTransform : Type 0 where
  pub name : Bytes
  pub applies_to : List ContentType
  pub apply : Bytes → Result ReformatOutput

-- Apply is handed the store: it is code that uses one.
pub record OffloadTransform (F : Type 0) : Type 0 where
  pub name : Bytes
  pub applies_to : List ContentType
  pub estimate_bloat : Bytes → F
  pub apply : Bytes → CompressionContext → Prog (Result OffloadOutput)
  pub confidence : F
