-- ===== src/Lib.antt =====
-- A verification library for headroom-go, a compressor of the requests that go to a language model.
--
-- A request body passes through internal/livezone: Dispatch finds the latest user message at or above
-- the frozen floor (internal/cachecontrol), plans which of its strings may be rewritten, runs each
-- through the router (internal/router, internal/pipeline), keeps what saves tokens, and splices the
-- results into the body without touching another byte. The originals go to a store (internal/ccr)
-- under keys that markers in the new text name. A replay table (internal/cachestab) reproduces what
-- earlier requests of the session compressed, so that the provider's prefix cache stays valid.
--
-- The files, by the code that they model:
--   Common          lists, texts, maps and integers that the other modules share
--   Json            the parsed tree of github.com/tidwall/gjson and its methods; Json/Layout is what is
--                   documented of its offsets: in document order, apart, each at its raw text
--   Ccr/Marker      internal/ccr/marker.go: MarkerFor, MarkerForCell, MarkerForLossy, ParseMarker, HashesIn,
--                   with the two regular expressions written as matchers
--   Ccr/Key         internal/ccr/key.go and md5key.go: ComputeKey, ComputeKeyMD5
--   Ccr/Store       internal/ccr/store.go: the interface Store as a record of operations, code that is
--                   handed a store as a tree of Put, Get and Len (`Prog`), and its run; Ccr/Store/Outcome
--                   is a logic for all runs of such code, whatever the store answers; Ccr/Store/Build is
--                   FromConfig
--   Ccr/InMemory    internal/ccr/backends/inmemory.go: Put, Get, Len over a heap of entries, since the map
--                   and the queue share them; Ccr/InMemory/Spec is the list that it stands for
--   CacheControl    internal/cachecontrol/cachecontrol.go: ComputeFrozenCount, walkList, checkTTLOrder
--   ToolPairs       internal/toolpairs: Index, IsHotZoneBlockType, InnerContentField
--   CacheStab       internal/cachestab/replay.go (Replay: Begin, Lookup, Record as `remember`, Forget, sweep,
--                   over a heap of sessions), drift.go (Drift: Observe, Drifted, stripCacheControl) and volatile.go
--                   (Volatile: DetectVolatile)
--   Transform       internal/transform/transform.go
--   Pipeline        internal/pipeline/pipeline.go and internal/router/router.go: Build, Run, Compress
--   LiveZone        internal/livezone: Splice and Encode (splice.go), Plan (plan.go), Compress (compress.go),
--                   Context (blockContext), Pass (what both passes share), Replay (replayAll), Dispatch
--                   (Dispatch), Resize (countImageTokens and resizedSize of image.go); Planned
--                   says what a replacement may be, Picked and Steps which slots the rounds of a
--                   pass have replaced
--   TagProtect      internal/tagprotect: ProtectTags, RestoreTags (tagprotect.go) and html_tags.go
--   Compress/Marker the line with a key that the compressors of internal/compress add to an output
--   Compress/Diff   internal/compress/diff_compressor.go: parseDiff, Select (scoreHunks, selectHunks), Reduce
--                   (reduceContext), Format (formatOutput, Compress)
--   Detect          internal/detect/readprotect.go: Patterns (its lists and regular expressions, written as
--                   matchers), ReadProtect (ReadOutputIsProtected, IsReadCommand)
--   Offloads        internal/offloads: Noise (diff_noise.go), Counts (helpers.go and what the
--                   estimates count), Engines (json_offload.go, diff_offload.go,
--                   log_offload.go, text_offload.go and the list of internal/router/default.go); Keys is
--                   about the keys that they return
--   Reformats       internal/reformats: lines.go and LogTemplate (log_template.go); LogTemplate/Blocks is
--                   how its output is read back
--   Compress/Log    internal/compress/log_compressor.go: classifyLevel, detectFormat, Lines (isStackTraceLine,
--                   isSummaryLine), Dedupe (normalizeForDedupe), Select (scoreLogLine, selectIndices), Format
--                   (formatOutput, Compress)
--   SemCache        internal/semcache: New, Lookup, Store (cache.go), Cosine and Normalize
--   Tests           runs on concrete inputs, and each theorem applied at one
--
-- Bytes are natural numbers, strings lists of them, and int is ℕ where the code keeps it from being
-- negative. A loop is recursion on the list that it ranges over; `decimal` recurses on the number
-- itself plus one, which is more than it has digits. resizedSize searches on fuel, as much as the
-- longest edge, and IsReadCommand as much as the length of the command. saturatingAdd keeps the
-- wrap-around of 64 bits. An operation that locks is one step.
--
-- Parameters, with what is assumed of them: the parser of gjson (Json/Layout, in theorems about
-- places only); BLAKE3 and MD5 (the sizes of their sums); float32 and float64 (nothing); the embedder
-- (nothing); the tokenizer's count (nothing); the scaling of images and their token counts (nothing);
-- the transforms of a pipeline (nothing, but the contracts Preserves and Stores where a theorem names
-- them); the crushers behind the json and text offloads and the budget of package adaptive (nothing);
-- the detector that scores the lines of a log (nothing); the clock.
--
-- Not modelled: logging, HTTP, files and SQL; ComputeStructuralHash and session.go of
-- internal/cachestab; image.go but for the replay key and resizedSize; and the packages beside
-- the ones above, among them the other compressors, which are heuristics behind the interfaces of
-- Transform.
mod Common
pub mod Ccr
pub mod Json
pub mod CacheControl
pub mod ToolPairs
pub mod CacheStab
pub mod Transform
pub mod Pipeline
pub mod LiveZone
pub mod SemCache
mod Tests
pub mod TagProtect
pub mod Compress
pub mod Offloads
pub mod Reformats
pub mod Detect
