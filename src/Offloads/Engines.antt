-- ===== src/Offloads/Engines.antt =====
-- internal/offloads: the offloads that hand the content to an engine (json_offload.go, diff_offload.go,
-- log_offload.go, text_offload.go), and the list of router/default.go.
use headroom_go.Common.Lines.{split_lines_rust}
use headroom_go.Common.{
  ℕ, ◌+◌, Bool, false, not, ◌||◌, List, [], ◌∷◌, ◌++◌, none, some, Bytes, codes, ltb, leb, ◌==◌,
  if◌then◌else◌, text_eq, strip_prefix, length,
}
use headroom_go.Common.Space.{trim_left}
use headroom_go.Ccr.Key.{HashSums, compute_key_md5}
use headroom_go.Ccr.Marker.{decimal}
use headroom_go.Ccr.Store.{Prog, done, ◌>>=◌}
use headroom_go.Transform.{
  CompressionContext, Result, ok, err, skipped, OffloadOutput, OffloadTransform, json_array,
  git_diff, build_output, plain_text,
}
use headroom_go.Pipeline.{Float}
use headroom_go.Detect.ReadProtect.{read_output_is_protected}
use headroom_go.Compress.Diff.{Float64}
use headroom_go.Compress.Diff.Select.{Strings}
use headroom_go.Compress.Diff.Format.{DiffResult, compress_diff}
use headroom_go.Compress.Log.Format.{LogResult, compress_log}
use headroom_go.Offloads.{from_lengths, skip_when, store_original, clamp01}
use headroom_go.Offloads.Noise.{diff_noise}
use headroom_go.Offloads.Counts.{
  file_path_from_tool_input, count_row_separators, in_hunk_counts, take_lines, distinct_lines,
  low_lines,
}

-- float32 arithmetic, with its decimal literals: `lit m n` is m / 10 ^ n.
pub record Arithmetic (fl : Float) : Type 0 where
  pub lit : ℕ → ℕ → fl.F
  pub add : fl.F → fl.F → fl.F
  pub sub : fl.F → fl.F → fl.F
  pub mul : fl.F → fl.F → fl.F
  pub div : fl.F → fl.F → fl.F

pub record CrushResult : Type 0 where
  pub compressed : Bytes
  pub was_modified : Bool

pub record TextResult : Type 0 where
  pub compressed : Bytes
  pub kept_segments : ℕ
  pub total_segments : ℕ

-- What is behind the offloads beside the compressors of diffs and logs: a Crusher, a TextCrusher with
-- its CountSegments, adaptive.ComputeOptimalK for the log compressor's budget, and the detector's
-- comparison with logHighPriorityThresh.
pub record Engines : Type 0 where
  pub crush : Bytes → Bytes → CrushResult
  pub crush_text : Bytes → Bytes → TextResult
  pub count_segments : Bytes → ℕ
  pub optimal_k : List Bytes → ℕ
  pub is_low_priority : Bytes → Bool

-- The end of an offload whose engine owns the key.
unfoldable pub from_engine : Bytes → Bytes → Bytes → Result OffloadOutput
from_engine content compressed cache_key =
    if text_eq cache_key []
    then err skipped
    else ok (from_lengths (length content) compressed cache_key)

module _ (sums : HashSums) (fl : Float) (f64 : Float64) (strings : Strings) (ar : Arithmetic fl)
    (engines : Engines) (get : Bytes → Bytes → Bytes) where
  unfoldable pub estimate_json : Bytes → fl.F
  unfolding trim_left count_row_separators clamp01
  estimate_json content = elim (strip_prefix (codes "[") (trim_left content)) [
    | none ↦ fl.zero
    | some _ ↦
        if ltb (count_row_separators content) 4
        then fl.zero
        else clamp01 fl (fl.ratio (count_row_separators content) 49)
  ]

  unfoldable pub apply_json : Bytes → CompressionContext → Prog (Result OffloadOutput)
  apply_json content ctx =
      let r = engines.crush content ctx.query in
      let key = compute_key_md5 sums content in
      skip_when (not r.was_modified) (
        skip_when (leb (length content) (length r.compressed)) (
          store_original key content
            (r.compressed ++ (codes "\n[json_offload CCR: hash=" ++ (key ++ codes "]")))))

  unfoldable pub estimate_diff : Bytes → fl.F
  unfolding in_hunk_counts split_lines_rust clamp01
  estimate_diff content =
      let lines = split_lines_rust content in
      let (context, change) = in_hunk_counts false lines in
      let ratio = fl.ratio context (context + change) in
      let normal = ar.lit 6 1 in
      let span = ar.sub fl.one normal in
      if ltb (length lines) 50 || context + change == 0
      then fl.zero
      else if fl.le ratio normal
      then fl.zero
      else if fl.le span fl.zero
      then fl.one
      else clamp01 fl (ar.div (ar.sub ratio normal) span)

  unfoldable pub apply_diff : Bytes → CompressionContext → Prog (Result OffloadOutput)
  unfolding from_engine
  apply_diff content ctx = compress_diff sums f64 strings content ctx.query >>= λ (r : DiffResult).
      done (from_engine content r.compressed r.cache_key)

  unfoldable pub estimate_log : Bytes → fl.F
  unfolding split_lines_rust take_lines distinct_lines low_lines clamp01
  estimate_log content =
      let sample = take_lines 100 (split_lines_rust content) in
      let sampled = length sample in
      let repetition = ar.sub fl.one (fl.ratio (distinct_lines sample) sampled) in
      let dilution = fl.ratio (low_lines engines.is_low_priority sample) sampled in
      if ltb (length (split_lines_rust content)) 50 || sampled == 0
      then fl.zero
      else clamp01 fl (ar.add (ar.mul repetition (ar.lit 5 1)) (ar.mul dilution (ar.lit 5 1)))

  unfoldable pub apply_log : Bytes → CompressionContext → Prog (Result OffloadOutput)
  unfolding from_engine file_path_from_tool_input
  apply_log content ctx =
      let file_path = file_path_from_tool_input get ctx.tool_input in
      skip_when
        (read_output_is_protected ctx.producing_tool ctx.tool_command file_path build_output)
        (compress_log fl sums ar.add ar.lit engines.optimal_k content >>= λ (r : LogResult fl.F).
          done (from_engine content r.compressed r.cache_key))

  unfoldable pub estimate_text : Bytes → fl.F
  estimate_text content =
      if ltb (length content) 1024
      then fl.zero
      else if ltb (engines.count_segments content) 6
      then fl.zero
      else ar.lit 5 1

  unfoldable pub apply_text : Bytes → CompressionContext → Prog (Result OffloadOutput)
  unfolding file_path_from_tool_input
  apply_text content ctx =
      let file_path = file_path_from_tool_input get ctx.tool_input in
      let r = engines.crush_text content ctx.query in
      let key = compute_key_md5 sums content in
      let note =
        codes "\n["
        ++ (decimal r.kept_segments
            ++ (codes " of "
                ++ (decimal r.total_segments
                    ++ (codes " sentences kept. Retrieve the full text: hash="
                        ++ (key ++ codes "]"))))) in
      skip_when (read_output_is_protected ctx.producing_tool ctx.tool_command file_path plain_text)
        (skip_when (text_eq r.compressed content || r.kept_segments == r.total_segments)
          (store_original key content (r.compressed ++ note)))

  -- The offloads of NewDefault, in their order; the confidences are float32 literals.
  abbrev pub default_offloads : List (OffloadTransform fl.F)
  default_offloads =
      diff_noise sums fl (ar.lit 9 1)
      ∷ record {
        name = codes "diff_offload";
        applies_to = git_diff ∷ [];
        estimate_bloat = estimate_diff;
        apply = apply_diff;
        confidence = ar.lit 85 2;
      }
      ∷ record {
        name = codes "json_offload";
        applies_to = json_array ∷ [];
        estimate_bloat = estimate_json;
        apply = apply_json;
        confidence = ar.lit 85 2;
      }
      ∷ record {
        name = codes "log_offload";
        applies_to = build_output ∷ [];
        estimate_bloat = estimate_log;
        apply = apply_log;
        confidence = ar.lit 85 2;
      }
      ∷ record {
        name = codes "text_offload";
        applies_to = plain_text ∷ [];
        estimate_bloat = estimate_text;
        apply = apply_text;
        confidence = ar.lit 7 1;
      }
      ∷ []
