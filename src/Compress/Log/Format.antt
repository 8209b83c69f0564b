-- ===== src/Compress/Log/Format.antt =====
-- internal/compress/log_compressor.go: the output, and Compress. The size that package adaptive
-- computes for the budget is a parameter.
pub mod Stored
use headroom_go.Common.{
  ℕ, zero, suc, ◌+◌, ◌-◌, Bool, true, false, not, ◌&&◌, ◌||◌, List, [], ◌∷◌, ◌++◌, map, none, some,
  Bytes, codes, ltb, leb, ◌==◌, if◌then◌else◌, text_eq, length, get_elem?,
}
use headroom_go.Common.Lines.{join, split_lines_rust}
use headroom_go.Ccr.Key.{HashSums, compute_key_md5}
use headroom_go.Ccr.Marker.{decimal}
use headroom_go.Ccr.Store.{Prog, done, ◌>>◌, store_put}
use headroom_go.Pipeline.{Float}
use headroom_go.Compress.Log.{
  LogLevel, level_unknown, level_error, level_fail, level_warn, level_info, max_total_lines,
  log_min_lines_for_ccr,
}
use headroom_go.Compress.Log.Select.{
  LogLine, has_index, is_error, is_fail, is_warn, parse_line, select_indices,
}

pub record LogResult (F : Type 0) : Type 0 where
  pub compressed : Bytes
  pub original_line_count : ℕ
  pub compressed_line_count : ℕ
  pub ratio : F
  pub cache_key : Bytes

abbrev is_info : LogLevel → Bool
is_info level_info = true
is_info level_unknown = true
is_info _ = false

-- "%d NAME", where there are any.
count_part : ℕ → Bytes → List Bytes
count_part n name = if ltb 0 n then (decimal n ++ name) ∷ [] else []

unfoldable pub log_marker : ℕ → ℕ → Bytes → Bytes
log_marker original kept key =
    codes "\n["
    ++ (decimal original
        ++ (codes " lines compressed to "
            ++ (decimal kept ++ (codes ". Retrieve more: hash=" ++ (key ++ codes "]")))))

module _ (fl : Float) where
  -- The lines of a level, from `from`, that are not selected.
  omitted_of : (LogLevel → Bool) → List ℕ → ℕ → List (LogLine fl.F) → ℕ
  omitted_of p selected from [] = 0
  omitted_of p selected from (l ∷ ls) =
      let n = omitted_of p selected (from + 1) ls in
      if p l.level && not (has_index from selected) then n + 1 else n

  content_at : List (LogLine fl.F) → ℕ → Bytes
  content_at parsed i = elim (get_elem? parsed i) [ none ↦ [] | some l ↦ l.content ]

  log_footer : List (LogLine fl.F) → List ℕ → Bytes
  unfolding omitted_of count_part
  log_footer parsed selected =
      codes "["
      ++ (decimal (length parsed - length selected)
          ++ (codes " lines omitted: "
              ++ (join (codes ", ") (
                    count_part (omitted_of is_error selected 0 parsed) (codes " ERROR")
                    ++ (count_part (omitted_of is_fail selected 0 parsed) (codes " FAIL")
                        ++ (count_part (omitted_of is_warn selected 0 parsed) (codes " WARN")
                            ++ count_part (omitted_of is_info selected 0 parsed) (codes " INFO"))))
                  ++ codes "]")))

  unfoldable pub format_output : List (LogLine fl.F) → List ℕ → Bytes
  unfolding content_at log_footer
  format_output parsed selected =
      let out = join (10 ∷ []) (map (content_at parsed) selected) in
      if leb (length parsed) (length selected)
      then out
      else if text_eq out []
      then log_footer parsed selected
      else out ++ (10 ∷ log_footer parsed selected)

  module _ (sums : HashSums) (add : fl.F → fl.F → fl.F) (lit : ℕ → ℕ → fl.F)
      (optimal_k : List Bytes → ℕ) where
    -- The budget.
    abbrev pub log_cap : List Bytes → ℕ
    log_cap lines =
        if ltb max_total_lines (optimal_k lines) then max_total_lines else optimal_k lines

    -- The result before the gate.
    log_result : List Bytes → LogResult fl.F
    unfolding format_output select_indices parse_line
    log_result lines =
        let parsed = map (parse_line fl add lit) lines in
        let selected = select_indices fl parsed (log_cap lines) in
        record {
          compressed = format_output parsed selected;
          original_line_count = length lines;
          compressed_line_count = length selected;
          ratio = fl.ratio (length selected) (length lines);
          cache_key = [];
        }

    -- Stage 6b.
    gate_log : Bytes → LogResult fl.F → Prog (LogResult fl.F)
    unfolding log_marker
    gate_log content r =
        let key = compute_key_md5 sums content in
        let marker = log_marker r.original_line_count r.compressed_line_count key in
        let stored =
          store_put key content
          >> done (record r { compressed = r.compressed ++ marker; cache_key = key }) in
        if leb log_min_lines_for_ccr r.original_line_count && fl.lt r.ratio (lit 5 1)
        then stored
        else done r

    empty_log : Bytes → LogResult fl.F
    empty_log content = record {
      compressed = content;
      original_line_count = 0;
      compressed_line_count = 0;
      ratio = fl.one;
      cache_key = [];
    }

    unfoldable pub compress_log : Bytes → Prog (LogResult fl.F)
    unfolding log_result gate_log empty_log split_lines_rust
    compress_log content =
        let lines = split_lines_rust content in
        if length lines == 0 then done (empty_log content) else gate_log content (log_result lines)
