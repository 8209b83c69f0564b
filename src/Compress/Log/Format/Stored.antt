-- ===== src/Compress/Log/Format/Stored.antt =====
-- What internal/compress/log_compressor.go puts in the store.
use headroom_go.Common.{
  Bool, sym, ◌+◌, ◌<◌, false, map, codes, arith, ℕ, ◌≡◌, ◌⊎◌, inl, inr, refl, Bool-cases, true,
  ◌&&◌, List, [], ◌∷◌, ◌++◌, Bytes, leb, ◌==◌, length,
}
use headroom_go.Common.Lines.{split_lines, split_lines_rust}
use headroom_go.Ccr.Key.{HashSums, compute_key_md5}
use headroom_go.Ccr.Store.Outcome.{Log, Outcome}
use headroom_go.Pipeline.{Float}
use headroom_go.Compress.Log.{log_min_lines_for_ccr}
use headroom_go.Compress.Marker.{marker_added}
use headroom_go.Compress.Log.Select.{LogLine, parse_line, select_indices}
use headroom_go.Compress.Log.Format.{
  log_cap, format_output, LogResult, log_marker, log_result, gate_log, empty_log, compress_log,
}

module _ (fl : Float) (sums : HashSums) (add : fl.F → fl.F → fl.F) (lit : ℕ → ℕ → fl.F)
    (optimal_k : List Bytes → ℕ) where
  abbrev pub parsed_log : Bytes → List (LogLine fl.F)
  parsed_log content = map (parse_line fl add lit) (split_lines_rust content)

  -- The lines that are kept.
  abbrev pub kept_of : Bytes → List ℕ
  kept_of content =
      select_indices fl (parsed_log content)
        (log_cap fl sums add lit optimal_k (split_lines_rust content))

  abbrev pub log_body : Bytes → Bytes
  log_body content = format_output fl (parsed_log content) (kept_of content)

  -- The gate, on the lines of the content and on those that are kept.
  abbrev pub is_worth : Bytes → Bool
  is_worth content =
      leb log_min_lines_for_ccr (length (split_lines_rust content))
      && fl.lt (fl.ratio (length (kept_of content)) (length (split_lines_rust content))) (lit 5 1)

  -- The result counts the lines that are kept, and has their ratio.
  abbrev pub IsCounted : Bytes → LogResult fl.F → Type 0
  IsCounted content r =
      (r.compressed_line_count ≡ length (kept_of content))
      × (r.ratio ≡ fl.ratio (length (kept_of content)) (length (split_lines_rust content)))

  abbrev Unstored : Bytes → Log → Log → LogResult fl.F → Type 0
  Unstored content log log' r =
      (log' ≡ log)
      × (r.cache_key ≡ [])
      × (((r.compressed ≡ content) × (length (split_lines_rust content) ≡ 0))
          ⊎ ((r.compressed ≡ log_body content)
              × IsCounted content r
              × (is_worth content ≡ false)
              × (0 < length (split_lines_rust content))))

  abbrev Marked : Bytes → Log → Log → LogResult fl.F → Type 0
  Marked content log log' r =
      let key = compute_key_md5 sums content in
      (log' ≡ (key, content) ∷ log)
      × (r.cache_key ≡ key)
      × (r.compressed
          ≡ log_body content
            ++ log_marker (length (split_lines_rust content)) (length (kept_of content)) key)
      × (length (split_lines r.compressed) ≡ length (split_lines (log_body content)) + 1)
      × IsCounted content r
      × (is_worth content ≡ true)

  abbrev pub LogStored : Bytes → Log → Log → LogResult fl.F → Type 0
  LogStored content log log' r =
      (r.original_line_count ≡ length (split_lines_rust content))
      × (Unstored content log log' r ⊎ Marked content log log' r)

  one_more_line :
      (content body : Bytes) (n k : ℕ)
      → length (split_lines (body ++ log_marker n k (compute_key_md5 sums content)))
        ≡ length (split_lines body) + 1
  unfolding log_marker
  one_more_line content body n k =
      marker_added sums content body n k (codes " lines compressed to ")
        (codes ". Retrieve more: hash=") refl refl

  -- What follows the call of the log compressor, with the lines counted on the texts. A content
  -- without lines is the output, and nothing is put. Of any other content, either nothing was put and
  -- the output is the formatted kept lines: the content has less than fifty lines, or the ratio of the
  -- kept ones to its lines is not below one half, as floats compare them; or the content has fifty and
  -- the ratio is below, the content has been put under its MD5 key, and the output is the formatted
  -- kept lines and one more line, which names that key and both numbers of lines. The result counts
  -- the lines of the content and, where it has some, the kept ones, and holds their ratio; its key is
  -- empty where nothing was put.
  pub compress_log-Stored :
      (content : Bytes) (log : Log)
      → Outcome (LogStored content log) log (compress_log fl sums add lit optimal_k content)
  unfolding compress_log empty_log log_result gate_log
  compress_log-Stored content log = elim (Bool-cases (length (split_lines_rust content) == 0)) [
    | inl nothing ↦
        let none_there : length (split_lines_rust content) ≡ 0 = ground (arith, nothing) in
        rw nothing (sym none_there, inl (refl, refl, inl (refl, none_there)))
    | inr lines ↦ elim (Bool-cases (is_worth content)) [
      | inr large ↦
          rw (lines, large)
            (refl, inl (refl, refl, inr (refl, (refl, refl), large, ground (arith, lines))))
      | inl small ↦
          rw (lines, small)
            (
              refl,
              inr (
                refl,
                refl,
                refl,
                one_more_line content (log_body content) _ _,
                (refl, refl),
                small,
              ),
            )
    ]
  ]
