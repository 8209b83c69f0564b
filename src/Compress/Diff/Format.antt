-- ===== src/Compress/Diff/Format.antt =====
-- formatOutput and Compress of internal/compress/diff_compressor.go.
use headroom_go.Common.{
  ℕ, ◌+◌, ◌-◌, Bool, true, false, ◌||◌, List, [], ◌∷◌, ◌++◌, map, Bytes, codes, ltb, if◌then◌else◌,
  length,
}
use headroom_go.Common.Lines.{split_lines, join}
use headroom_go.Ccr.Key.{HashSums, compute_key_md5}
use headroom_go.Ccr.Marker.{decimal}
use headroom_go.Ccr.Store.{Prog, done, ◌>>◌, store_put}
use headroom_go.Compress.Diff.{
  Float64, DiffHunk, DiffFile, ParsedDiff, parse_diff, min_lines_for_ccr,
}
use headroom_go.Compress.Diff.Reduce.{reduce_context}
use headroom_go.Compress.Diff.Select.{
  Strings, score_hunk, select_hunks, cap_files, total_additions, total_deletions,
}

unfoldable pub hunk_output : List DiffHunk → List Bytes
hunk_output [] = []
hunk_output (h ∷ hs) = h.header ∷ (h.lines ++ hunk_output hs)

unfoldable pub if_any : Bytes → List Bytes
if_any [] = []
if_any (c ∷ s) = (c ∷ s) ∷ []

unfoldable pub mode_output : DiffFile → List Bytes
mode_output f =
    if f.is_new_file
    then codes "new file mode 100644" ∷ []
    else if f.is_deleted_file
    then codes "deleted file mode 100644" ∷ []
    else []

unfoldable pub body_output : DiffFile → List Bytes
unfolding hunk_output if_any
body_output f =
    if f.is_binary
    then codes "Binary files differ" ∷ []
    else if_any f.old_file ++ (if_any f.new_file ++ hunk_output f.hunks)

unfoldable pub file_output : DiffFile → List Bytes
unfolding mode_output body_output
file_output f = f.header ∷ (f.rename_lines ++ (mode_output f ++ body_output f))

unfoldable pub files_output : List DiffFile → List Bytes
unfolding file_output
files_output [] = []
files_output (f ∷ fs) = file_output f ++ files_output fs

-- The counts of a compressed diff.
pub record DiffCounts : Type 0 where
  pub files_affected : ℕ
  pub additions : ℕ
  pub deletions : ℕ
  pub hunks_kept : ℕ
  pub hunks_removed : ℕ

unfoldable pub footer : DiffCounts → List Bytes
footer n =
    let omitted =
      if ltb 0 n.hunks_removed
      then codes ", " ++ (decimal n.hunks_removed ++ codes " hunks omitted")
      else [] in
    if ltb 0 n.hunks_removed || ltb 0 n.files_affected
    then (codes "["
        ++ (decimal n.files_affected
            ++ (codes " files changed, +"
                ++ (decimal n.additions
                    ++ (codes " -"
                        ++ (decimal n.deletions ++ (codes " lines" ++ (omitted ++ codes "]"))))))))
      ∷ []
    else []

unfoldable pub format_lines : List Bytes → List DiffFile → DiffCounts → List Bytes
unfolding files_output footer
format_lines pre files n = pre ++ (files_output files ++ footer n)

pub record DiffResult : Type 0 where
  pub compressed : Bytes
  pub original_line_count : ℕ
  pub compressed_line_count : ℕ
  pub counts : DiffCounts
  pub cache_key : Bytes

abbrev pub no_counts : DiffCounts
no_counts = record {
  files_affected = 0;
  additions = 0;
  deletions = 0;
  hunks_kept = 0;
  hunks_removed = 0;
}

abbrev pub pass_through : Bytes → ℕ → DiffResult
pass_through content n = record {
  compressed = content;
  original_line_count = n;
  compressed_line_count = n;
  counts = no_counts;
  cache_key = [];
}

unfoldable pub marker_line : ℕ → ℕ → Bytes → Bytes
marker_line original compressed key =
    codes "\n["
    ++ (decimal original
        ++ (codes " lines compressed to "
            ++ (decimal compressed ++ (codes ". Retrieve full diff: hash=" ++ (key ++ codes "]")))))

pub no_files : List DiffFile → Bool
no_files [] = true
no_files (f ∷ fs) = false

module _ (sums : HashSums) (fl : Float64) (strings : Strings) where
  -- The hunks of a file that stay, reduced.
  unfoldable pub compress_file : Bytes → DiffFile → DiffFile
  compress_file context f = record f {
    hunks = map reduce_context (select_hunks fl (score_hunk fl strings context) f.hunks);
  }

  -- The sums after a file.
  unfoldable pub after_file : Bytes → DiffFile → DiffCounts → DiffCounts
  unfolding compress_file total_additions total_deletions
  after_file context f n =
      let kept = length (compress_file context f).hunks in
      record n {
        additions = n.additions + total_additions f.hunks;
        deletions = n.deletions + total_deletions f.hunks;
        hunks_kept = n.hunks_kept + kept;
        hunks_removed = n.hunks_removed + (length f.hunks - kept);
      }

  -- The loop over the files, with its sums.
  unfoldable pub compress_files : Bytes → List DiffFile → DiffCounts → List DiffFile × DiffCounts
  unfolding compress_file after_file
  compress_files context [] n = ([], n)
  compress_files context (f ∷ fs) n =
      let (fs', n') = compress_files context fs (after_file context f n) in
      (compress_file context f ∷ fs', n')

  -- Stages 2 to 7: the lines of the output, and the counts.
  unfoldable pub compressed_lines : ParsedDiff → Bytes → List Bytes × DiffCounts
  unfolding compress_files format_lines
  compressed_lines pd context =
      let files = cap_files pd.files in
      let (files', n) =
        compress_files context files (record no_counts { files_affected = length files }) in
      (format_lines pd.pre_diff_lines files' n, n)

  -- Stage 8.
  unfoldable pub gate_result : Bytes → DiffResult → Prog DiffResult
  unfolding marker_line
  gate_result content r =
      let key = compute_key_md5 sums content in
      let marked =
        store_put key content
        >> done (record r {
          compressed =
              r.compressed ++ marker_line r.original_line_count r.compressed_line_count key;
          cache_key = key;
        }) in
      if fl.lt (fl.of_int r.compressed_line_count)
        (fl.mul (fl.of_int r.original_line_count) (fl.lit 8 1))
      then marked
      else done r

  unfoldable pub compress_diff : Bytes → Bytes → Prog DiffResult
  unfolding compressed_lines gate_result no_files
  compress_diff content context =
      let lines = split_lines content in
      let pd = parse_diff lines in
      let (out_lines, n) = compressed_lines pd context in
      let out = join (10 ∷ []) out_lines in
      if ltb (length lines) min_lines_for_ccr || no_files pd.files
      then done (pass_through content (length lines))
      else gate_result content (record {
        compressed = out;
        original_line_count = length lines;
        compressed_line_count = length (split_lines out);
        counts = n;
        cache_key = [];
      })
