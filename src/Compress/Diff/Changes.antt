-- ===== src/Compress/Diff/Changes.antt =====
-- What internal/compress/diff_compressor.go never drops, and what it stores.
use headroom_go.Common.{
  ◌<◌, ℕ, ◌+◌, codes, ◌≤◌, ◌≡◌, ◌≢◌, ◌⊎◌, inl, inr, refl, subst, Bool, Bool-cases, true, false,
  ◌||◌, List, [], ◌∷◌, ◌++◌, map, arith, Bytes, ltb, length, text_eq_refl, is_in, keep, All,
  All-map,
}
use headroom_go.Ccr.Key.{HashSums, compute_key_md5}
use headroom_go.Ccr.Store.Outcome.{Log, Outcome}
use headroom_go.Common.Lines.{split_lines, join}
use headroom_go.Compress.Marker.{marker_added}
use headroom_go.Compress.Diff.{
  Float64, DiffHunk, DiffFile, ParsedDiff, parse_diff, max_files, max_hunks_per_file,
  min_lines_for_ccr,
}
use headroom_go.Compress.Diff.Reduce.{is_change, reduce_context, reduce_context-changes}
use headroom_go.Compress.Diff.Select.{Strings, score_hunk, select_hunks, cap_files}
use headroom_go.Compress.Diff.Format.{
  DiffCounts, DiffResult, hunk_output, if_any, mode_output, body_output, file_output, files_output,
  format_lines, compress_file, no_counts, footer, after_file, compress_files, compressed_lines,
  marker_line, no_files, gate_result, compress_diff,
}

-- The lines of one list are among those of another.
abbrev pub Among : List Bytes → List Bytes → Type 0
Among out = All (λ l. is_in l out ≡ true)

is_in-left : (l : Bytes) (a b : List Bytes) → is_in l a ≡ true → is_in l (a ++ b) ≡ true
unfolding is_in
is_in-left l [] b h = absurd (ground (arith, h))
is_in-left l (x ∷ a) b h = ground (arith, h, is_in-left l a b)

is_in-right : (l : Bytes) (a b : List Bytes) → is_in l b ≡ true → is_in l (a ++ b) ≡ true
unfolding is_in
is_in-right l [] b h = h
is_in-right l (x ∷ a) b h = ground (arith, is_in-right l a b h)

Among-left : (ls a b : List Bytes) → Among a ls → Among (a ++ b) ls
Among-left ls a b h = All-map ls (λ l i. is_in-left l a b i) h

Among-right : (ls a b : List Bytes) → Among b ls → Among (a ++ b) ls
Among-right ls a b h = All-map ls (λ l i. is_in-right l a b i) h

is_in-cons : (l x : Bytes) (out : List Bytes) → is_in l out ≡ true → is_in l (x ∷ out) ≡ true
unfolding is_in
is_in-cons l x out h = ground (arith, h)

is_in_self : (l : Bytes) (out : List Bytes) → is_in l (l ∷ out) ≡ true
unfolding is_in
is_in_self l out = rw (text_eq_refl l) refl

Among-self : (ls : List Bytes) → Among ls ls
Among-self [] = tt
Among-self (l ∷ ls) = (is_in_self l ls, All-map ls (λ x i. is_in-cons x l ls i) (Among-self ls))

Among-keep : (p : Bytes → Bool) (out ls : List Bytes) → Among out ls → Among out (keep p ls)
Among-keep p out [] h = tt
Among-keep p out (l ∷ ls) h = elim (Bool-cases (p l)) [
  | inl kept ↦ rw kept (h.0, Among-keep p out ls h.1)
  | inr dropped ↦ rw dropped (Among-keep p out ls h.1)
]

abbrev pub ChangesAmong : List Bytes → DiffHunk → Type 0
ChangesAmong out h = Among out (keep is_change h.lines)

-- What is among a part of the output is among the whole.
Changes-weaken :
    (a b : List Bytes) (hs : List DiffHunk)
    → ((l : Bytes) → is_in l a ≡ true → is_in l b ≡ true)
    → All (ChangesAmong a) hs
    → All (ChangesAmong b) hs
Changes-weaken a b hs f h = All-map hs (λ x c. All-map (keep is_change x.lines) f c) h

hunk_output-Among :
    (hs : List DiffHunk) → All (ChangesAmong (hunk_output (map reduce_context hs))) hs
unfolding hunk_output
hunk_output-Among [] = tt
hunk_output-Among (h ∷ hs) =
    let r = reduce_context h in
    let rest = hunk_output (map reduce_context hs) in
    let mine : Among (r.header ∷ (r.lines ++ rest)) (keep is_change r.lines) =
      Among-keep is_change _ r.lines (
        All-map r.lines
          (λ l i. is_in-cons l r.header (r.lines ++ rest) (is_in-left l r.lines rest i))
          (Among-self r.lines)) in
    (
      subst (Among (r.header ∷ (r.lines ++ rest))) (reduce_context-changes h).1 mine,
      Changes-weaken rest (r.header ∷ (r.lines ++ rest)) hs
          (λ l i. is_in-cons l r.header (r.lines ++ rest) (is_in-right l r.lines rest i))
          (hunk_output-Among hs),
    )

is_in-file_output :
    (f : DiffFile) (l : Bytes)
    → f.is_binary ≡ false
    → is_in l (hunk_output f.hunks) ≡ true
    → is_in l (file_output f) ≡ true
unfolding file_output body_output
is_in-file_output f l text i = rw text (
    is_in-cons l f.header _ (
      is_in-right l f.rename_lines _ (
        is_in-right l (mode_output f) _
          (is_in-right l (if_any f.old_file) _ (is_in-right l (if_any f.new_file) _ i)))))

-- A file that is not binary and has no more hunks than are kept shows every added and every deleted line.
abbrev pub Shown : List Bytes → DiffFile → Type 0
Shown out f =
    f.is_binary ≡ false → length f.hunks ≤ max_hunks_per_file → All (ChangesAmong out) f.hunks

module _ (sums : HashSums) (fl : Float64) (strings : Strings) where
  select_hunks-few :
      (score : DiffHunk → fl.F) (hs : List DiffHunk)
      → length hs ≤ max_hunks_per_file
      → select_hunks fl score hs ≡ hs
  unfolding select_hunks
  select_hunks-few score hs few = ground arith

  file_output-Shown :
      (context : Bytes) (f : DiffFile)
      → Shown (file_output (compress_file sums fl strings context f)) f
  unfolding compress_file
  file_output-Shown context f = λ text few.
      let f' = compress_file sums fl strings context f in
      let all = select_hunks-few (score_hunk fl strings context) f.hunks few in
      Changes-weaken (hunk_output (map reduce_context f.hunks)) (file_output f') f.hunks
        (λ l i. is_in-file_output f' l text (rw all i)) (hunk_output-Among f.hunks)

  Shown-weaken :
      (a b : List Bytes) (fs : List DiffFile)
      → ((l : Bytes) → is_in l a ≡ true → is_in l b ≡ true)
      → All (Shown a) fs
      → All (Shown b) fs
  Shown-weaken a b fs f h =
      All-map fs (λ x s. λ text few. Changes-weaken a b x.hunks f (s text few)) h

  files_output-Shown :
      (context : Bytes) (fs : List DiffFile) (n : DiffCounts)
      → All (Shown (files_output (compress_files sums fl strings context fs n).0)) fs
  unfolding files_output compress_files
  files_output-Shown context [] n = tt
  files_output-Shown context (f ∷ fs) n =
      let n' = after_file sums fl strings context f n in
      let here = file_output (compress_file sums fl strings context f) in
      let rest = files_output (compress_files sums fl strings context fs n').0 in
      (
        (λ text few.
            Changes-weaken here (here ++ rest) f.hunks (λ l i. is_in-left l here rest i)
              (file_output-Shown context f text few)),
        Shown-weaken rest (here ++ rest) fs (λ l i. is_in-right l here rest i)
            (files_output-Shown context fs n'),
      )

  cap_files-few : (fs : List DiffFile) → length fs ≤ max_files → cap_files fs ≡ fs
  unfolding cap_files
  cap_files-few fs few = ground arith

  -- With at most max_files files, every added or deleted line that the parser put into a hunk is in the
  -- output, for each file that is not binary and has at most max_hunks_per_file hunks.
  pub compressed_lines-Shown :
      (pd : ParsedDiff) (context : Bytes)
      → length pd.files ≤ max_files
      → All (Shown (compressed_lines sums fl strings pd context).0) pd.files
  unfolding compressed_lines format_lines
  compressed_lines-Shown pd context few =
      let n : DiffCounts = record no_counts { files_affected = length (cap_files pd.files) } in
      let done = compress_files sums fl strings context (cap_files pd.files) n in
      let out = files_output done.0 in
      Shown-weaken out (pd.pre_diff_lines ++ (out ++ footer done.1)) pd.files
        (λ l i.
          is_in-right l pd.pre_diff_lines (out ++ footer done.1)
            (is_in-left l out (footer done.1) i))
        (subst (λ fs. All (Shown out) fs) (cap_files-few pd.files few)
          (files_output-Shown context (cap_files pd.files) n))

  -- The output of stages 2 to 7 as a text.
  abbrev pub diff_body : Bytes → Bytes → Bytes
  diff_body content context =
      join (10 ∷ []) (compressed_lines sums fl strings (parse_diff (split_lines content)) context).0

  -- The comparison of the gate, on the lines of two texts.
  abbrev pub is_fewer : Bytes → Bytes → Bool
  is_fewer body content =
      fl.lt (fl.of_int (length (split_lines body)))
        (fl.mul (fl.of_int (length (split_lines content))) (fl.lit 8 1))

  -- Fifty lines or more, and a file among them.
  abbrev pub IsLong : Bytes → Type 0
  IsLong content =
      (min_lines_for_ccr ≤ length (split_lines content))
      × ((parse_diff (split_lines content)).files ≢ [])

  -- Nothing was put, and the output is the content or the reduced diff.
  abbrev Unstored : Bytes → Bytes → Log → Log → DiffResult → Type 0
  Unstored content context log log' r =
      (log' ≡ log)
      × (r.cache_key ≡ [])
      × (((r.compressed ≡ content)
            × ((length (split_lines content) < min_lines_for_ccr)
                ⊎ ((parse_diff (split_lines content)).files ≡ [])))
          ⊎ ((r.compressed ≡ diff_body content context)
              × IsLong content
              × (is_fewer (diff_body content context) content ≡ false)))
      × (r.compressed_line_count ≡ length (split_lines r.compressed))

  -- The content was put, and the output is the reduced diff with one more line.
  abbrev Marked : Bytes → Bytes → Log → Log → DiffResult → Type 0
  Marked content context log log' r =
      let key = compute_key_md5 sums content in
      let body = diff_body content context in
      (log' ≡ (key, content) ∷ log)
      × (r.cache_key ≡ key)
      × (r.compressed
          ≡ body ++ marker_line (length (split_lines content)) (length (split_lines body)) key)
      × (r.compressed_line_count ≡ length (split_lines body))
      × (length (split_lines r.compressed) ≡ r.compressed_line_count + 1)
      × IsLong content
      × (is_fewer body content ≡ true)

  abbrev pub Stored : Bytes → Bytes → Log → Log → DiffResult → Type 0
  Stored content context log log' r =
      (r.original_line_count ≡ length (split_lines content))
      × (Unstored content context log log' r ⊎ Marked content context log log' r)

  one_more_line :
      (content body : Bytes) (n k : ℕ)
      → length (split_lines (body ++ marker_line n k (compute_key_md5 sums content)))
        ≡ length (split_lines body) + 1
  unfolding marker_line
  one_more_line content body n k =
      marker_added sums content body n k (codes " lines compressed to ")
        (codes ". Retrieve full diff: hash=") refl refl

  -- What follows the call of the diff compressor, with the lines of content and output counted on the
  -- texts. A content of less than fifty lines or without files is the output, and nothing is put. Of
  -- any other content, either nothing was put and the output is the formatted reduced diff, which has
  -- not fewer lines than eight tenths of the content's, as floats compare them; or it has fewer, the
  -- content has been put under its MD5 key, and the output is the reduced diff and one more line,
  -- which names that key and both numbers of lines. The counts of the result are the lines of the
  -- content and of the output without that line, and its key is empty where nothing was put.
  pub compress_diff-Stored :
      (content context : Bytes) (log : Log)
      → Outcome (Stored content context log) log (compress_diff sums fl strings content context)
  unfolding compress_diff gate_result
  compress_diff-Stored content context log =
      elim (Bool-cases
        (ltb (length lines) min_lines_for_ccr || no_files (parse_diff lines).files)) [
          | inl passes ↦
              rw passes
                (refl, inl (refl, refl, inl (refl, why (parse_diff lines).files passes), refl))
          | inr works ↦
              let long = is_long (parse_diff lines).files works in
              elim (Bool-cases (is_fewer body content)) [
                | inr large ↦
                    rw (works, large) (refl, inl (refl, refl, inr (refl, long, large), refl))
                | inl small ↦
                    rw (works, small)
                      (
                        refl,
                        inr (refl, refl, refl, refl, one_more_line content body _ _, long, small),
                      )
              ]
        ]
    where
      lines : List Bytes
      lines = split_lines content

      body : Bytes
      body = diff_body content context

      why :
          (files : List DiffFile)
          → (ltb (length lines) min_lines_for_ccr || no_files files) ≡ true
          → (length lines < min_lines_for_ccr) ⊎ (files ≡ [])
      why [] h = inr refl
      why (f ∷ fs) h = inl (ground (arith, h))

      is_long :
          (files : List DiffFile)
          → (ltb (length lines) min_lines_for_ccr || no_files files) ≡ false
          → (min_lines_for_ccr ≤ length lines) × (files ≢ [])
      is_long [] h = absurd (ground (arith, h))
      is_long (f ∷ fs) h = (ground (arith, h), λ e. cc)
