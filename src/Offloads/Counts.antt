-- ===== src/Offloads/Counts.antt =====
-- What the offloads of internal/offloads count and look up, with helpers.go.

use headroom_go.Common.{
  has_prefix, ℕ, zero, suc, ◌+◌, ◌-◌, Bool, true, false, not, ◌||◌, List, [], ◌∷◌, none, some,
  Bytes, codes, if◌then◌else◌, text_eq, strip_prefix, is_in, length,
}

-- The four keys in turn; `get` is gjson.Get with String, empty where there is no value.
unfoldable pub file_path_from : (Bytes → Bytes → Bytes) → List Bytes → Bytes → Bytes
file_path_from get [] input = []
file_path_from get (k ∷ ks) input =
    if text_eq (get input k) [] then file_path_from get ks input else get input k

unfoldable pub file_path_from_tool_input : (Bytes → Bytes → Bytes) → Bytes → Bytes
unfolding file_path_from
file_path_from_tool_input get =
    file_path_from get (codes "file_path" ∷ codes "path" ∷ codes "filePath" ∷ codes "filename" ∷ [])

-- strings.Count of a text that is not empty; the first argument counts the bytes left of an occurrence.
count_from : ℕ → Bytes → Bytes → ℕ
count_from skip needle [] = 0
count_from (suc skip) needle (c ∷ s) = count_from skip needle s
count_from zero needle (c ∷ s) = elim (strip_prefix needle (c ∷ s)) [
  | none ↦ count_from zero needle s
  | some _ ↦ count_from (length needle - 1) needle s + 1
]

unfoldable pub count_row_separators : Bytes → ℕ
unfolding count_from
count_row_separators content =
    count_from 0 (codes "},{") content
    + count_from 0 (codes "}, {") content
    + count_from 0 (codes "},\n") content

next_in_hunk : Bool → Bytes → Bool
next_in_hunk in_hunk line =
    if has_prefix line (codes "@@")
    then true
    else if has_prefix line (codes "diff --git")
    then false
    else in_hunk

-- A line that the estimate does not count, whatever it starts with.
not_counted : Bool → Bytes → Bool
not_counted in_hunk line =
    has_prefix line (codes "@@")
    || has_prefix line (codes "diff --git")
    || has_prefix line (codes "+++")
    || has_prefix line (codes "---")
    || not in_hunk

-- The counts of diff_offload's estimate: in a hunk or not, context and changes.
unfoldable pub in_hunk_counts : Bool → List Bytes → ℕ × ℕ
unfolding next_in_hunk not_counted
in_hunk_counts in_hunk [] = (0, 0)
in_hunk_counts in_hunk (line ∷ lines) =
    let (context, change) = in_hunk_counts (next_in_hunk in_hunk line) lines in
    if not_counted in_hunk line
    then (context, change)
    else if has_prefix line (codes "+") || has_prefix line (codes "-")
    then (context, change + 1)
    else if has_prefix line (codes " ")
    then (context + 1, change)
    else (context, change)

unfoldable pub take_lines : ℕ → List Bytes → List Bytes
take_lines zero ls = []
take_lines (suc n) [] = []
take_lines (suc n) (l ∷ ls) = l ∷ take_lines n ls

-- How many of the lines are different.
unfoldable pub distinct_lines : List Bytes → ℕ
distinct_lines [] = 0
distinct_lines (l ∷ ls) = let n = distinct_lines ls in if is_in l ls then n else n + 1

unfoldable pub low_lines : (Bytes → Bool) → List Bytes → ℕ
low_lines low [] = 0
low_lines low (l ∷ ls) = let n = low_lines low ls in if low l then n + 1 else n
