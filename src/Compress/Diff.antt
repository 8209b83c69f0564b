-- ===== src/Compress/Diff.antt =====
-- internal/compress/diff_compressor.go: the data, the line patterns and the parser.
pub mod Reduce
pub mod Select
pub mod Format
pub mod Changes
use headroom_go.Common.{
  ℕ, zero, suc, ◌+◌, Bool, true, false, not, ◌&&◌, ◌||◌, List, [], ◌∷◌, ◌++◌, Option, none, some,
  Bytes, codes, ltb, leb, ◌==◌, if◌then◌else◌, text_eq, strip_prefix, contains, length, drop,
}

-- A float64, with its decimal literals: `lit m n` is m / 10 ^ n.
pub record Float64 : Type 1 where
  pub F : Type 0
  pub of_int : ℕ → F
  pub lit : ℕ → ℕ → F
  pub add : F → F → F
  pub mul : F → F → F
  pub lt : F → F → Bool

abbrev pub max_context_lines : ℕ
max_context_lines = 2

abbrev pub max_hunks_per_file : ℕ
max_hunks_per_file = 10

abbrev pub max_files : ℕ
max_files = 20

abbrev pub min_lines_for_ccr : ℕ
min_lines_for_ccr = 50

-- strings.HasPrefix.
abbrev pub has_prefix : Bytes → Bytes → Bool
has_prefix s p = elim (strip_prefix p s) [ none ↦ false | some _ ↦ true ]

is_empty : Bytes → Bool
is_empty [] = true
is_empty (c ∷ s) = false

-- ^p(.+)$ on a line.
unfoldable pub prefix_and_more : Bytes → Bytes → Bool
unfolding is_empty
prefix_and_more p line = elim (strip_prefix p line) [
  | none ↦ false
  | some rest ↦ not (is_empty rest)
]

-- (.+)sep(.+)$ on a line.
more_around : Bytes → Bytes → Bool
unfolding prefix_and_more
more_around sep [] = false
more_around sep (c ∷ []) = false
more_around sep (c ∷ d ∷ s) = prefix_and_more sep (d ∷ s) || more_around sep (d ∷ s)

-- diffGitRe, diffCombinedRe, diffCcRe.
unfoldable pub is_diff_header : Bytes → Bool
unfolding more_around prefix_and_more
is_diff_header line =
    (elim (strip_prefix (codes "diff --git a/") line) [
      | none ↦ false
      | some rest ↦ more_around (codes " b/") rest
    ])
    || prefix_and_more (codes "diff --combined ") line
    || prefix_and_more (codes "diff --cc ") line

unfoldable pub is_old_file : Bytes → Bool
unfolding prefix_and_more
is_old_file line = prefix_and_more (codes "--- a/") line || text_eq line (codes "--- /dev/null")

unfoldable pub is_new_file_line : Bytes → Bool
unfolding prefix_and_more
is_new_file_line line =
    prefix_and_more (codes "+++ b/") line || text_eq line (codes "+++ /dev/null")

ends_with : Bytes → Bytes → Bool
ends_with suffix [] = text_eq suffix []
ends_with suffix (c ∷ s) = text_eq (c ∷ s) suffix || ends_with suffix s

-- ^Binary files .+ differ$
unfoldable pub is_binary_line : Bytes → Bool
unfolding ends_with
is_binary_line line = elim (strip_prefix (codes "Binary files ") line) [
  | none ↦ false
  | some rest ↦ ends_with (codes " differ") (drop 1 rest)
]

is_digit : ℕ → Bool
is_digit c = leb b'0' c && leb c b'9'

-- \d* at the start of a text: how many, and the rest.
unfoldable pub take_digits : Bytes → ℕ × Bytes
unfolding is_digit
take_digits [] = (0, [])
take_digits (c ∷ s) =
    let (n, rest) = take_digits s in if is_digit c then (n + 1, rest) else (0, c ∷ s)

-- \d+
digits_then : Bytes → Option Bytes
unfolding take_digits
digits_then s = let (n, rest) = take_digits s in if n == 0 then none else some rest

-- (?:,\d+)?
count_then : Bytes → Option Bytes
unfolding digits_then
count_then [] = some []
count_then (c ∷ s) = if c == b',' then digits_then s else some (c ∷ s)

-- A range such as "-12,3 ", with its sign and the blank behind it.
range_then : ℕ → Bytes → Option Bytes
unfolding digits_then count_then
range_then sign s = elim (strip_prefix (sign ∷ []) s) [
  | none ↦ none
  | some s' ↦ elim (digits_then s') [
    | none ↦ none
    | some s'' ↦ elim (count_then s'') [ none ↦ none | some s3 ↦ strip_prefix (codes " ") s3 ]
  ]
]

-- Ranges of old files, as many as given, and one of the new file.
ranges_then : ℕ → Bytes → Option Bytes
unfolding range_then
ranges_then zero s = range_then b'+' s
ranges_then (suc n) s = elim (range_then b'-' s) [ none ↦ none | some s' ↦ ranges_then n s' ]

hunk_with : Bytes → ℕ → Bytes → Bool
unfolding ranges_then
hunk_with mark n line = elim (strip_prefix (mark ++ codes " ") line) [
  | none ↦ false
  | some s ↦ elim (ranges_then n s) [ none ↦ false | some rest ↦ has_prefix rest mark ]
]

-- hunkHeaderRe, for one, two or three old files.
unfoldable pub is_hunk_header : Bytes → Bool
unfolding hunk_with
is_hunk_header line =
    hunk_with (codes "@@") 1 line
    || hunk_with (codes "@@@") 2 line
    || hunk_with (codes "@@@@") 3 line

-- The score is kept beside a hunk, where it is computed.
pub record DiffHunk : Type 0 where
  pub header : Bytes
  pub lines : List Bytes
  pub additions : ℕ
  pub deletions : ℕ
  pub context_lines : ℕ

-- The three original lines that no function reads are left out.
pub record DiffFile : Type 0 where
  pub header : Bytes
  pub old_file : Bytes
  pub new_file : Bytes
  pub hunks : List DiffHunk
  pub is_new_file : Bool
  pub is_deleted_file : Bool
  pub is_renamed : Bool
  pub is_binary : Bool
  pub rename_lines : List Bytes

-- The result of the parser, with its two variables.
pub record ParsedDiff : Type 0 where
  pub pre_diff_lines : List Bytes
  pub files : List DiffFile
  pub current_file : Option DiffFile
  pub current_hunk : Option DiffHunk

abbrev pub new_diff_file : Bytes → DiffFile
new_diff_file header = record {
  header = header;
  old_file = [];
  new_file = [];
  hunks = [];
  is_new_file = false;
  is_deleted_file = false;
  is_renamed = false;
  is_binary = false;
  rename_lines = [];
}

abbrev pub new_hunk : Bytes → DiffHunk
new_hunk header = record {
  header = header;
  lines = [];
  additions = 0;
  deletions = 0;
  context_lines = 0;
}

add_hunk : Option DiffHunk → DiffFile → DiffFile
add_hunk none f = f
add_hunk (some h) f = record f { hunks = f.hunks ++ (h ∷ []) }

unfoldable pub flush_hunk : ParsedDiff → ParsedDiff
unfolding add_hunk
flush_hunk p = elim p.current_file [
  | none ↦ record p { current_hunk = none }
  | some f ↦ record p { current_file = some (add_hunk p.current_hunk f); current_hunk = none }
]

unfoldable pub flush_file : ParsedDiff → ParsedDiff
unfolding add_hunk
flush_file p = elim p.current_file [
  | none ↦ record p { current_hunk = none }
  | some f ↦ record p {
    files = p.files ++ (add_hunk p.current_hunk f ∷ []);
    current_file = none;
    current_hunk = none;
  }
]

-- Step (3) of a line: the markers of a file.
unfoldable pub mark_file : Bytes → DiffFile → DiffFile
unfolding is_binary_line
mark_file line f =
    if has_prefix line (codes "new file mode")
    then record f { is_new_file = true }
    else if has_prefix line (codes "deleted file mode")
    then record f { is_deleted_file = true }
    else if has_prefix line (codes "rename ")
        || has_prefix line (codes "similarity ")
        || has_prefix line (codes "copy ")
        || has_prefix line (codes "dissimilarity ")
    then record f { is_renamed = true; rename_lines = f.rename_lines ++ (line ∷ []) }
    else if is_binary_line line
    then record f { is_binary = true }
    else f

-- Step (7): a line of a hunk.
unfoldable pub add_line : Bytes → DiffHunk → DiffHunk
add_line line h =
    let longer = record h { lines = h.lines ++ (line ∷ []) } in
    if has_prefix line (codes "+") && not (has_prefix line (codes "+++"))
    then record longer { additions = h.additions + 1 }
    else if has_prefix line (codes "-") && not (has_prefix line (codes "---"))
    then record longer { deletions = h.deletions + 1 }
    else if has_prefix line (codes " ") || text_eq line []
    then record longer { context_lines = h.context_lines + 1 }
    else longer

-- Steps (4) to (7), in the file `f` that step (3) has marked.
unfoldable pub in_file : Bytes → DiffFile → ParsedDiff → ParsedDiff
unfolding is_old_file is_new_file_line is_hunk_header flush_hunk add_line
in_file line f p =
    if is_old_file line
    then record p { current_file = some (record f { old_file = line }) }
    else if is_new_file_line line
    then record p { current_file = some (record f { new_file = line }) }
    else if is_hunk_header line
    then record (flush_hunk (record p { current_file = some f })) {
      current_hunk = some (new_hunk line);
    }
    else elim p.current_hunk [
      | none ↦ record p { current_file = some f }
      | some h ↦ record p { current_file = some f; current_hunk = some (add_line line h) }
    ]

unfoldable pub parse_line : Bytes → ParsedDiff → ParsedDiff
unfolding is_diff_header flush_file mark_file in_file
parse_line line p =
    if is_diff_header line
    then record (flush_file p) { current_file = some (new_diff_file line) }
    else elim p.current_file [
      | none ↦ record p { pre_diff_lines = p.pre_diff_lines ++ (line ∷ []) }
      | some f ↦ in_file line (mark_file line f) p
    ]

unfoldable pub parse_lines : List Bytes → ParsedDiff → ParsedDiff
unfolding parse_line
parse_lines [] p = p
parse_lines (line ∷ lines) p = parse_lines lines (parse_line line p)

unfoldable pub parse_diff : List Bytes → ParsedDiff
unfolding parse_lines flush_file
parse_diff lines = flush_file (
    parse_lines lines
      (record { pre_diff_lines = []; files = []; current_file = none; current_hunk = none }))
