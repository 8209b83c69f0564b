-- ===== src/Compress/Diff/Select.antt =====
-- scoreHunks, selectHunks and the file cap of internal/compress/diff_compressor.go.
use headroom_go.Common.{
  ℕ, zero, suc, ◌+◌, ◌-◌, ◌*◌, ◌^◌, Bool, true, false, not, ◌&&◌, ◌||◌, List, [], ◌∷◌, ◌++◌, Option,
  none, some, Bytes, codes, ltb, leb, ◌==◌, if◌then◌else◌, length, take, contains,
}
use headroom_go.Common.Lines.{join}
use headroom_go.Common.Sort.{sort_stable}
use headroom_go.Compress.Diff.{
  Float64, DiffHunk, DiffFile, take_digits, max_hunks_per_file, max_files,
}

-- The words of the three priority patterns.
abbrev priority_words : List Bytes
priority_words =
    codes "error"
    ∷ codes "exception"
    ∷ codes "fail"
    ∷ codes "failed"
    ∷ codes "failure"
    ∷ codes "fatal"
    ∷ codes "critical"
    ∷ codes "crash"
    ∷ codes "panic"
    ∷ codes "important"
    ∷ codes "note"
    ∷ codes "todo"
    ∷ codes "fixme"
    ∷ codes "hack"
    ∷ codes "xxx"
    ∷ codes "bug"
    ∷ codes "fix"
    ∷ codes "security"
    ∷ codes "auth"
    ∷ codes "password"
    ∷ codes "secret"
    ∷ codes "token"
    ∷ []

is_word_byte : ℕ → Bool
is_word_byte c =
    (leb b'a' c && leb c b'z')
    || (leb b'A' c && leb c b'Z')
    || (leb b'0' c && leb c b'9')
    || c == b'_'

at_boundary : Bytes → Bool
unfolding is_word_byte
at_boundary [] = true
at_boundary (c ∷ s) = not (is_word_byte c)

-- A letter of a pattern under (?i) on text in lower case: an s also stands for U+017F.
skip_letter : ℕ → Bytes → Option Bytes
skip_letter w [] = none
skip_letter w (c ∷ []) = if c == w then some [] else none
skip_letter w (c ∷ d ∷ s) =
    if c == w then some (d ∷ s) else if w == b's' && (c == 0xC5 && d == 0xBF) then some s else none

skip_word : Bytes → Bytes → Option Bytes
unfolding skip_letter
skip_word [] s = some s
skip_word (w ∷ ws) s = elim (skip_letter w s) [ none ↦ none | some rest ↦ skip_word ws rest ]

-- One of the words at the start, and a boundary behind it; each ends in a word's byte.
word_here : List Bytes → Bytes → Bool
unfolding at_boundary skip_word
word_here [] s = false
word_here (w ∷ ws) s =
    (elim (skip_word w s) [ none ↦ false | some rest ↦ at_boundary rest ]) || word_here ws s

-- The search; the first argument says whether a word's byte is just before. U+017F is not one, so
-- that a word which begins with it has its boundary behind a word's byte.
has_word_from : Bool → Bytes → Bool
unfolding word_here is_word_byte
has_word_from inside [] = false
has_word_from inside (c ∷ s) =
    let boundary = if is_word_byte c then not inside else inside in
    (boundary && word_here priority_words (c ∷ s)) || has_word_from (is_word_byte c) s

-- priorityRes on text in lower case.
unfoldable pub is_priority : Bytes → Bool
unfolding has_word_from
is_priority s = has_word_from false s

abbrev max_int : ℕ
max_int = 2 ^ 63 - 1

decimal_value : ℕ → ℕ → Bytes → ℕ
decimal_value zero n s = n
decimal_value (suc k) n [] = n
decimal_value (suc k) n (c ∷ s) = decimal_value k (n * 10 + (c - b'0')) s

-- `\+(\d+)` in a header, and strconv.Atoi, which fails out of range.
unfoldable pub extract_line_number : Bytes → ℕ
unfolding take_digits decimal_value
extract_line_number [] = 0
extract_line_number (c ∷ s) =
    let rest = extract_line_number s in
    let digits = (take_digits s).0 in
    let n = decimal_value digits 0 s in
    if c == b'+' && not (digits == 0) then if ltb max_int n then 0 else n else rest

unfoldable pub total_additions : List DiffHunk → ℕ
total_additions [] = 0
total_additions (h ∷ hs) = h.additions + total_additions hs

unfoldable pub total_deletions : List DiffHunk → ℕ
total_deletions [] = 0
total_deletions (h ∷ hs) = h.deletions + total_deletions hs

-- The file cap, by the number of changes.
unfoldable pub cap_files : List DiffFile → List DiffFile
unfolding total_additions total_deletions
cap_files files =
    let changes = λ (f : DiffFile). total_additions f.hunks + total_deletions f.hunks in
    if ltb max_files (length files)
    then take max_files (sort_stable (λ a b. ltb (changes b) (changes a)) files)
    else files

-- The tables of package strings are parameters.
pub record Strings : Type 0 where
  pub to_lower : Bytes → Bytes
  pub fields : Bytes → List Bytes

module _ (fl : Float64) where
  -- The loop over the context's words.
  add_words : Bytes → List Bytes → fl.F → fl.F
  add_words content [] score = score
  add_words content (w ∷ ws) score =
      add_words content ws
        (if ltb 2 (length w) && contains content w then fl.add score (fl.lit 2 1) else score)

  cap_at : fl.F → fl.F → fl.F
  cap_at limit score = if fl.lt limit score then limit else score

  unfoldable pub score_hunk : Strings → Bytes → DiffHunk → fl.F
  unfolding add_words cap_at is_priority
  score_hunk strings context h =
      let changes =
        cap_at (fl.lit 3 1) (fl.mul (fl.of_int (h.additions + h.deletions)) (fl.lit 3 2)) in
      let content = strings.to_lower (join (10 ∷ []) h.lines) in
      let scored = add_words content (strings.fields (strings.to_lower context)) changes in
      cap_at (fl.of_int 1) (if is_priority content then fl.add scored (fl.lit 3 1) else scored)

  last_of : DiffHunk → List DiffHunk → List DiffHunk
  last_of h [] = []
  last_of h (x ∷ []) = x ∷ []
  last_of h (x ∷ y ∷ ys) = last_of x (y ∷ ys)

  all_but_last : List DiffHunk → List DiffHunk
  all_but_last [] = []
  all_but_last (x ∷ []) = []
  all_but_last (x ∷ y ∷ ys) = x ∷ all_but_last (y ∷ ys)

  -- First, last, and the best of the hunks between them.
  pick_hunks : (DiffHunk → fl.F) → List DiffHunk → List DiffHunk
  unfolding last_of all_but_last
  pick_hunks score [] = []
  pick_hunks score (first ∷ rest) =
      let middle = sort_stable (λ a b. fl.lt (score b) (score a)) (all_but_last rest) in
      first ∷ (take (max_hunks_per_file - 2) middle ++ last_of first rest)

  unfoldable pub select_hunks : (DiffHunk → fl.F) → List DiffHunk → List DiffHunk
  unfolding pick_hunks extract_line_number
  select_hunks score hunks =
      if leb (length hunks) max_hunks_per_file
      then hunks
      else sort_stable (λ a b. ltb (extract_line_number a.header) (extract_line_number b.header))
          (pick_hunks score hunks)
