-- ===== src/Compress/Log/Select.antt =====
-- internal/compress/log_compressor.go: scores, and which lines are kept. A set of indices is a list.
pub mod Numbers
pub mod Bounds
pub mod Kept
use headroom_go.Common.{
  ℕ, zero, suc, ◌+◌, ◌-◌, Bool, true, false, not, ◌&&◌, ◌||◌, List, [], ◌∷◌, Option, none, some,
  Bytes, ltb, leb, ◌==◌, if◌then◌else◌, length, take, get_elem?, keep, is_in,
}
use headroom_go.Common.Sort.{sort_stable}
use headroom_go.Pipeline.{Float}
use headroom_go.Compress.Log.{
  LogLevel, level_unknown, level_error, level_fail, level_warn, level_info, level_debug,
  level_trace, max_errors, error_context_lines, max_stack_traces, stack_trace_max_lines,
  max_warnings, classify_level,
}
use headroom_go.Compress.Log.Lines.{is_stack_trace_line, is_summary_line}
use headroom_go.Compress.Log.Dedupe.{normalize_for_dedupe}

pub record LogLine (F : Type 0) : Type 0 where
  pub content : Bytes
  pub level : LogLevel
  pub is_stack_trace : Bool
  pub is_summary : Bool
  pub score : F

abbrev pub has_index : ℕ → List ℕ → Bool
has_index i [] = false
has_index i (j ∷ js) = i == j || has_index i js

-- chosen[i] = struct{}{}.
unfoldable pub with_index : ℕ → List ℕ → List ℕ
with_index i chosen = if has_index i chosen then chosen else i ∷ chosen

abbrev pub is_error : LogLevel → Bool
is_error level_error = true
is_error _ = false

abbrev pub is_fail : LogLevel → Bool
is_fail level_fail = true
is_fail _ = false

abbrev pub is_warn : LogLevel → Bool
is_warn level_warn = true
is_warn _ = false

-- The closure `add`, for a log of n lines.
unfoldable pub add_index : ℕ → ℕ → List ℕ → List ℕ
unfolding with_index
add_index n i kept = if ltb i n then with_index i kept else kept

-- add(i - d), where i - d may be negative.
add_before : ℕ → ℕ → ℕ → List ℕ → List ℕ
unfolding add_index
add_before n i d kept = if leb d i then add_index n (i - d) kept else kept

-- The distances from d down to 1.
add_around : ℕ → ℕ → ℕ → List ℕ → List ℕ
unfolding add_index add_before
add_around n i zero kept = kept
add_around n i (suc d) kept =
    add_index n (i + suc d) (add_before n i (suc d) (add_around n i d kept))

unfoldable pub add_with_context : ℕ → ℕ → List ℕ → List ℕ
unfolding add_around add_index
add_with_context n i kept = add_around n i error_context_lines (add_index n i kept)

unfoldable pub add_all : (ℕ → List ℕ → List ℕ) → List ℕ → List ℕ → List ℕ
add_all add [] kept = kept
add_all add (i ∷ is) kept = add_all add is (add i kept)

last_index : ℕ → List ℕ → ℕ
last_index i [] = i
last_index i (j ∷ js) = last_index j js

-- The best of the rest, until there are `max_n`.
fill_up : ℕ → List ℕ → List ℕ → List ℕ
unfolding with_index
fill_up max_n [] chosen = chosen
fill_up max_n (i ∷ is) chosen =
    let rest = fill_up max_n is (with_index i chosen) in
    if leb max_n (length chosen) then chosen else rest

module _ (fl : Float) (add : fl.F → fl.F → fl.F) (lit : ℕ → ℕ → fl.F) where
  level_score : LogLevel → fl.F
  level_score level_error = fl.one
  level_score level_fail = fl.one
  level_score level_warn = lit 5 1
  level_score level_info = lit 1 1
  level_score level_unknown = lit 1 1
  level_score level_debug = lit 5 2
  level_score level_trace = lit 2 2

  unfoldable pub score_log_line : LogLevel → Bool → Bool → fl.F
  unfolding level_score
  score_log_line level is_stack_trace is_summary =
      let base = level_score level in
      let boosted = if is_stack_trace then add base (lit 3 1) else base in
      let score = if is_summary then add boosted (lit 4 1) else boosted in
      if fl.lt fl.one score then fl.one else score

  unfoldable pub parse_line : Bytes → LogLine fl.F
  parse_line line = record {
    content = line;
    level = classify_level line;
    is_stack_trace = is_stack_trace_line line;
    is_summary = is_summary_line line;
    score = score_log_line (classify_level line) (is_stack_trace_line line) (is_summary_line line);
  }

module _ (fl : Float) where
  abbrev higher : List (LogLine fl.F) → ℕ → ℕ → Bool
  higher parsed a b = elim (get_elem? parsed a) [
    | none ↦ false
    | some x ↦ elim (get_elem? parsed b) [ none ↦ false | some y ↦ fl.lt y.score x.score ]
  ]

  -- pickCategory, with the first and the last index kept.
  unfoldable pub pick_category : List (LogLine fl.F) → List ℕ → ℕ → List ℕ
  unfolding last_index with_index fill_up
  pick_category parsed [] max_n = []
  pick_category parsed (i ∷ is) max_n =
      if max_n == 0
      then []
      else fill_up max_n (sort_stable (higher parsed) (i ∷ is))
          (with_index (last_index i is) (i ∷ []))

  -- The indices, from `from`, of the lines of a kind.
  unfoldable pub lines_where : (LogLine fl.F → Bool) → ℕ → List (LogLine fl.F) → List ℕ
  lines_where p from [] = []
  lines_where p from (l ∷ ls) =
      let rest = lines_where p (from + 1) ls in if p l then from ∷ rest else rest

  -- The warnings: at most as many as there are left, and none with a key that was seen.
  unfoldable pub pick_warnings : ℕ → ℕ → List Bytes → List (LogLine fl.F) → List ℕ
  pick_warnings left from seen [] = []
  pick_warnings left from seen (l ∷ ls) =
      elim (not (is_warn l.level) || left == 0 || is_in (normalize_for_dedupe l.content) seen) [
        | true ↦ pick_warnings left (from + 1) seen ls
        | false ↦
            from ∷ pick_warnings (left - 1) (from + 1) (normalize_for_dedupe l.content ∷ seen) ls
      ]

  -- The lines of stack traces: `blocks` that may still start, `room` left in the block of the line
  -- before, which is none behind another line.
  unfoldable pub pick_traces : ℕ → Option ℕ → ℕ → List (LogLine fl.F) → List ℕ
  pick_traces blocks room from [] = []
  pick_traces blocks room from (l ∷ ls) = elim l.is_stack_trace [
    | false ↦ pick_traces blocks none (from + 1) ls
    | true ↦ elim room [
      | some zero ↦ pick_traces blocks (some 0) (from + 1) ls
      | some (suc r) ↦ from ∷ pick_traces blocks (some r) (from + 1) ls
      | none ↦ elim blocks [
        | zero ↦ []
        | suc b ↦ from ∷ pick_traces b (some (stack_trace_max_lines - 1)) (from + 1) ls
      ]
    ]
  ]

  -- The calls of selectCategory.
  unfoldable pub around_indices : List (LogLine fl.F) → List ℕ
  unfolding add_all add_with_context pick_category lines_where
  around_indices parsed =
      let errors = pick_category parsed (lines_where (λ l. is_error l.level) 0 parsed) max_errors in
      let fails = pick_category parsed (lines_where (λ l. is_fail l.level) 0 parsed) max_errors in
      add_all (add_with_context (length parsed)) fails
        (add_all (add_with_context (length parsed)) errors [])

  -- The set `keep`.
  unfoldable pub kept_indices : List (LogLine fl.F) → List ℕ
  unfolding add_all add_index around_indices lines_where pick_traces pick_warnings
  kept_indices parsed =
      let n = length parsed in
      add_all (add_index n) (lines_where (λ l. l.is_summary) 0 parsed) (
        add_all (add_index n) (pick_traces max_stack_traces none 0 parsed)
          (add_all (add_index n) (pick_warnings max_warnings 0 [] parsed) (around_indices parsed)))

  -- The order of the final cap: by descending score and then by ascending index; two scores differ
  -- where one is higher.
  outranks : List (LogLine fl.F) → ℕ → ℕ → Bool
  outranks parsed a b = higher parsed a b || (not (higher parsed b a) && ltb a b)

  unfoldable pub cap_indices : List (LogLine fl.F) → ℕ → List ℕ → List ℕ
  unfolding outranks
  cap_indices parsed cap selected =
      if ltb 0 cap && ltb cap (length selected)
      then take cap (sort_stable (outranks parsed) selected)
      else selected

  -- The map is read in the order of the list; the order that Go chooses is lost in the two sorts, by
  -- outranks and by the indices themselves, which leave no ties.
  unfoldable pub select_indices : List (LogLine fl.F) → ℕ → List ℕ
  unfolding kept_indices cap_indices
  select_indices parsed cap = sort_stable ltb (cap_indices parsed cap (kept_indices parsed))
