-- ===== src/Compress/Log.antt =====
-- internal/compress/log_compressor.go: what a line of a log is. The regular expressions are matchers.
pub mod Lines
pub mod Dedupe
pub mod Select
pub mod Format
use headroom_go.Common.{
  ℕ, zero, suc, ◌+◌, ◌-◌, Bool, true, false, not, ◌&&◌, ◌||◌, List, [], ◌∷◌, ◌++◌, Option, none,
  some, Bytes, codes, ltb, leb, ◌==◌, if◌then◌else◌, text_eq, strip_prefix, contains, length, take,
}

pub data LogLevel : Type 0 where
  level_unknown level_error level_fail level_warn level_info level_debug level_trace : LogLevel

pub data LogFormat : Type 0 where
  format_generic format_pytest format_npm format_cargo format_jest format_make : LogFormat

-- defaultLogConfig; what it enables is written out.
abbrev pub max_errors : ℕ
max_errors = 10

abbrev pub error_context_lines : ℕ
error_context_lines = 3

abbrev pub max_stack_traces : ℕ
max_stack_traces = 3

abbrev pub stack_trace_max_lines : ℕ
stack_trace_max_lines = 20

abbrev pub max_warnings : ℕ
max_warnings = 5

abbrev pub max_total_lines : ℕ
max_total_lines = 100

abbrev pub log_min_lines_for_ccr : ℕ
log_min_lines_for_ccr = 50

-- How many of the markers the lines hold.
markers_in : Bytes → List Bytes → ℕ
markers_in line [] = 0
markers_in line (m ∷ ms) = let n = markers_in line ms in if contains line m then n + 1 else n

count_markers : List Bytes → List Bytes → ℕ
unfolding markers_in
count_markers ms [] = 0
count_markers ms (line ∷ lines) = markers_in line ms + count_markers ms lines

abbrev formats : List (LogFormat × List Bytes)
formats =
    (
      format_pytest,
      codes "=== FAILURES"
          ∷ codes "=== ERRORS"
          ∷ codes "=== test session"
          ∷ codes "=== short test summary"
          ∷ codes "PASSED ["
          ∷ codes "FAILED ["
          ∷ codes "ERROR ["
          ∷ codes "SKIPPED ["
          ∷ codes "collected "
          ∷ [],
    )
    ∷ (format_npm, codes "npm ERR!" ∷ codes "npm WARN" ∷ codes "npm info" ∷ codes "npm http" ∷ [])
    ∷ (
      format_cargo,
      codes "Compiling "
          ∷ codes "Finished "
          ∷ codes "Running "
          ∷ codes "warning: "
          ∷ codes "error[E"
          ∷ [],
    )
    ∷ (format_jest, codes "PASS " ∷ codes "FAIL " ∷ codes "Test Suites:" ∷ [])
    ∷ (
      format_make,
      codes "make[" ∷ codes "make:" ∷ codes "gcc " ∷ codes "g++ " ∷ codes "clang " ∷ [],
    )
    ∷ []

-- The loop over the formats, from the best so far and its count.
best_format : List Bytes → List (LogFormat × List Bytes) → LogFormat → ℕ → LogFormat
unfolding count_markers
best_format sample [] best n = best
best_format sample ((f, ms) ∷ fs) best n =
    let count = count_markers ms sample in
    if ltb n count then best_format sample fs f count else best_format sample fs best n

-- The caller drops the result.
unfoldable pub detect_format : List Bytes → LogFormat
unfolding best_format
detect_format lines = best_format (take 100 lines) formats format_generic 0

unfoldable pub is_digit : ℕ → Bool
is_digit c = leb b'0' c && leb c b'9'

unfoldable pub is_hex_digit : ℕ → Bool
unfolding is_digit
is_hex_digit c = is_digit c || (leb b'a' c && leb c b'f') || (leb b'A' c && leb c b'F')

-- wordByte; setting the bit 0x20 of a byte gives a small letter for letters only.
unfoldable pub word_byte : ℕ → Bool
unfolding is_digit
word_byte c = (leb b'a' c && leb c b'z') || (leb b'A' c && leb c b'Z') || is_digit c || c == b'_'

word_ends : Bytes → Bool
unfolding word_byte
word_ends [] = true
word_ends (c ∷ s) = not (word_byte c)

-- The loop, where `left` says that a word may start here.
word_from : Bytes → Bool → Bytes → Bool
unfolding word_ends word_byte
word_from kw left [] = false
word_from kw left (c ∷ s) =
    (left && (elim (strip_prefix kw (c ∷ s)) [ none ↦ false | some rest ↦ word_ends rest ]))
    || word_from kw (not (word_byte c)) s

unfoldable pub contains_word : Bytes → Bytes → Bool
unfolding word_from
contains_word line kw = word_from kw true line

any_word : Bytes → List Bytes → Bool
unfolding contains_word
any_word line [] = false
any_word line (kw ∷ kws) = contains_word line kw || any_word line kws

abbrev error_level_keywords : List Bytes
error_level_keywords =
    codes "ERROR"
    ∷ codes "error"
    ∷ codes "Error"
    ∷ codes "FATAL"
    ∷ codes "fatal"
    ∷ codes "Fatal"
    ∷ codes "CRITICAL"
    ∷ codes "critical"
    ∷ []

abbrev fail_level_keywords : List Bytes
fail_level_keywords =
    codes "FAIL"
    ∷ codes "FAILED"
    ∷ codes "fail"
    ∷ codes "failed"
    ∷ codes "Fail"
    ∷ codes "Failed"
    ∷ []

abbrev warn_level_keywords : List Bytes
warn_level_keywords =
    codes "WARN"
    ∷ codes "WARNING"
    ∷ codes "warn"
    ∷ codes "warning"
    ∷ codes "Warn"
    ∷ codes "Warning"
    ∷ []

abbrev info_level_keywords : List Bytes
info_level_keywords = codes "INFO" ∷ codes "info" ∷ codes "Info" ∷ []

abbrev debug_level_keywords : List Bytes
debug_level_keywords = codes "DEBUG" ∷ codes "debug" ∷ codes "Debug" ∷ []

abbrev trace_level_keywords : List Bytes
trace_level_keywords = codes "TRACE" ∷ codes "trace" ∷ codes "Trace" ∷ []

unfoldable pub classify_level : Bytes → LogLevel
unfolding any_word
classify_level line =
    if any_word line error_level_keywords
    then level_error
    else if any_word line fail_level_keywords
    then level_fail
    else if any_word line warn_level_keywords
    then level_warn
    else if any_word line info_level_keywords
    then level_info
    else if any_word line debug_level_keywords
    then level_debug
    else if any_word line trace_level_keywords
    then level_trace
    else level_unknown
