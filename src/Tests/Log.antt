-- ===== src/Tests/Log.antt =====
-- Lines of logs, and a log of three lines.
use headroom_go.Common.{
  ◌++◌, Bytes, zero, suc, ℕ, ◌+◌, ◌*◌, ◌/◌, ◌^◌, ◌≤◌, ◌≡◌, ◌⊎◌, inl, inr, refl, true, false, List,
  [], ◌∷◌, map, codes, length, text_eq, strip_prefix, contains,
}
use headroom_go.Common.Space.{fields, trim_left, trim_space}
use headroom_go.Common.Lines.{split_lines_rust, split_lines, join}
use headroom_go.Common.Sort.{sort_stable}
use headroom_go.Ccr.Marker.{decimal}
use headroom_go.Ccr.Key.{compute_key_md5}
use headroom_go.Ccr.Store.{put, done}
use headroom_go.Ccr.Store.Outcome.{Outcome}
use headroom_go.Compress.Log.{
  level_error, level_unknown, format_make, classify_level, detect_format,
}
use headroom_go.Compress.Log.Lines.{is_stack_trace_line, is_summary_line}
use headroom_go.Compress.Log.Dedupe.{normalize_for_dedupe}
use headroom_go.Compress.Log.Select.{LogLine, has_index, parse_line, select_indices}
use headroom_go.Compress.Log.Select.Kept.{select_indices-Ascending, select_indices-Important}
use headroom_go.Compress.Log.Select.Numbers.{Ascending}
use headroom_go.Compress.Log.Format.{log_marker, compress_log, format_output}
use headroom_go.Compress.Log.Format.Stored.{LogStored, compress_log-Stored}
use headroom_go.Tests.Fixtures.{prefix_sums, percent}

abbrev plus : ℕ → ℕ → ℕ
plus a b = a + b

abbrev literal : ℕ → ℕ → ℕ
literal m n = m * 100 / 10 ^ n

errors : classify_level (codes "x.go: error: no") ≡ level_error
unfolding classify_level strip_prefix
errors = refl

no_error : classify_level (codes "an_error terrors") ≡ level_unknown
unfolding classify_level strip_prefix
no_error = refl

java_frame : is_stack_trace_line (codes "   at a.b$c(X.java:3)") ≡ true
unfolding is_stack_trace_line trim_space trim_left fields text_eq contains strip_prefix
java_frame = refl

rust_frame : is_stack_trace_line (codes " --> src/a.rs:10:5") ≡ true
unfolding is_stack_trace_line trim_space trim_left fields text_eq contains strip_prefix
rust_frame = refl

no_frame : is_stack_trace_line (codes "at home (again)") ≡ false
unfolding is_stack_trace_line trim_space trim_left fields text_eq contains strip_prefix
no_frame = refl

counts : is_summary_line (codes "12 passed") ≡ true
unfolding is_summary_line trim_space trim_left fields text_eq contains strip_prefix
counts = refl

tests : is_summary_line (codes "Tests: 4") ≡ true
unfolding is_summary_line trim_space trim_left fields text_eq contains strip_prefix
tests = refl

made : detect_format (codes "make: x" ∷ codes "gcc a.c" ∷ codes "PASS " ∷ []) ≡ format_make
unfolding detect_format contains strip_prefix
made = refl

-- The digits of an address are replaced before addresses are looked for.
normal :
    normalize_for_dedupe (codes "w12: at 0x1f in /usr/lib/x 345")
    ≡ codes "w12: at NxNf in /PATH/x N"
unfolding normalize_for_dedupe strip_prefix
normal = refl

abbrev three_lines : List (LogLine ℕ)
three_lines =
    map (parse_line percent plus literal) (codes "ok" ∷ codes "error: bad" ∷ codes "3 failed" ∷ [])

one_of_three :
    format_output percent three_lines (1 ∷ [])
    ≡ codes "error: bad\n[2 lines omitted: 1 FAIL, 1 INFO]"
unfolding format_output parse_line classify_level text_eq join decimal strip_prefix
one_of_three = refl

select_indices-Ascending_example :
    Ascending 0 (length three_lines) (select_indices percent three_lines 2)
    × ((◌≡◌ {A = ℕ} 2 0) ⊎ (length (select_indices percent three_lines 2) ≤ 2))
select_indices-Ascending_example = select_indices-Ascending percent three_lines 2

select_indices-Important_example : has_index 1 (select_indices percent three_lines 5) ≡ true
unfolding select_indices parse_line classify_level is_stack_trace_line is_summary_line trim_space
    trim_left fields text_eq contains strip_prefix sort_stable
select_indices-Important_example =
    select_indices-Important percent three_lines 5 1 refl (inr (inl ([], refl)))

abbrev long_log : ℕ → Bytes
long_log zero = []
long_log (suc n) = b'x' ∷ (10 ∷ long_log n)

-- Fifty lines of which none is kept.
long_log_put :
    compress_log percent prefix_sums plus literal (λ ls. 5) (long_log 50)
    ≡ put (compute_key_md5 prefix_sums (long_log 50)) (long_log 50) (
        done (record {
          compressed =
              codes "[50 lines omitted: 50 INFO]"
              ++ log_marker 50 0 (compute_key_md5 prefix_sums (long_log 50));
          original_line_count = 50;
          compressed_line_count = 0;
          ratio = 0;
          cache_key = compute_key_md5 prefix_sums (long_log 50);
        }))
unfolding compress_log select_indices parse_line classify_level is_stack_trace_line is_summary_line
    trim_space trim_left fields text_eq contains strip_prefix sort_stable format_output join
    split_lines split_lines_rust decimal
long_log_put = refl

compress_log-Stored_example :
    Outcome
      (LogStored percent prefix_sums plus literal (λ ls. 5) (long_log 50) [])
      []
      (compress_log percent prefix_sums plus literal (λ ls. 5) (long_log 50))
compress_log-Stored_example =
    compress_log-Stored percent prefix_sums plus literal (λ ls. 5) (long_log 50) []
