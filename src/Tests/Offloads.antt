-- ===== src/Tests/Offloads.antt =====
-- The offloads with engines that are easy to follow: texts are crushed to one sentence.
use headroom_go.Common.{
  ◌⊎◌, if◌then◌else◌, ◌+◌, ◌-◌, ◌*◌, ◌/◌, ◌^◌, ◌≡◌, refl, true, false, [], ◌∷◌, ◌++◌, Bytes, codes,
  text_eq, strip_prefix, All,
}
use headroom_go.Common.Lines.{split_lines_rust, split_lines}
use headroom_go.Ccr.Marker.{decimal}
use headroom_go.Ccr.Store.Outcome.{Outcome}
use headroom_go.Transform.{plain_text}
use headroom_go.Pipeline.{build, run}
use headroom_go.Pipeline.Lossless.{Kept}
use headroom_go.Tests.Fixtures.{prefix_sums, percent}
use headroom_go.Tests.Pipeline.{words, squeeze, squeeze-Preserves, no_context, defaults}
use headroom_go.Tests.Diff.{hundredths, plain_strings}
use headroom_go.Offloads.Noise.{
  parse_segments, any_droppable, noise_output, prelude_of, write_lines,
}
use headroom_go.Offloads.Noise.Parts.{parse_segments-Parts}
use headroom_go.Offloads.Noise.Parsing.{IsSegment, lines_of}
use headroom_go.Offloads.Engines.{Arithmetic, Engines, CrushResult, TextResult, default_offloads}
use headroom_go.Offloads.Counts.{count_row_separators, in_hunk_counts, file_path_from_tool_input}
use headroom_go.Offloads.Keys.{default_offloads-Kept}

abbrev in_percent : Arithmetic percent
in_percent = record {
  lit = λ m n. m * 100 / 10 ^ n;
  add = λ a b. a + b;
  sub = λ a b. a - b;
  mul = λ a b. a * b / 100;
  div = λ a b. a * 100 / b;
}

abbrev nothing_crushed : CrushResult
nothing_crushed = record { compressed = []; was_modified = false }

abbrev one_sentence : TextResult
one_sentence = record { compressed = codes "one."; kept_segments = 1; total_segments = 8 }

abbrev small_engines : Engines
small_engines = record {
  crush = λ content query. nothing_crushed;
  crush_text = λ content query. one_sentence;
  count_segments = λ content. 8;
  optimal_k = λ lines. 5;
  is_low_priority = λ line. true;
}

default_offloads-Kept_example : Outcome (Kept percent words (codes "a b  c")) [] (
    run percent
      (build percent defaults (squeeze ∷ []) (
        default_offloads prefix_sums percent hundredths plain_strings in_percent small_engines
          (λ input key. [])))
      (codes "a b  c")
      plain_text
      no_context)
default_offloads-Kept_example =
    default_offloads-Kept prefix_sums percent hundredths plain_strings in_percent small_engines
      (λ input key. []) words defaults (squeeze ∷ []) (codes "a b  c") plain_text no_context []
      (squeeze-Preserves, tt)

rows : count_row_separators (codes "[{},{}, {},\n{}]") ≡ 3
unfolding count_row_separators strip_prefix
rows = refl

counted :
    in_hunk_counts false (
      codes "+++ b/x"
      ∷ codes "+out"
      ∷ codes "@@ -1 +1 @@"
      ∷ codes " a"
      ∷ codes "-b"
      ∷ codes "--- c"
      ∷ codes "+d"
      ∷ [])
    ≡ (1, 2)
unfolding in_hunk_counts strip_prefix
counted = refl

second_key :
    file_path_from_tool_input
      (λ input key. if text_eq key (codes "path") then input else [])
      (codes "a.go")
    ≡ codes "a.go"
unfolding file_path_from_tool_input text_eq
second_key = refl

abbrev lock_diff : Bytes
lock_diff =
    codes
      "note\ndiff --git a/go.sum b/go.sum\nindex 1..2\n@@ -1 +1 @@\n-a\n+b\ndiff --git a/x.go b/x.go\n@@ -1 +1 @@\n-a\n+b\n"

dropped :
    noise_output lock_diff
    ≡ codes
        "note\ndiff --git a/go.sum b/go.sum\nindex 1..2\n[diff_noise: lockfile hunks dropped (3 lines)]\ndiff --git a/x.go b/x.go\n@@ -1 +1 @@\n-a\n+b\n"
unfolding noise_output strip_prefix text_eq split_lines_rust split_lines decimal
dropped = refl

parse_segments-Parts_example :
    All IsSegment (parse_segments lock_diff)
    × (prelude_of (split_lines_rust lock_diff) ++ lines_of (parse_segments lock_diff)
        ≡ split_lines_rust lock_diff)
    × ((any_droppable (parse_segments lock_diff) ≡ true)
        ⊎ (noise_output lock_diff ≡ write_lines (split_lines_rust lock_diff)))
parse_segments-Parts_example = parse_segments-Parts lock_diff
