-- ===== src/Tests/Diff.antt =====
-- A diff of one file with one hunk, with hundredths for float64.
use headroom_go.Common.{
  true, contains, ℕ, zero, suc, ◌*◌, ◌/◌, ◌^◌, ◌-◌, ◌+◌, ◌≤◌, ◌≡◌, refl, ltb, false, [], ◌∷◌, ◌++◌,
  List, Bytes, codes, length, arith, keep, All, text_eq, strip_prefix, subst, sym,
}
use headroom_go.Common.Lines.{split_lines, join}
use headroom_go.Ccr.Marker.{decimal}
use headroom_go.Ccr.Store.Outcome.{Outcome}
use headroom_go.Compress.Diff.{Float64, DiffHunk, parse_diff, max_files}
use headroom_go.Compress.Diff.Reduce.{is_change, reduce_context, reduce_context-changes}
use headroom_go.Compress.Diff.Select.{Strings, select_hunks, cap_files}
use headroom_go.Compress.Diff.Format.{compressed_lines, compress_diff}
use headroom_go.Compress.Diff.Changes.{
  diff_body, is_fewer, Shown, Stored, compressed_lines-Shown, compress_diff-Stored,
}
use headroom_go.Tests.Fixtures.{prefix_sums}

abbrev pub hundredths : Float64
hundredths = record {
  F = ℕ;
  of_int = λ n. n * 100;
  lit = λ m n. m * 10 ^ (2 - n);
  add = λ a b. a + b;
  mul = λ a b. a * b / 100;
  lt = ltb;
}

abbrev pub plain_strings : Strings
plain_strings = record { to_lower = λ s. s; fields = λ s. s ∷ [] }

abbrev small_diff : List Bytes
small_diff =
    codes "diff --git a/x.go b/x.go"
    ∷ codes "index 1..2 100644"
    ∷ codes "--- a/x.go"
    ∷ codes "+++ b/x.go"
    ∷ codes "@@ -1,7 +1,7 @@ func f"
    ∷ codes " one"
    ∷ codes " two"
    ∷ codes " three"
    ∷ codes "-four"
    ∷ codes "+vier"
    ∷ codes " five"
    ∷ codes " six"
    ∷ codes " seven"
    ∷ []

abbrev one_hunk : DiffHunk
one_hunk = record {
  header = codes "@@ -1,7 +1,7 @@ func f";
  lines =
      codes " one"
      ∷ codes " two"
      ∷ codes " three"
      ∷ codes "-four"
      ∷ codes "+vier"
      ∷ codes " five"
      ∷ codes " six"
      ∷ codes " seven"
      ∷ [];
  additions = 1;
  deletions = 1;
  context_lines = 6;
}

parses :
    (parse_diff small_diff).files
    ≡ record {
      header = codes "diff --git a/x.go b/x.go";
      old_file = codes "--- a/x.go";
      new_file = codes "+++ b/x.go";
      hunks = one_hunk ∷ [];
      is_new_file = false;
      is_deleted_file = false;
      is_renamed = false;
      is_binary = false;
      rename_lines = [];
    }
      ∷ []
unfolding parse_diff strip_prefix text_eq
parses = refl

reduces :
    (reduce_context one_hunk).lines
    ≡ codes " two"
      ∷ codes " three"
      ∷ codes "-four"
      ∷ codes "+vier"
      ∷ codes " five"
      ∷ codes " six"
      ∷ []
unfolding reduce_context strip_prefix
reduces = refl

reduce_context-changes_example :
    let r = reduce_context one_hunk in
    (r.header ≡ one_hunk.header)
    × (keep is_change r.lines ≡ keep is_change one_hunk.lines)
    × (r.additions + r.deletions + r.context_lines ≡ length r.lines)
reduce_context-changes_example = reduce_context-changes one_hunk

one_file : length (parse_diff small_diff).files ≤ max_files
one_file = subst (λ fs. length fs ≤ max_files) (sym parses) (omega arith)

compressed_lines-Shown_example :
    All
      (Shown (compressed_lines prefix_sums hundredths plain_strings (parse_diff small_diff) []).0)
      (parse_diff small_diff).files
compressed_lines-Shown_example =
    compressed_lines-Shown prefix_sums hundredths plain_strings (parse_diff small_diff) [] one_file

abbrev blanks : ℕ → List Bytes
blanks zero = []
blanks (suc n) = codes " x" ∷ blanks n

-- The same hunk with forty lines more.
long_diff : Bytes
long_diff = join (10 ∷ []) (small_diff ++ blanks 40)

-- Of fifty-three lines less than eight tenths are left.
long_diff_fewer :
    is_fewer prefix_sums hundredths plain_strings
      (diff_body prefix_sums hundredths plain_strings long_diff [])
      long_diff
    ≡ true
unfolding long_diff compressed_lines parse_diff reduce_context strip_prefix text_eq contains join
    split_lines select_hunks cap_files decimal
long_diff_fewer = refl

compress_diff-Stored_example :
    Outcome
      (Stored prefix_sums hundredths plain_strings long_diff [] [])
      []
      (compress_diff prefix_sums hundredths plain_strings long_diff [])
compress_diff-Stored_example =
    compress_diff-Stored prefix_sums hundredths plain_strings long_diff [] []
