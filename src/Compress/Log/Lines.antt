-- ===== src/Compress/Log/Lines.antt =====
-- internal/compress/log_compressor.go: frames of stack traces and lines of summaries. The regular
-- expressions are matchers.
use headroom_go.Common.{
  Bool, true, false, not, ◌&&◌, ◌||◌, List, [], ◌∷◌, Option, none, some, Bytes, codes, ◌==◌,
  if◌then◌else◌, text_eq, strip_prefix, has_prefix, contains,
}
use headroom_go.Common.Space.{trim_space}
use headroom_go.Compress.Log.{is_digit, is_hex_digit, word_byte}

-- What follows the digits at the start of a text, of which there is at least one.
after_digits : Bytes → Option Bytes
unfolding is_digit
after_digits [] = none
after_digits (c ∷ s) =
    let rest = after_digits s in
    if is_digit c then (elim rest [ none ↦ some s | some t ↦ some t ]) else none

digit_first : Bytes → Bool
unfolding is_digit
digit_first [] = false
digit_first (c ∷ s) = is_digit c

-- :\d+:\d+ at the start.
location_here : Bytes → Bool
unfolding after_digits digit_first
location_here s = elim (strip_prefix (codes ":") s) [
  | none ↦ false
  | some t ↦ elim (after_digits t) [
    | none ↦ false
    | some u ↦ elim (strip_prefix (codes ":") u) [ none ↦ false | some v ↦ digit_first v ]
  ]
]

-- rustLocRe and jsFrameSuffixRe.
has_location : Bytes → Bool
unfolding location_here
has_location [] = false
has_location (c ∷ s) = location_here (c ∷ s) || has_location s

-- goFrameRe.
is_go_frame : Bytes → Bool
unfolding after_digits is_hex_digit
is_go_frame s = elim (after_digits s) [
  | none ↦ false
  | some t ↦ elim (strip_prefix (codes ":0x") t) [
    | none ↦ false
    | some [] ↦ false
    | some (c ∷ u) ↦ is_hex_digit c
  ]
]

-- The text before the first "(".
before_paren : Bytes → Bytes
before_paren [] = []
before_paren (c ∷ s) = let rest = before_paren s in if c == b'(' then [] else c ∷ rest

package_chars : Bytes → Bool
unfolding word_byte
package_chars [] = true
package_chars (c ∷ s) = (word_byte c || c == b'.' || c == b'$') && package_chars s

unfoldable pub java_package_ok : Bytes → Bool
unfolding package_chars
java_package_ok s = not (text_eq s []) && package_chars s

-- A frame of JavaScript or Java.
at_frame : Bytes → Bool
unfolding has_location before_paren java_package_ok
at_frame trimmed = elim (strip_prefix (codes "at ") trimmed) [
  | none ↦ false
  | some body ↦
      (contains trimmed (codes "(") && contains trimmed (codes ")") && has_location trimmed)
      || (contains trimmed (codes "(")
          && contains body (codes "(")
          && java_package_ok (before_paren body))
]

unfoldable pub is_stack_trace_line : Bytes → Bool
unfolding at_frame has_location is_go_frame trim_space
is_stack_trace_line line =
    let trimmed = trim_space line in
    contains trimmed (codes "Traceback (most recent call last)")
    || (contains line (codes "File \"") && contains line (codes "\", line "))
    || at_frame trimmed
    || (has_prefix trimmed (codes "--> ") && has_location trimmed)
    || is_go_frame trimmed

any_prefix : Bytes → List Bytes → Bool
any_prefix s [] = false
any_prefix s (p ∷ ps) = has_prefix s p || any_prefix s ps

-- summaryCountRe.
counts_results : Bytes → Bool
unfolding after_digits any_prefix
counts_results s = elim (after_digits s) [
  | none ↦ false
  | some t ↦ any_prefix t (
      codes " passed" ∷ codes " failed" ∷ codes " skipped" ∷ codes " error" ∷ codes " warning" ∷ [])
]

-- \s*\d
spaces_digit : Bytes → Bool
unfolding is_digit
spaces_digit [] = false
spaces_digit (c ∷ s) =
    is_digit c || ((c == 9 || c == 10 || c == 12 || c == 13 || c == 32) && spaces_digit s)

test_number : List Bytes → Bytes → Bool
unfolding spaces_digit
test_number [] s = false
test_number (w ∷ ws) s =
    (elim (strip_prefix w s) [
      | none ↦ false
      | some t ↦ spaces_digit (elim (strip_prefix (codes ":") t) [ none ↦ t | some u ↦ u ])
    ])
    || test_number ws s

unfoldable pub is_summary_line : Bytes → Bool
unfolding any_prefix counts_results test_number trim_space
is_summary_line line =
    let trimmed = trim_space line in
    not (text_eq trimmed [])
    && (any_prefix trimmed (codes "===" ∷ codes "---" ∷ [])
        || counts_results trimmed
        || test_number (codes "Test" ∷ codes "Tests" ∷ codes "Suite" ∷ codes "Suites" ∷ []) trimmed
        || any_prefix trimmed (codes "TOTAL" ∷ codes "Total" ∷ codes "Summary" ∷ [])
        || (any_prefix trimmed (codes "Build" ∷ codes "Compile" ∷ codes "Test" ∷ [])
            && (contains trimmed (codes "succeeded")
                || contains trimmed (codes "failed")
                || contains trimmed (codes "complete"))))
