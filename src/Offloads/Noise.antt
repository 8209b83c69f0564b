-- ===== src/Offloads/Noise.antt =====
-- internal/offloads/diff_noise.go: hunks of lockfiles and hunks that change whitespace only.
pub mod Parsing
pub mod Parts
use headroom_go.Common.Lines.{split_lines_rust}
use headroom_go.Common.{
  has_prefix, ℕ, zero, suc, ◌+◌, ◌-◌, Bool, true, false, not, ◌&&◌, ◌||◌, List, [], ◌∷◌, ◌++◌,
  Option, none, some, Bytes, codes, ltb, leb, ◌==◌, if◌then◌else◌, text_eq, strip_prefix, length,
  drop, keep,
}
use headroom_go.Ccr.Key.{HashSums, compute_key_md5}
use headroom_go.Ccr.Marker.{decimal}
use headroom_go.Ccr.Store.{Prog, done, ◌>>◌, store_put}
use headroom_go.Transform.{
  CompressionContext, Result, ok, err, skipped, OffloadOutput, OffloadTransform, git_diff,
}
use headroom_go.Pipeline.{Float}
use headroom_go.Offloads.{skip_when, store_original, clamp01}

abbrev pub min_lines : ℕ
min_lines = 30

unfoldable pub lockfile_suffixes : List Bytes
lockfile_suffixes =
    codes "Cargo.lock"
    ∷ codes "package-lock.json"
    ∷ codes "yarn.lock"
    ∷ codes "pnpm-lock.yaml"
    ∷ codes "poetry.lock"
    ∷ codes "Pipfile.lock"
    ∷ codes "Gemfile.lock"
    ∷ codes "go.sum"
    ∷ codes "composer.lock"
    ∷ []

pub record DiffSegment : Type 0 where
  pub new_path : Bytes
  pub header_lines : List Bytes
  pub body_lines : List Bytes

-- What follows the last " b/".
after_last : Bytes → Option Bytes
after_last [] = none
after_last (c ∷ s) = elim (after_last s) [
  | none ↦ strip_prefix (codes " b/") (c ∷ s)
  | some path ↦ some path
]

unfoldable pub parse_new_path : Bytes → Bytes
unfolding after_last
parse_new_path header = elim (after_last header) [ none ↦ [] | some path ↦ path ]

-- The variables of the parser.
pub record Segments : Type 0 where
  pub segments : List DiffSegment
  pub cur : Option DiffSegment
  pub in_body : Bool

unfoldable pub flush_segment : Segments → List DiffSegment
flush_segment p = elim p.cur [ none ↦ p.segments | some s ↦ p.segments ++ (s ∷ []) ]

unfoldable pub add_to_segment : Bytes → Bool → DiffSegment → DiffSegment
add_to_segment line body s =
    if body
    then record s { body_lines = s.body_lines ++ (line ∷ []) }
    else record s { header_lines = s.header_lines ++ (line ∷ []) }

unfoldable pub segment_line : Bytes → Segments → Segments
unfolding flush_segment add_to_segment parse_new_path
segment_line line p =
    let new : DiffSegment = record {
      new_path = parse_new_path line;
      header_lines = line ∷ [];
      body_lines = [];
    } in
    let body = p.in_body || has_prefix line (codes "@@") in
    if has_prefix line (codes "diff --git")
    then record { segments = flush_segment p; cur = some new; in_body = false }
    else elim p.cur [
      | none ↦ p
      | some s ↦ record p { cur = some (add_to_segment line body s); in_body = body }
    ]

unfoldable pub segment_lines : List Bytes → Segments → Segments
unfolding segment_line
segment_lines [] p = p
segment_lines (line ∷ lines) p = segment_lines lines (segment_line line p)

abbrev pub no_segments : Segments
no_segments = record { segments = []; cur = none; in_body = false }

unfoldable pub parse_segments : Bytes → List DiffSegment
unfolding segment_lines flush_segment split_lines_rust
parse_segments content = flush_segment (segment_lines (split_lines_rust content) no_segments)

-- Lines with '\n' behind each.
unfoldable pub write_lines : List Bytes → Bytes
write_lines [] = []
write_lines (l ∷ ls) = l ++ (10 ∷ write_lines ls)

unfoldable pub prelude_of : List Bytes → List Bytes
prelude_of [] = []
prelude_of (line ∷ lines) =
    let rest = prelude_of lines in if has_prefix line (codes "diff --git") then [] else line ∷ rest

unfoldable pub leading_pre_diff_lines : Bytes → Bytes
unfolding write_lines prelude_of split_lines_rust
leading_pre_diff_lines content = write_lines (prelude_of (split_lines_rust content))

-- The suffix at the end of a path: at its start, or behind a separator.
unfoldable pub ends_in_segment : Bytes → Bytes → Bool
unfolding text_eq
ends_in_segment suffix [] = false
ends_in_segment suffix (c ∷ s) =
    ((c == b'/' || c == b'\\') && text_eq s suffix) || ends_in_segment suffix s

matches_suffix : List Bytes → Bytes → Bool
unfolding ends_in_segment text_eq
matches_suffix [] path = false
matches_suffix (suffix ∷ suffixes) path =
    text_eq path suffix || ends_in_segment suffix path || matches_suffix suffixes path

unfoldable pub is_lockfile : Bytes → Bool
unfolding matches_suffix lockfile_suffixes text_eq
is_lockfile path = not (text_eq path []) && matches_suffix lockfile_suffixes path

is_space : ℕ → Bool
is_space c = c == 32 || c == 9 || c == 10 || c == 13 || c == 11 || c == 12

unfoldable pub strip_ws : Bytes → Bytes
unfolding is_space
strip_ws s = keep (λ c. not (is_space c)) s

-- The changes with a sign, stripped, and not the lines of a file's header.
unfoldable pub changes_with : Bytes → Bytes → List Bytes → List Bytes
unfolding strip_ws
changes_with sign header [] = []
changes_with sign header (line ∷ lines) =
    let rest = changes_with sign header lines in
    if has_prefix line sign && not (has_prefix line header)
    then strip_ws (drop 1 line) ∷ rest
    else rest

same_texts : List Bytes → List Bytes → Bool
same_texts [] [] = true
same_texts [] (b ∷ bs) = false
same_texts (a ∷ as') [] = false
same_texts (a ∷ as') (b ∷ bs) = text_eq a b && same_texts as' bs

no_lines : List Bytes → Bool
no_lines [] = true
no_lines (l ∷ ls) = false

unfoldable pub body_is_whitespace_only : List Bytes → Bool
unfolding changes_with same_texts no_lines
body_is_whitespace_only lines =
    let adds = changes_with (codes "+") (codes "+++") lines in
    let subs = changes_with (codes "-") (codes "---") lines in
    not (no_lines adds && no_lines subs) && same_texts adds subs

unfoldable pub is_droppable : DiffSegment → Bool
unfolding is_lockfile body_is_whitespace_only
is_droppable s = is_lockfile s.new_path || body_is_whitespace_only s.body_lines

unfoldable pub dropped_line : DiffSegment → Bytes
dropped_line s =
    codes "[diff_noise: "
    ++ ((if is_lockfile s.new_path then codes "lockfile" else codes "whitespace-only")
        ++ (codes " hunks dropped (" ++ (decimal (length s.body_lines) ++ codes " lines)]")))

unfoldable pub write_segment : DiffSegment → Bytes
unfolding write_lines is_droppable dropped_line
write_segment s =
    write_lines s.header_lines
    ++ (if is_droppable s then dropped_line s ++ (10 ∷ []) else write_lines s.body_lines)

unfoldable pub write_segments : List DiffSegment → Bytes
unfolding write_segment
write_segments [] = []
write_segments (s ∷ ss) = write_segment s ++ write_segments ss

unfoldable pub any_droppable : List DiffSegment → Bool
unfolding is_droppable
any_droppable [] = false
any_droppable (s ∷ ss) = is_droppable s || any_droppable ss

pub none_parsed : List DiffSegment → Bool
none_parsed [] = true
none_parsed (s ∷ ss) = false

-- The text of the output, without the marker.
unfoldable pub noise_output : Bytes → Bytes
unfolding leading_pre_diff_lines write_segments parse_segments
noise_output content = leading_pre_diff_lines content ++ write_segments (parse_segments content)

body_bytes : List Bytes → ℕ
body_bytes [] = 0
body_bytes (l ∷ ls) = length l + 1 + body_bytes ls

bloat_bytes : List DiffSegment → ℕ × ℕ
unfolding body_bytes is_droppable
bloat_bytes [] = (0, 0)
bloat_bytes (s ∷ ss) =
    let (total, droppable) = bloat_bytes ss in
    let n = body_bytes s.body_lines in
    (n + total, if is_droppable s then n + droppable else droppable)

module _ (sums : HashSums) (fl : Float) where
  unfoldable pub estimate_noise : Bytes → fl.F
  unfolding bloat_bytes split_lines_rust parse_segments clamp01 none_parsed
  estimate_noise content =
      let (total, droppable) = bloat_bytes (parse_segments content) in
      if ltb (length (split_lines_rust content)) min_lines
        || none_parsed (parse_segments content)
        || total == 0
      then fl.zero
      else clamp01 fl (fl.ratio droppable total)

  unfoldable pub apply_noise : Bytes → CompressionContext → Prog (Result OffloadOutput)
  unfolding noise_output any_droppable none_parsed
  apply_noise content ctx =
      let output = noise_output content in
      let key = compute_key_md5 sums content in
      skip_when
        (none_parsed (parse_segments content)
          || not (any_droppable (parse_segments content))
          || leb (length content) (length output))
        (store_original key content
          (output ++ (codes "\n[diff_noise CCR: hash=" ++ (key ++ codes "]"))))

  -- The confidence, 0.9, is a parameter.
  abbrev pub diff_noise : fl.F → OffloadTransform fl.F
  diff_noise confidence = record {
    name = codes "diff_noise";
    applies_to = git_diff ∷ [];
    estimate_bloat = estimate_noise;
    apply = apply_noise;
    confidence = confidence;
  }
