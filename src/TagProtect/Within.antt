-- ===== src/TagProtect/Within.antt =====
-- A tag that internal/tagprotect/tagprotect.go parses lies within the text.

use headroom_go.Common.{
  ℕ, ◌+◌, ◌≤◌, ◌<◌, ◌≡◌, inl, inr, Bool, [], ◌∷◌, Option, Option-cases, none, some, arith, Bytes,
  length,
}
use headroom_go.TagProtect.{
  ParsedTag, take_name, close_end, open_end, parse_close, parse_open, parse_tag_at, tag_here,
}

length-take_name : (s : Bytes) → length (take_name s).0 + length (take_name s).1 ≡ length s
unfolding take_name
length-take_name [] = omega arith
length-take_name (b ∷ s) = ground (arith, length-take_name s)

abbrev Within : ℕ → ℕ → ℕ → Type 0
Within j n e = (j < e) × (e ≤ j + n)

close_end-Within : (s : Bytes) (j e : ℕ) → close_end s j ≡ some e → Within j (length s) e
unfolding close_end
close_end-Within [] j e h = cc
close_end-Within (b ∷ s) j e h = ground (arith, close_end-Within s (j + 1) e)

open_end-Within :
    (q : Option ℕ) (s : Bytes) (j : ℕ) (r : ℕ × Bool)
    → open_end q s j ≡ some r
    → Within j (length s) r.0
unfolding open_end
open_end-Within q [] j r h = cc
open_end-Within (some q) (b ∷ s) j r h =
    ground (arith, open_end-Within none s (j + 1) r, open_end-Within (some q) s (j + 1) r)
open_end-Within none (b ∷ []) j r h =
    ground (arith, open_end-Within none [] (j + 1) r, open_end-Within (some b) [] (j + 1) r)
open_end-Within none (b ∷ c ∷ s) j r h =
    ground
      (arith, open_end-Within none (c ∷ s) (j + 1) r, open_end-Within (some b) (c ∷ s) (j + 1) r)

parse_close-Within :
    (s : Bytes) (j : ℕ) (t : ParsedTag) → parse_close s j ≡ some t → Within j (length s) t.tag_end
unfolding parse_close
parse_close-Within [] j t h = cc
parse_close-Within (b ∷ s) j t h =
    let r = take_name (b ∷ s) in
    let k = j + length r.0 in
    elim (Option-cases (close_end r.1 k)) [
      | inl ended ↦ ground (arith, ended)
      | inr (e, ended) ↦ ground (arith, length-take_name (b ∷ s), close_end-Within r.1 k e ended)
    ]

parse_open-Within :
    (s : Bytes) (j : ℕ) (t : ParsedTag) → parse_open s j ≡ some t → Within j (length s) t.tag_end
unfolding parse_open
parse_open-Within [] j t h = cc
parse_open-Within (b ∷ s) j t h =
    let r = take_name (b ∷ s) in
    let k = j + length r.0 in
    elim (Option-cases (open_end none r.1 k)) [
      | inl ended ↦ ground (arith, ended)
      | inr (e, ended) ↦
          ground (arith, length-take_name (b ∷ s), open_end-Within none r.1 k e ended)
    ]

parse_tag_at-Within :
    (s : Bytes) (i : ℕ) (t : ParsedTag)
    → parse_tag_at s i ≡ some t
    → Within (i + 1) (length s) t.tag_end
unfolding parse_tag_at
parse_tag_at-Within [] i t h = cc
parse_tag_at-Within (b ∷ s) i t h =
    ground (arith, parse_close-Within s (i + 2) t, parse_open-Within (b ∷ s) (i + 1) t)

pub tag_here-Within :
    (b : ℕ) (s : Bytes) (i : ℕ) (t : ParsedTag)
    → tag_here b s i ≡ some t
    → Within (i + 1) (length s) t.tag_end
unfolding tag_here
tag_here-Within b s i t h = ground (arith, parse_tag_at-Within s i t)
