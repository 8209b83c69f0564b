-- ===== src/Compress/Diff/Reduce.antt =====
-- reduceContext of internal/compress/diff_compressor.go: the lines of a hunk that stay.
use headroom_go.Common.{
  ℕ, zero, suc, ◌+◌, ◌-◌, ◌≡◌, refl, sym, ap, ◌∙◌, Bool, Bool-cases, true, false, inl, inr, ◌&&◌,
  ◌||◌, List, [], ◌∷◌, ◌++◌, append_assoc, append-nil, arith, Bytes, codes, ltb, leb, ◌==◌,
  if◌then◌else◌, length, length-take, take, keep,
}
use headroom_go.Compress.Diff.{DiffHunk, has_prefix, max_context_lines}

unfoldable pub is_change : Bytes → Bool
is_change line = has_prefix line (codes "+") || has_prefix line (codes "-")

-- The indices of the changes, from an index on.
unfoldable pub change_positions : ℕ → List Bytes → List ℕ
unfolding is_change
change_positions i [] = []
change_positions i (line ∷ lines) =
    let rest = change_positions (i + 1) lines in if is_change line then i ∷ rest else rest

-- Whether the marks of one change have an index, among `n` lines.
unfoldable pub near : ℕ → ℕ → ℕ → Bool
near pos n i =
    let hi = if ltb n (pos + max_context_lines + 1) then n else pos + max_context_lines + 1 in
    i == pos || (leb (pos - max_context_lines) i && ltb i pos) || (leb (pos + 1) i && ltb i hi)

unfoldable pub marked : List ℕ → ℕ → ℕ → Bool
unfolding near
marked [] n i = false
marked (pos ∷ positions) n i = near pos n i || marked positions n i

-- The kept lines in the order of their indices.
unfoldable pub kept_lines : List ℕ → ℕ → ℕ → List Bytes → List Bytes
unfolding marked
kept_lines positions n i [] = []
kept_lines positions n i (line ∷ lines) =
    let rest = kept_lines positions n (i + 1) lines in
    if marked positions n i || has_prefix line (codes "\\") then line ∷ rest else rest

unfoldable pub count_line : Bytes → DiffHunk → DiffHunk
count_line line h =
    let longer = record h { lines = h.lines ++ (line ∷ []) } in
    if has_prefix line (codes "+")
    then record longer { additions = h.additions + 1 }
    else if has_prefix line (codes "-")
    then record longer { deletions = h.deletions + 1 }
    else record longer { context_lines = h.context_lines + 1 }

unfoldable pub recount : List Bytes → DiffHunk → DiffHunk
recount [] h = h
recount (line ∷ lines) h = recount lines (count_line line h)

-- Without a change, the first lines stay.
start_of : DiffHunk → DiffHunk
start_of h =
    let n = if ltb (length h.lines) max_context_lines then length h.lines else max_context_lines in
    record {
      header = h.header;
      lines = take n h.lines;
      additions = 0;
      deletions = 0;
      context_lines = n;
    }

reduce_around : List ℕ → DiffHunk → DiffHunk
unfolding start_of kept_lines recount count_line
reduce_around [] h = start_of h
reduce_around (pos ∷ positions) h =
    recount (kept_lines (pos ∷ positions) (length h.lines) 0 h.lines)
      (record { header = h.header; lines = []; additions = 0; deletions = 0; context_lines = 0 })

unfoldable pub reduce_context : DiffHunk → DiffHunk
unfolding reduce_around change_positions
reduce_context h = reduce_around (change_positions 0 h.lines) h

near_self : (pos n : ℕ) → near pos n pos ≡ true
unfolding near
near_self pos n = ground arith

marked_middle :
    (before : List ℕ) (i : ℕ) (after : List ℕ) (n : ℕ) → marked (before ++ (i ∷ after)) n i ≡ true
unfolding marked
marked_middle [] i after n = ground (arith, near_self i n)
marked_middle (pos ∷ before) i after n = ground (arith, marked_middle before i after n)

-- The changes among the kept lines are all the changes.
changes-kept_lines :
    (positions before : List ℕ) (n i : ℕ) (lines : List Bytes)
    → positions ≡ before ++ change_positions i lines
    → keep is_change (kept_lines positions n i lines) ≡ keep is_change lines
unfolding kept_lines change_positions
changes-kept_lines positions before n i [] e = refl
changes-kept_lines positions before n i (line ∷ lines) e = elim (Bool-cases (is_change line)) [
  | inl change ↦
      let rest = change_positions (i + 1) lines in
      let here : positions ≡ before ++ (i ∷ rest) = ground (arith, e, change) in
      let stays : marked positions n i ≡ true =
        ap (λ ps. marked ps n i) here ∙ marked_middle before i rest n in
      let after : positions ≡ (before ++ (i ∷ [])) ++ rest =
        here ∙ sym (append_assoc before (i ∷ []) rest) in
      let ih = changes-kept_lines positions (before ++ (i ∷ [])) n (i + 1) lines after in
      rw stays (rw change (ap (λ ls. line ∷ ls) ih))
  | inr other ↦
      let rest = change_positions (i + 1) lines in
      let after : positions ≡ before ++ rest = ground (arith, e, other) in
      let ih = changes-kept_lines positions before n (i + 1) lines after in
      elim (Bool-cases (marked positions n i || has_prefix line (codes "\\"))) [
        | inl stays ↦ rw stays (rw other ih)
        | inr drops ↦ rw drops (rw other ih)
      ]
]

lines-count_line :
    (line : Bytes) (h : DiffHunk) → (count_line line h).lines ≡ h.lines ++ (line ∷ [])
unfolding count_line
lines-count_line line h = ground arith

size : DiffHunk → ℕ
size h = h.additions + h.deletions + h.context_lines

size-count_line : (line : Bytes) (h : DiffHunk) → size (count_line line h) ≡ size h + 1
unfolding count_line size
size-count_line line h = ground arith

lines-recount : (lines : List Bytes) (h : DiffHunk) → (recount lines h).lines ≡ h.lines ++ lines
unfolding recount
lines-recount [] h = sym (append-nil h.lines)
lines-recount (line ∷ lines) h =
    lines-recount lines (count_line line h)
    ∙ ap (λ ls. ls ++ lines) (lines-count_line line h)
    ∙ append_assoc h.lines (line ∷ []) lines

size-recount : (lines : List Bytes) (h : DiffHunk) → size (recount lines h) ≡ size h + length lines
unfolding recount
size-recount [] h = omega arith
size-recount (line ∷ lines) h =
    omega (arith, size-recount lines (count_line line h), size-count_line line h)

header-count_line : (line : Bytes) (h : DiffHunk) → (count_line line h).header ≡ h.header
unfolding count_line
header-count_line line h = ground arith

header-recount : (lines : List Bytes) (h : DiffHunk) → (recount lines h).header ≡ h.header
unfolding recount
header-recount [] h = refl
header-recount (line ∷ lines) h =
    header-recount lines (count_line line h) ∙ header-count_line line h

no_changes :
    (i : ℕ) (lines : List Bytes) → change_positions i lines ≡ [] → keep is_change lines ≡ []
unfolding change_positions
no_changes i [] e = refl
no_changes i (line ∷ lines) e = ground (arith, no_changes (i + 1) lines)

no_changes-take :
    (n : ℕ) (lines : List Bytes) → keep is_change lines ≡ [] → keep is_change (take n lines) ≡ []
no_changes-take zero lines e = refl
no_changes-take (suc n) [] e = refl
no_changes-take (suc n) (line ∷ lines) e = ground (arith, no_changes-take n lines)

-- A reduced hunk has the same header, the same added and deleted lines in the same order, and counts
-- each of its lines once.
pub reduce_context-changes :
    (h : DiffHunk)
    → let r = reduce_context h in
      (r.header ≡ h.header)
      × (keep is_change r.lines ≡ keep is_change h.lines)
      × (r.additions + r.deletions + r.context_lines ≡ length r.lines)
unfolding reduce_context
reduce_context-changes h = around (change_positions 0 h.lines) refl
  where
    around :
        (positions : List ℕ)
        → change_positions 0 h.lines ≡ positions
        → let r = reduce_around positions h in
          (r.header ≡ h.header)
          × (keep is_change r.lines ≡ keep is_change h.lines)
          × (r.additions + r.deletions + r.context_lines ≡ length r.lines)
    around [] e =
        let none_left = no_changes 0 h.lines e in
        let n =
          if ltb (length h.lines) max_context_lines then length h.lines else max_context_lines in
        (
          refl,
          no_changes-take n h.lines none_left ∙ sym none_left,
          ground (arith, length-take {0} n h.lines),
        )
    around (pos ∷ positions) e =
        let start : DiffHunk = record {
          header = h.header;
          lines = [];
          additions = 0;
          deletions = 0;
          context_lines = 0;
        } in
        let kept = kept_lines (pos ∷ positions) (length h.lines) 0 h.lines in
        let same = lines-recount kept start in
        let total : (recount kept start).additions
              + (recount kept start).deletions
              + (recount kept start).context_lines
            ≡ 0 + 0 + 0 + length kept =
          unfold size in size-recount kept start in
        (
          header-recount kept start,
          ap (keep is_change) same
              ∙ changes-kept_lines (pos ∷ positions) [] (length h.lines) 0 h.lines (sym e),
          omega (arith, total, ap length same),
        )
