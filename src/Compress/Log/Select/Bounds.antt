-- ===== src/Compress/Log/Select/Bounds.antt =====
-- The set `keep` of selectIndices in internal/compress/log_compressor.go has only indices of lines.
use headroom_go.Common.{
  ℕ, zero, suc, ◌+◌, ◌-◌, ◌<◌, ◌≡◌, inl, inr, Bool-cases, List, [], ◌∷◌, none, arith, ltb, leb,
  ◌==◌, ==_iff, length,
}
use headroom_go.Pipeline.{Float}
use headroom_go.Compress.Log.{max_errors, error_context_lines, max_warnings, max_stack_traces}
use headroom_go.Compress.Log.Select.{
  LogLine, is_error, is_fail, has_index, with_index, add_index, add_before, add_around,
  add_with_context, add_all, pick_category, lines_where, pick_warnings, pick_traces, around_indices,
  kept_indices,
}
use headroom_go.Compress.Log.Select.Numbers.{Has, IsIndexSet}

-- What keeps a set of indices below n such a set.
abbrev Keeps : ℕ → (List ℕ → List ℕ) → Type 0
Keeps n add = (kept : List ℕ) → IsIndexSet n kept → IsIndexSet n (add kept)

with_index-Keeps : (n i : ℕ) → i < n → Keeps n (with_index i)
unfolding with_index
with_index-Keeps n i lt kept h = elim (Bool-cases (has_index i kept)) [
  | inl there ↦ rw there h
  | inr new ↦ rw new (record { once = (new, h.once); below = λ j e. below j e })
]
  where
    below : (j : ℕ) → Has j (i ∷ kept) → j < n
    below j e = elim (Bool-cases (j == i)) [
      | inl here ↦ let same : j ≡ i = (==_iff j i).0 here in omega (arith, same, lt)
      | inr later ↦ h.below j (ground (arith, e, later))
    ]

add_index-Keeps : (n i : ℕ) → Keeps n (add_index n i)
unfolding add_index
add_index-Keeps n i kept h = elim (Bool-cases (ltb i n)) [
  | inl inside ↦ rw inside (with_index-Keeps n i (ground (arith, inside)) kept h)
  | inr outside ↦ rw outside h
]

add_before-Keeps : (n i d : ℕ) → Keeps n (add_before n i d)
unfolding add_before
add_before-Keeps n i d kept h = elim (Bool-cases (leb d i)) [
  | inl above ↦ rw above (add_index-Keeps n (i - d) kept h)
  | inr below ↦ rw below h
]

add_around-Keeps : (n i d : ℕ) → Keeps n (add_around n i d)
unfolding add_around
add_around-Keeps n i zero kept h = h
add_around-Keeps n i (suc d) kept h =
    add_index-Keeps n (i + suc d) _ (add_before-Keeps n i (suc d) _ (add_around-Keeps n i d kept h))

add_with_context-Keeps : (n i : ℕ) → Keeps n (add_with_context n i)
unfolding add_with_context
add_with_context-Keeps n i kept h =
    add_around-Keeps n i error_context_lines _ (add_index-Keeps n i kept h)

add_all-Keeps :
    (n : ℕ) (add : ℕ → List ℕ → List ℕ)
    → ((i : ℕ) → Keeps n (add i))
    → (is : List ℕ) → Keeps n (add_all add is)
unfolding add_all
add_all-Keeps n add k [] kept h = h
add_all-Keeps n add k (i ∷ is) kept h = add_all-Keeps n add k is (add i kept) (k i kept h)

empty-IsIndexSet : (n : ℕ) → IsIndexSet n []
empty-IsIndexSet n = record { once = tt; below = λ i e. absurd (ground (arith, e)) }

module _ (fl : Float) where
  around_indices-IsIndexSet :
      (parsed : List (LogLine fl.F)) → IsIndexSet (length parsed) (around_indices fl parsed)
  unfolding around_indices
  around_indices-IsIndexSet parsed =
      each fails (add_all (add_with_context n) errors []) (each errors [] (empty-IsIndexSet n))
    where
      n : ℕ
      n = length parsed

      each : (is : List ℕ) → Keeps n (add_all (add_with_context n) is)
      each = add_all-Keeps n (add_with_context n) (add_with_context-Keeps n)

      errors : List ℕ
      errors = pick_category fl parsed (lines_where fl (λ l. is_error l.level) 0 parsed) max_errors

      fails : List ℕ
      fails = pick_category fl parsed (lines_where fl (λ l. is_fail l.level) 0 parsed) max_errors

  pub kept_indices-IsIndexSet :
      (parsed : List (LogLine fl.F)) → IsIndexSet (length parsed) (kept_indices fl parsed)
  unfolding kept_indices
  kept_indices-IsIndexSet parsed = each (lines_where fl (λ l. l.is_summary) 0 parsed) _ (
      each (pick_traces fl max_stack_traces none 0 parsed) _
        (each (pick_warnings fl max_warnings 0 [] parsed) _ (around_indices-IsIndexSet parsed)))
    where
      each : (is : List ℕ) → Keeps (length parsed) (add_all (add_index (length parsed)) is)
      each =
          add_all-Keeps (length parsed) (add_index (length parsed))
            (add_index-Keeps (length parsed))
