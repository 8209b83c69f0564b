-- ===== src/Compress/Log/Select/Kept.antt =====
-- Which lines internal/compress/log_compressor.go selects.
use headroom_go.Common.{
  ℕ, zero, suc, ◌+◌, ◌-◌, ◌≤◌, ◌<◌, ◌≡◌, ◌⊎◌, inl, inr, refl, sym, subst, Bool, Bool-cases, true,
  false, ◌&&◌, List, [], ◌∷◌, none, arith, ltb, lt→ltb, leb, ◌==◌, ==_iff, length,
}
use headroom_go.Common.Sort.{sort_stable, length-sort_stable}
use headroom_go.Pipeline.{Float}
use headroom_go.Compress.Log.{max_errors, error_context_lines, max_warnings, max_stack_traces}
use headroom_go.Compress.Log.Select.{
  LogLine, has_index, is_error, is_fail, add_index, add_before, add_around, add_with_context,
  add_all, last_index, with_index, fill_up, pick_category, lines_where, pick_warnings, pick_traces,
  around_indices, kept_indices, cap_indices, select_indices, higher, outranks,
}
use headroom_go.Compress.Log.Select.Numbers.{
  Ascending, Ascending-weaken, length-take, Has, Has-first, IsIndexSet, take-IsIndexSet,
  sort-IsIndexSet, sort-Ascending, has_index-sort,
}
use headroom_go.Compress.Log.Select.Bounds.{kept_indices-IsIndexSet}

-- What a way to add an index keeps.
abbrev Grows : (ℕ → List ℕ → List ℕ) → Type 0
Grows add = (i j : ℕ) (kept : List ℕ) → Has j kept → Has j (add i kept)

with_index-Grows : Grows with_index
unfolding with_index
with_index-Grows i j kept h = ground (arith, h)

with_index-adds : (i : ℕ) (kept : List ℕ) → Has i (with_index i kept)
unfolding with_index
with_index-adds i kept = ground arith

add_index-Grows : (n : ℕ) → Grows (add_index n)
unfolding add_index
add_index-Grows n i j kept h = ground (arith, h, with_index-Grows i j kept h)

add_before-Grows : (n d : ℕ) → Grows (λ i kept. add_before n i d kept)
unfolding add_before
add_before-Grows n d i j kept h = elim (Bool-cases (leb d i)) [
  | inl above ↦ rw above (add_index-Grows n (i - d) j kept h)
  | inr below ↦ rw below h
]

add_around-Grows : (n d : ℕ) → Grows (λ i kept. add_around n i d kept)
unfolding add_around
add_around-Grows n zero i j kept h = h
add_around-Grows n (suc d) i j kept h =
    let before = add_around-Grows n d i j kept h in
    add_index-Grows n (i + suc d) j _
      (add_before-Grows n (suc d) i j (add_around n i d kept) before)

add_all-Grows :
    (add : ℕ → List ℕ → List ℕ) (j : ℕ) (is kept : List ℕ)
    → Grows add
    → Has j kept
    → Has j (add_all add is kept)
unfolding add_all
add_all-Grows add j [] kept g h = h
add_all-Grows add j (i ∷ is) kept g h = add_all-Grows add j is (add i kept) g (g i j kept h)

add_all-adds :
    (add : ℕ → List ℕ → List ℕ) (j : ℕ) (is kept : List ℕ)
    → Grows add
    → ((k : List ℕ) → Has j (add j k))
    → Has j is
    → Has j (add_all add is kept)
unfolding add_all
add_all-adds add j [] kept g a h = absurd (ground (arith, h))
add_all-adds add j (i ∷ is) kept g a h = elim (Bool-cases (j == i)) [
  | inl here ↦
      let same : j ≡ i = (==_iff j i).0 here in
      add_all-Grows add j is (add i kept) g (subst (λ x. Has j (add x kept)) same (a kept))
  | inr later ↦ add_all-adds add j is (add i kept) g a (ground (arith, h, later))
]

add_index-adds : (n i : ℕ) → i < n → (kept : List ℕ) → Has i (add_index n i kept)
unfolding add_index
add_index-adds n i lt kept = rw (lt→ltb i n lt) (with_index-adds i kept)

add_context-Grows : (n : ℕ) → Grows (add_with_context n)
unfolding add_with_context
add_context-Grows n i j kept h =
    add_around-Grows n error_context_lines i j _ (add_index-Grows n i j kept h)

add_context-adds : (n i : ℕ) → i < n → (kept : List ℕ) → Has i (add_with_context n i kept)
unfolding add_with_context
add_context-adds n i lt kept =
    add_around-Grows n error_context_lines i i _ (add_index-adds n i lt kept)

fill_up-Grows : (max_n j : ℕ) (is chosen : List ℕ) → Has j chosen → Has j (fill_up max_n is chosen)
unfolding fill_up
fill_up-Grows max_n j [] chosen h = h
fill_up-Grows max_n j (i ∷ is) chosen h = elim (Bool-cases (leb max_n (length chosen))) [
  | inl full ↦ rw full h
  | inr room ↦
      rw room (fill_up-Grows max_n j is (with_index i chosen) (with_index-Grows i j chosen h))
]

module _ (fl : Float) where
  pick_category_first :
      (parsed : List (LogLine fl.F)) (i : ℕ) (is : List ℕ)
      → Has i (pick_category fl parsed (i ∷ is) max_errors)
  unfolding pick_category
  pick_category_first parsed i is =
      fill_up-Grows max_errors i (sort_stable (higher fl parsed) (i ∷ is)) _
        (with_index-Grows (last_index i is) i (i ∷ []) (Has-first i []))

  lines_where-Ascending :
      (p : LogLine fl.F → Bool) (from n : ℕ) (ls : List (LogLine fl.F))
      → from + length ls ≡ n
      → Ascending from n (lines_where fl p from ls)
  unfolding lines_where
  lines_where-Ascending p from n [] e = tt
  lines_where-Ascending p from n (l ∷ ls) e =
      let rest = lines_where-Ascending p (from + 1) n ls (omega (arith, e)) in
      elim (Bool-cases (p l)) [
        | inl picked ↦ rw picked (omega arith, omega (arith, e), rest)
        | inr left ↦ rw left (Ascending-weaken from (from + 1) n _ (omega arith) rest)
      ]

  below_end : (is : List ℕ) (i from n : ℕ) → Has i is → Ascending from n is → i < n
  below_end [] i from n h a = absurd (ground (arith, h))
  below_end (j ∷ is) i from n h (le, lt, rest) = elim (Bool-cases (i == j)) [
    | inl here ↦ let same : i ≡ j = (==_iff i j).0 here in omega (arith, same, lt)
    | inr later ↦ below_end is i (j + 1) n (ground (arith, h, later)) rest
  ]

  abbrev error_lines : List (LogLine fl.F) → List ℕ
  error_lines parsed = lines_where fl (λ l. is_error l.level) 0 parsed

  abbrev fail_lines : List (LogLine fl.F) → List ℕ
  fail_lines parsed = lines_where fl (λ l. is_fail l.level) 0 parsed

  abbrev summary_lines : List (LogLine fl.F) → List ℕ
  summary_lines parsed = lines_where fl (λ l. l.is_summary) 0 parsed

  -- A summary line, the first line of an error, or the first of a failure.
  abbrev pub Important : List (LogLine fl.F) → ℕ → Type 0
  Important parsed i =
      Has i (summary_lines parsed)
      ⊎ (((is : List ℕ) × (error_lines parsed ≡ i ∷ is))
          ⊎ ((is : List ℕ) × (fail_lines parsed ≡ i ∷ is)))

  -- All that the categories choose.
  abbrev pub all_kept : List (LogLine fl.F) → List ℕ
  all_kept parsed = kept_indices fl parsed

  Important-below : (parsed : List (LogLine fl.F)) (i : ℕ) → Important parsed i → i < length parsed
  Important-below parsed i (inl s) =
      below_end _ i 0 _ s (lines_where-Ascending _ 0 _ parsed (omega arith))
  Important-below parsed i (inr (inl (is, e))) =
      below_end _ i 0 _ (subst (Has i) (sym e) (Has-first i is))
        (lines_where-Ascending _ 0 _ parsed (omega arith))
  Important-below parsed i (inr (inr (is, e))) =
      below_end _ i 0 _ (subst (Has i) (sym e) (Has-first i is))
        (lines_where-Ascending _ 0 _ parsed (omega arith))

  -- The first of a category is chosen, with its context.
  first_chosen :
      (n i : ℕ) (parsed : List (LogLine fl.F)) (is js kept : List ℕ)
      → js ≡ i ∷ is
      → i < n
      → Has i (add_all (add_with_context n) (pick_category fl parsed js max_errors) kept)
  first_chosen n i parsed is js kept e lt =
      add_all-adds (add_with_context n) i _ kept (add_context-Grows n) (add_context-adds n i lt) (
        subst (λ x. Has i (pick_category fl parsed x max_errors)) (sym e)
          (pick_category_first parsed i is))

  Important-around :
      (parsed : List (LogLine fl.F)) (i : ℕ)
      → ((is : List ℕ) × (error_lines parsed ≡ i ∷ is))
        ⊎ ((is : List ℕ) × (fail_lines parsed ≡ i ∷ is))
      → i < length parsed
      → Has i (around_indices fl parsed)
  unfolding around_indices
  Important-around parsed i (inl (is, e)) lt =
      add_all-Grows (add_with_context (length parsed)) i
        (pick_category fl parsed (fail_lines parsed) max_errors) _
        (add_context-Grows (length parsed))
        (first_chosen (length parsed) i parsed is (error_lines parsed) [] e lt)
  Important-around parsed i (inr (is, e)) lt =
      first_chosen (length parsed) i parsed is (fail_lines parsed) _ e lt

  Important-kept :
      (parsed : List (LogLine fl.F)) (i : ℕ) → Important parsed i → Has i (kept_indices fl parsed)
  unfolding kept_indices
  Important-kept parsed i (inl s) =
      let n = length parsed in
      add_all-adds (add_index n) i _ _ (add_index-Grows n)
        (add_index-adds n i (Important-below parsed i (inl s))) s
  Important-kept parsed i (inr first) =
      let n = length parsed in
      add_all-Grows (add_index n) i (summary_lines parsed) _ (add_index-Grows n) (
        add_all-Grows (add_index n) i (pick_traces fl max_stack_traces none 0 parsed) _
          (add_index-Grows n)
          (add_all-Grows (add_index n) i (pick_warnings fl max_warnings 0 [] parsed) _
            (add_index-Grows n)
            (Important-around parsed i first (Important-below parsed i (inr first)))))

  cap_indices_size :
      (parsed : List (LogLine fl.F)) (cap : ℕ) (is : List ℕ)
      → (cap ≡ 0) ⊎ (length (cap_indices fl parsed cap is) ≤ cap)
  unfolding cap_indices
  cap_indices_size parsed zero is = inl refl
  cap_indices_size parsed (suc k) is =
      elim (Bool-cases (ltb 0 (suc k) && ltb (suc k) (length is))) [
        | inl cut ↦ inr (rw cut (length-take (suc k) (sort_stable (outranks fl parsed) is)))
        | inr fits ↦ inr (rw fits (ground (arith, fits)))
      ]

  cap_indices-IsIndexSet :
      (n : ℕ) (parsed : List (LogLine fl.F)) (cap : ℕ) (is : List ℕ)
      → IsIndexSet n is
      → IsIndexSet n (cap_indices fl parsed cap is)
  unfolding cap_indices
  cap_indices-IsIndexSet n parsed cap is h = elim (Bool-cases (ltb 0 cap && ltb cap (length is))) [
    | inl cut ↦ rw cut (take-IsIndexSet n cap _ (sort-IsIndexSet (outranks fl parsed) n is h))
    | inr fits ↦ rw fits h
  ]

  -- The selected indices are indices of lines, in ascending order and each once; with a cap that is
  -- not 0 they are no more than the cap.
  pub select_indices-Ascending :
      (parsed : List (LogLine fl.F)) (cap : ℕ)
      → Ascending 0 (length parsed) (select_indices fl parsed cap)
        × ((cap ≡ 0) ⊎ (length (select_indices fl parsed cap) ≤ cap))
  unfolding select_indices
  select_indices-Ascending parsed cap = (
    sort-Ascending (length parsed) _
        (cap_indices-IsIndexSet (length parsed) parsed cap _ (kept_indices-IsIndexSet fl parsed)),
    elim (cap_indices_size parsed cap (all_kept parsed)) [
      | inl e ↦ inl e
      | inr h ↦
          inr
            (omega (arith, h, length-sort_stable ltb (cap_indices fl parsed cap (all_kept parsed))))
    ],
  )

  -- Where all that the categories choose fits the cap, every summary line and the first line of an
  -- error and of a failure are among the selected.
  pub select_indices-Important :
      (parsed : List (LogLine fl.F)) (cap i : ℕ)
      → (ltb 0 cap && ltb cap (length (all_kept parsed))) ≡ false
      → Important parsed i
      → has_index i (select_indices fl parsed cap) ≡ true
  unfolding select_indices cap_indices
  select_indices-Important parsed cap i fits h = rw fits (
      subst (λ b. b ≡ true) (sym (has_index-sort ltb i (all_kept parsed)))
        (Important-kept parsed i h))
