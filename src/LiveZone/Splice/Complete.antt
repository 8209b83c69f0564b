-- ===== src/LiveZone/Splice/Complete.antt =====
-- No replacement is lost when none overlaps another.
use mathlib.Core.List.Perm
use mathlib.Core.List.{Perm}
use headroom_go.Common.{
  ℕ, ◌≤◌, ◌<◌, ◌≡◌, ◌⊎◌, inl, inr, refl, ap, ◌∙◌, Bool-cases, leb, List, [], ◌∷◌, map, arith, Bytes,
  length, All, All-map,
}
use headroom_go.LiveZone.Splice.{
  Replacement, insert_by_start, sort_by_start, is_bad, apply_replacements,
}
use headroom_go.LiveZone.Splice.Lockstep.{
  range_of, text_of, applied, inside_output, apply_replacements-IsSplice,
}

abbrev pub Disjoint : Replacement → Replacement → Type 0
Disjoint r s = (r.end ≤ s.start) ⊎ (s.end ≤ r.start)

-- A span of the body that is not empty.
abbrev pub IsSpan : ℕ → Replacement → Type 0
IsSpan size r = (r.start < r.end) × (r.end ≤ size)

abbrev pub AllApart : List Replacement → Type 0
AllApart [] = Unit
AllApart (r ∷ rs) = All (Disjoint r) rs × AllApart rs

abbrev IsSorted : List Replacement → Type 0
IsSorted [] = Unit
IsSorted (r ∷ rs) = All (λ s. r.start ≤ s.start) rs × IsSorted rs

insert-All :
    (P : Replacement → Type 0) (r : Replacement) (rs : List Replacement)
    → P r
    → All P rs
    → All P (insert_by_start r rs)
unfolding insert_by_start
insert-All P r [] h a = (h, tt)
insert-All P r (x ∷ xs) h a = elim (Bool-cases (leb r.start x.start)) [
  | inl first ↦ rw first (h, a)
  | inr later ↦ rw later (a.0, insert-All P r xs h a.1)
]

sort-All : (P : Replacement → Type 0) (rs : List Replacement) → All P rs → All P (sort_by_start rs)
unfolding sort_by_start
sort-All P [] a = tt
sort-All P (r ∷ rs) a = insert-All P r (sort_by_start rs) a.0 (sort-All P rs a.1)

Disjoint-symm : (r s : Replacement) → Disjoint r s → Disjoint s r
Disjoint-symm r s (inl h) = inr h
Disjoint-symm r s (inr h) = inl h

insert-AllApart :
    (r : Replacement) (rs : List Replacement)
    → All (Disjoint r) rs
    → AllApart rs
    → AllApart (insert_by_start r rs)
unfolding insert_by_start
insert-AllApart r [] h a = (tt, tt)
insert-AllApart r (x ∷ xs) h a = elim (Bool-cases (leb r.start x.start)) [
  | inl first ↦ rw first (h, a)
  | inr later ↦
      rw later
        (insert-All (Disjoint x) r xs (Disjoint-symm r x h.0) a.0, insert-AllApart r xs h.1 a.1)
]

sort-AllApart : (rs : List Replacement) → AllApart rs → AllApart (sort_by_start rs)
unfolding sort_by_start
sort-AllApart [] a = tt
sort-AllApart (r ∷ rs) a =
    insert-AllApart r (sort_by_start rs) (sort-All (Disjoint r) rs a.0) (sort-AllApart rs a.1)

insert-IsSorted :
    (r : Replacement) (rs : List Replacement) → IsSorted rs → IsSorted (insert_by_start r rs)
unfolding insert_by_start
insert-IsSorted r [] s = (tt, tt)
insert-IsSorted r (x ∷ xs) s = elim (Bool-cases (leb r.start x.start)) [
  | inl first ↦
      let le : r.start ≤ x.start = ground arith in
      rw first ((le, All-map xs (λ y h. omega arith) s.0), s)
  | inr later ↦
      let le : x.start ≤ r.start = ground arith in
      rw later (insert-All (λ y. x.start ≤ y.start) r xs le s.0, insert-IsSorted r xs s.1)
]

sort-IsSorted : (rs : List Replacement) → IsSorted (sort_by_start rs)
unfolding sort_by_start
sort-IsSorted [] = tt
sort-IsSorted (r ∷ rs) = insert-IsSorted r (sort_by_start rs) (sort-IsSorted rs)

insert-perm : (r : Replacement) (rs : List Replacement) → Perm (insert_by_start r rs) (r ∷ rs)
unfolding insert_by_start
insert-perm r [] = Perm.refl (r ∷ [])
insert-perm r (x ∷ xs) = elim (Bool-cases (leb r.start x.start)) [
  | inl first ↦ rw first (Perm.refl _)
  | inr later ↦ rw later (Perm.trans (Perm.cons x (insert-perm r xs)) (Perm.swap r x xs))
]

sort-perm : (rs : List Replacement) → Perm (sort_by_start rs) rs
unfolding sort_by_start
sort-perm [] = Perm.refl []
sort-perm (r ∷ rs) = Perm.trans (insert-perm r (sort_by_start rs)) (Perm.cons r (sort-perm rs))

-- In sorted order, what follows a span begins behind it.
behind :
    (size : ℕ) (r : Replacement) (rs : List Replacement)
    → IsSpan size r
    → All (IsSpan size) rs
    → All (Disjoint r) rs
    → All (λ s. r.start ≤ s.start) rs
    → All (λ s. r.end ≤ s.start) rs
behind size r [] p ps ds ss = tt
behind size r (s ∷ rs) p ps ds ss = (ground arith, behind size r rs p ps.1 ds.1 ss.1)

applied-All :
    (orig : Bytes) (cursor : ℕ) (rs : List Replacement)
    → All (IsSpan (length orig)) rs
    → AllApart rs
    → IsSorted rs
    → All (λ r. cursor ≤ r.start) rs
    → applied orig cursor rs ≡ rs
unfolding is_bad
applied-All orig cursor [] p a s c = refl
applied-All orig cursor (r ∷ rs) p a s c =
    ground
      (arith, applied-All orig r.end rs p.1 a.1 s.1 (behind (length orig) r rs p.0 p.1 a.0 s.0))

-- If the replacements are spans of the body that are not empty and no two overlap, every one is
-- applied, in order of start: the ranges and the rewritten spans are theirs, and none is lost.
pub apply_replacements-All :
    (orig : Bytes) (reps : List Replacement)
    → All (IsSpan (length orig)) reps
    → AllApart reps
    → ((apply_replacements orig reps).1 ≡ map range_of (sort_by_start reps))
      × (inside_output 0 (apply_replacements orig reps).0 (apply_replacements orig reps).1
          ≡ map text_of (sort_by_start reps))
      × Perm (sort_by_start reps) reps
apply_replacements-All orig reps p a =
    let done = apply_replacements-IsSplice orig reps in
    let all : applied orig 0 (sort_by_start reps) ≡ sort_by_start reps =
      applied-All orig 0 (sort_by_start reps) (sort-All (IsSpan (length orig)) reps p)
        (sort-AllApart reps a) (sort-IsSorted reps)
        (sort-All (λ r. 0 ≤ r.start) reps (All-map reps (λ r h. omega arith) p)) in
    (done.ranges ∙ ap (map range_of) all, done.inside ∙ ap (map text_of) all, sort-perm reps)
