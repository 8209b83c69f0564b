-- ===== src/Compress/Log/Select/Numbers.antt =====
-- Lists of numbers as sets of indices, for internal/compress/log_compressor.go.
use headroom_go.Common.{
  ℕ, zero, suc, ◌+◌, ◌≤◌, ◌<◌, ◌≡◌, ◌∙◌, inl, inr, refl, subst, Bool, Bool-cases, true, false, ◌||◌,
  List, [], ◌∷◌, arith, ltb, ◌==◌, ==_iff, length, take,
}
use headroom_go.Common.Sort.{sort_stable, insert_stable}
use headroom_go.Compress.Log.Select.{has_index}

-- Numbers in ascending order, each once, from `from` to below n.
abbrev pub Ascending : ℕ → ℕ → List ℕ → Type 0
Ascending from n [] = Unit
Ascending from n (i ∷ is) = (from ≤ i) × (i < n) × Ascending (i + 1) n is

pub Ascending-weaken : (a b n : ℕ) (is : List ℕ) → a ≤ b → Ascending b n is → Ascending a n is
Ascending-weaken a b n [] le h = tt
Ascending-weaken a b n (i ∷ is) le (l, below, rest) = (omega (arith, le, l), below, rest)

pub length-take : {A : Type 0} (k : ℕ) (xs : List A) → length (take k xs) ≤ k
length-take zero xs = omega arith
length-take (suc k) [] = omega arith
length-take (suc k) (x ∷ xs) = omega (arith, length-take k xs)

abbrev pub Has : ℕ → List ℕ → Type 0
Has i is = has_index i is ≡ true

pub Has-first : (i : ℕ) (is : List ℕ) → Has i (i ∷ is)
Has-first i is = ground arith

Has-take : (i k : ℕ) (xs : List ℕ) → Has i (take k xs) → Has i xs
Has-take i zero xs h = absurd (ground (arith, h))
Has-take i (suc k) [] h = absurd (ground (arith, h))
Has-take i (suc k) (x ∷ xs) h = ground (arith, h, Has-take i k xs)

-- No number twice.
abbrev Once : List ℕ → Type 0
Once [] = Unit
Once (i ∷ is) = (has_index i is ≡ false) × Once is

-- A set of numbers below n.
pub record IsIndexSet (n : ℕ) (is : List ℕ) : Type 0 where
  pub once : Once is
  pub below : (i : ℕ) → Has i is → i < n

Once-take : (k : ℕ) (xs : List ℕ) → Once xs → Once (take k xs)
Once-take zero xs h = tt
Once-take (suc k) [] h = tt
Once-take (suc k) (x ∷ xs) (new, rest) = (lost (has_index x (take k xs)) refl, Once-take k xs rest)
  where
    lost : (b : Bool) → has_index x (take k xs) ≡ b → has_index x (take k xs) ≡ false
    lost false e = e
    lost true e = absurd (ground (arith, new, Has-take x k xs e))

pub take-IsIndexSet : (n k : ℕ) (is : List ℕ) → IsIndexSet n is → IsIndexSet n (take k is)
take-IsIndexSet n k is h = record {
  once = Once-take k is h.once;
  below = λ i e. h.below i (Has-take i k is e);
}

-- Sorting by any test keeps a set.
module _ (less : ℕ → ℕ → Bool) where
  has_index-insert :
      (i x : ℕ) (ys : List ℕ) → has_index i (insert_stable less x ys) ≡ (i == x || has_index i ys)
  unfolding insert_stable
  has_index-insert i x [] = refl
  has_index-insert i x (y ∷ ys) = ground (arith, has_index-insert i x ys)

  pub has_index-sort : (i : ℕ) (xs : List ℕ) → has_index i (sort_stable less xs) ≡ has_index i xs
  unfolding sort_stable
  has_index-sort i [] = refl
  has_index-sort i (x ∷ xs) =
      ground (arith, has_index-insert i x (sort_stable less xs), has_index-sort i xs)

  Once-insert :
      (x : ℕ) (ys : List ℕ) → has_index x ys ≡ false → Once ys → Once (insert_stable less x ys)
  unfolding insert_stable
  Once-insert x [] new h = (refl, tt)
  Once-insert x (y ∷ ys) new (a, b) = elim (Bool-cases (less y x)) [
    | inl later ↦
        let rest = Once-insert x ys (ground (arith, new)) b in
        rw later (ground (arith, a, new, has_index-insert y x ys, ==_iff y x, ==_iff x y), rest)
    | inr here ↦ rw here (new, (a, b))
  ]

  Once-sort : (xs : List ℕ) → Once xs → Once (sort_stable less xs)
  unfolding sort_stable
  Once-sort [] h = tt
  Once-sort (x ∷ xs) (new, rest) =
      Once-insert x (sort_stable less xs) (has_index-sort x xs ∙ new) (Once-sort xs rest)

  pub sort-IsIndexSet : (n : ℕ) (is : List ℕ) → IsIndexSet n is → IsIndexSet n (sort_stable less is)
  sort-IsIndexSet n is h = record {
    once = Once-sort is h.once;
    below = λ i e. h.below i (subst (λ b. b ≡ true) (has_index-sort i is) e);
  }

insert-Ascending :
    (from n x : ℕ) (ys : List ℕ)
    → from ≤ x
    → x < n
    → has_index x ys ≡ false
    → Ascending from n ys
    → Ascending from n (insert_stable ltb x ys)
unfolding insert_stable
insert-Ascending from n x [] le lt new h = (le, lt, tt)
insert-Ascending from n x (y ∷ ys) le lt new (a, b, rest) = elim (Bool-cases (ltb y x)) [
  | inl later ↦
      rw later (
        a,
        b,
        insert-Ascending (y + 1) n x ys (ground (arith, later)) lt (ground (arith, new)) rest,
      )
  | inr here ↦ rw here (le, lt, (ground (arith, here, new, ==_iff x y), b, rest))
]

-- Sorting a set of numbers below n by size.
pub sort-Ascending : (n : ℕ) (xs : List ℕ) → IsIndexSet n xs → Ascending 0 n (sort_stable ltb xs)
unfolding sort_stable
sort-Ascending n [] h = tt
sort-Ascending n (x ∷ xs) h =
    insert-Ascending 0 n x (sort_stable ltb xs) (omega arith) (h.below x (Has-first x xs))
      (has_index-sort ltb x xs ∙ h.once.0)
      (sort-Ascending n xs
        (record { once = h.once.1; below = λ i e. h.below i (ground (arith, e)) }))
