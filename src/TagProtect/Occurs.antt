-- ===== src/TagProtect/Occurs.antt =====
-- Where a placeholder of tagprotect.go can occur, and what strings.ReplaceAll does to it.
use headroom_go.Common.{
  ℕ, ◌≤◌, ◌≡◌, ◌≢◌, ◌⊎◌, inl, inr, refl, sym, ap, ◌∙◌, Bool, Bool-cases, true, false, [], ◌∷◌, ◌++◌,
  append_assoc, Option-cases, none, some, arith, Bytes, ◌==◌, strip_prefix, strip_prefix_sound,
  contains, length, length-append, All, All-append, All-map,
}
use headroom_go.Ccr.Marker.{decimal}
use headroom_go.Ccr.Marker.Decimal.{IsDigit, decimal-IsDigit, decimal_injective}
use headroom_go.TagProtect.{replace_from, placeholder, placeholder_suffix}

-- A mismatch stays one, whatever follows.
mismatch-append :
    (p a x : Bytes) → strip_prefix p a ≡ none → length p ≤ length a → strip_prefix p (a ++ x) ≡ none
unfolding strip_prefix
mismatch-append [] a x h le = cc
mismatch-append (c ∷ p) [] x h le = absurd (omega arith)
mismatch-append (c ∷ p) (b ∷ a) x h le = ground (arith, mismatch-append p a x)

-- A text that does not start a longer one is not started by it either.
mismatch_sym :
    (a p x : Bytes) → strip_prefix a p ≡ none → length a ≤ length p → strip_prefix p (a ++ x) ≡ none
unfolding strip_prefix
mismatch_sym [] p x h le = cc
mismatch_sym (c ∷ a) [] x h le = absurd (omega arith)
mismatch_sym (c ∷ a) (b ∷ p) x h le = ground (arith, mismatch_sym a p x)

-- Without a match, the text ends inside the prefix or the mismatch stays.
cut_or_mismatch :
    (p a x : Bytes)
    → strip_prefix p a ≡ none
    → (strip_prefix p (a ++ x) ≡ none)
      ⊎ ((c : ℕ) × (q : Bytes) × (p ≡ a ++ (c ∷ q))
          × (strip_prefix p (a ++ x) ≡ strip_prefix (c ∷ q) x))
unfolding strip_prefix
cut_or_mismatch [] a x h = inl (absurd (ground (arith, h)))
cut_or_mismatch (c ∷ p) [] x h = inr (c, p, refl, refl)
cut_or_mismatch (c ∷ p) (b ∷ a) x h = elim (Bool-cases (c == b)) [
  | inl same ↦
      let shorter : strip_prefix p a ≡ none = ground (arith, same, h) in
      elim (cut_or_mismatch p a x shorter) [
        | inl miss ↦ inl (ground (arith, miss))
        | inr (d, q, cut, left) ↦ inr (d, q, ground (arith, cut, same), ground (arith, left, same))
      ]
  | inr other ↦ inl (ground (arith, other))
]

-- No end of `s` is the start of `p`.
unfoldable pub no_border : Bytes → Bytes → Bool
unfolding strip_prefix
no_border p [] = true
no_border p (c ∷ s) = elim (strip_prefix (c ∷ s) p) [ none ↦ no_border p s | some _ ↦ false ]

no_border_at :
    (p a : Bytes) (c : ℕ) (q : Bytes)
    → no_border p (a ++ (c ∷ q)) ≡ true
    → strip_prefix (c ∷ q) p ≡ none
unfolding no_border
no_border_at p [] c q h = elim (Option-cases (strip_prefix (c ∷ q) p)) [
  | inl miss ↦ miss
  | inr (r, hit) ↦ absurd (ground (arith, hit, h))
]
no_border_at p (b ∷ a) c q h = no_border_at p a c q (ground (arith, h))

-- A prefix that does not overlap itself.
unfoldable pub borderless : Bytes → Bool
unfolding no_border
borderless [] = false
borderless (c ∷ p) = no_border (c ∷ p) p

-- No occurrence starts inside `a`, with `x` behind it.
abbrev pub Clear : Bytes → Bytes → Bytes → Type 0
Clear old [] x = Unit
Clear old (c ∷ a) x = (strip_prefix old (c ∷ a ++ x) ≡ none) × Clear old a x

pub Clear-append : (old a b x : Bytes) → Clear old a (b ++ x) → Clear old b x → Clear old (a ++ b) x
Clear-append old [] b x ha hb = hb
Clear-append old (c ∷ a) b x ha hb = (rw (append_assoc a b x) ha.0, Clear-append old a b x ha.1 hb)

pub replace_from-Clear :
    (old new a x : Bytes)
    → Clear old a x
    → replace_from 0 old new (a ++ x) ≡ a ++ replace_from 0 old new x
unfolding replace_from
replace_from-Clear old new [] x h = refl
replace_from-Clear old new (c ∷ a) x h =
    rw (h.0, replace_from) (ap (◌∷◌ c) (replace_from-Clear old new a x h.1))

pub replace_from_skip :
    (old new a x : Bytes) → replace_from (length a) old new (a ++ x) ≡ replace_from 0 old new x
unfolding replace_from
replace_from_skip old new [] x = refl
replace_from_skip old new (c ∷ a) x = replace_from_skip old new a x

mismatch-longer : (p tail s : Bytes) → strip_prefix p s ≡ none → strip_prefix (p ++ tail) s ≡ none
unfolding strip_prefix
mismatch-longer [] tail s h = absurd (ground (arith, h))
mismatch-longer (c ∷ p) tail [] h = refl
mismatch-longer (c ∷ p) tail (b ∷ s) h = ground (arith, mismatch-longer p tail s)

pub contains_not :
    (c : ℕ) (s p : Bytes)
    → contains (c ∷ s) p ≡ false
    → (strip_prefix p (c ∷ s) ≡ none) × (contains s p ≡ false)
unfolding contains
contains_not c s p h = elim (Option-cases (strip_prefix p (c ∷ s))) [
  | inl miss ↦ (miss, ground (arith, miss, h))
  | inr (r, hit) ↦ absurd (ground (arith, hit, h))
]

strip_same : (p a b : Bytes) → strip_prefix (p ++ a) (p ++ b) ≡ strip_prefix a b
unfolding strip_prefix
strip_same [] a b = refl
strip_same (c ∷ p) a b = ground (arith, strip_same p a b)

-- What has no brace starts nothing that begins with one.
rest-Clear : (old a x : Bytes) → All (λ c. c ≢ b'{') a → Clear (b'{' ∷ old) a x
unfolding strip_prefix
rest-Clear old [] x h = tt
rest-Clear old (c ∷ a) x h = (ground (arith, h.0), rest-Clear old a x h.1)

-- Two numbers before the same end.
split_at_end :
    (a b u v : Bytes) → All IsDigit a → All IsDigit b → a ++ (b'}' ∷ u) ≡ b ++ (b'}' ∷ v) → a ≡ b
split_at_end [] [] u v ha hb e = refl
split_at_end [] (d ∷ b) u v ha hb e = absurd (ground arith)
split_at_end (c ∷ a) [] u v ha hb e = absurd (ground arith)
split_at_end (c ∷ a) (d ∷ b) u v ha hb e =
    let rest : a ++ (b'}' ∷ u) ≡ b ++ (b'}' ∷ v) = ground arith in
    let same = split_at_end a b u v ha.1 hb.1 rest in ground (arith, same)

numbers_differ :
    (i j : ℕ) (x : Bytes)
    → i ≢ j
    → strip_prefix (decimal i ++ placeholder_suffix) ((decimal j ++ placeholder_suffix) ++ x) ≡ none
numbers_differ i j x other =
    elim (Option-cases
      (strip_prefix (decimal i ++ placeholder_suffix) ((decimal j ++ placeholder_suffix) ++ x))) [
        | inl miss ↦ miss
        | inr (r, hit) ↦ absurd (
            other (
              decimal_injective i j (
                split_at_end (decimal i) (decimal j) (b'}' ∷ r) (b'}' ∷ x) (decimal-IsDigit i)
                  (decimal-IsDigit j)
                  (simp (append_assoc) at (
                    sym (
                      strip_prefix_sound (decimal i ++ placeholder_suffix)
                        ((decimal j ++ placeholder_suffix) ++ x) r hit))))))
      ]

module _ (prefix' : Bytes) (alone : borderless (b'{' ∷ prefix') ≡ true) where
  abbrev prefix : Bytes
  prefix = b'{' ∷ prefix'

  -- Text without the prefix, up to the end or to a placeholder.
  abbrev pub Stops : Bytes → Type 0
  Stops x = (x ≡ []) ⊎ ((y : Bytes) × (x ≡ prefix ++ y))

  no_border_end :
      (d : ℕ) (q x : Bytes)
      → strip_prefix (d ∷ q) prefix ≡ none
      → length q ≤ length prefix'
      → Stops x
      → strip_prefix (d ∷ q) x ≡ none
  unfolding strip_prefix
  no_border_end d q x h le (inl ended) = rw ended refl
  no_border_end d q x h le (inr (y, placed)) =
      rw placed (mismatch-append (d ∷ q) prefix y h (omega arith))

  no_start :
      (c : ℕ) (a x : Bytes)
      → strip_prefix prefix (c ∷ a) ≡ none
      → Stops x
      → strip_prefix prefix (c ∷ a ++ x) ≡ none
  no_start c a x h stops = elim (cut_or_mismatch prefix (c ∷ a) x h) [
    | inl miss ↦ miss
    | inr (d, q, cut, left) ↦
        let rest : prefix' ≡ a ++ (d ∷ q) = ground (arith, cut) in
        let lone : no_border prefix (a ++ (d ∷ q)) ≡ true =
          rw (← rest) (unfold borderless in alone) in
        left
        ∙ no_border_end d q x (no_border_at prefix a d q lone)
            (ground (arith, ap length rest, length-append a (d ∷ q))) stops
  ]

  -- No placeholder starts inside a text that does not have the prefix.
  pub text-Clear :
      (tail a x : Bytes) → contains a prefix ≡ false → Stops x → Clear (prefix ++ tail) a x
  unfolding contains
  text-Clear tail [] x h stops = tt
  text-Clear tail (c ∷ a) x h stops =
      let (miss, rest) = contains_not c a prefix h in
      (
        mismatch-longer prefix tail (c ∷ a ++ x) (no_start c a x miss stops),
        text-Clear tail a x rest stops,
      )

  -- No placeholder starts at a proper end of the prefix.
  suffix-Clear :
      (tail a y : Bytes)
      → no_border prefix a ≡ true
      → length a ≤ length prefix
      → Clear (prefix ++ tail) a y
  unfolding no_border
  suffix-Clear tail [] y h le = tt
  suffix-Clear tail (c ∷ a) y h le = elim (Option-cases (strip_prefix (c ∷ a) prefix)) [
    | inl miss ↦ (
      mismatch-longer prefix tail (c ∷ a ++ y) (mismatch_sym (c ∷ a) prefix y miss le),
      suffix-Clear tail a y (ground (arith, miss, h)) (omega arith),
    )
    | inr (r, hit) ↦ absurd (ground (arith, hit, h))
  ]

  -- Nor inside another placeholder.
  pub placeholder-Clear :
      (i j : ℕ) (x : Bytes) → i ≢ j → Clear (placeholder prefix i) (placeholder prefix j) x
  unfolding placeholder
  placeholder-Clear i j x other =
      let old = decimal i ++ placeholder_suffix in
      let new = decimal j ++ placeholder_suffix in
      Clear-append (prefix ++ old) prefix new x
        ((
          strip_same prefix old (new ++ x) ∙ numbers_differ i j x other,
          suffix-Clear old prefix' (new ++ x) (unfold borderless in alone) (omega arith),
        ))
        (rest-Clear (prefix' ++ old) new x (
          All-append _ (decimal j) placeholder_suffix
            (All-map (decimal j) (λ c d. ground (arith, d)) (decimal-IsDigit j)) (omega arith)))
