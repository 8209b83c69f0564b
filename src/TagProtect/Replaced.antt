-- ===== src/TagProtect/Replaced.antt =====
-- What strings.ReplaceAll of a placeholder does, for internal/tagprotect/tagprotect.go.
use headroom_go.Common.{
  ℕ, ◌+◌, ◌-◌, ◌≤◌, ◌≡◌, inl, inr, refl, sym, ap, ◌∙◌, true, false, List, [], ◌∷◌, ◌++◌,
  Option-cases, none, some, arith, Bytes, strip_prefix, strip_prefix-append, contains, length, drop,
  slice, take-append-drop, drop-drop,
}
use headroom_go.TagProtect.{replace_from, restore_tags}
use headroom_go.TagProtect.Occurs.{contains_not, replace_from_skip}

strip_prefix-left : (p a b : Bytes) → strip_prefix p (a ++ b) ≡ none → strip_prefix p a ≡ none
unfolding strip_prefix
strip_prefix-left [] a b h = absurd (ground (arith, h))
strip_prefix-left (c ∷ p) [] b h = refl
strip_prefix-left (c ∷ p) (d ∷ a) b h = ground (arith, strip_prefix-left p a b)

contains_start : (s p : Bytes) → contains s p ≡ false → strip_prefix p s ≡ none
unfolding contains
contains_start [] p h = elim (Option-cases (strip_prefix p [])) [
  | inl miss ↦ miss
  | inr (r, hit) ↦ absurd (ground (arith, hit, h))
]
contains_start (c ∷ s) p h = (contains_not c s p h).0

start_contains : (s p r : Bytes) → strip_prefix p s ≡ some r → contains s p ≡ true
unfolding contains
start_contains [] p r h = ground (arith, h)
start_contains (c ∷ s) p r h = ground (arith, h)

-- A part of a text does not have what the whole text does not have.
pub contains-left : (a b p : Bytes) → contains (a ++ b) p ≡ false → contains a p ≡ false
unfolding contains
contains-left [] b p h = ground (arith, strip_prefix-left p [] b (contains_start b p h))
contains-left (c ∷ a) b p h =
    let (miss, rest) = contains_not c (a ++ b) p h in
    ground (arith, strip_prefix-left p (c ∷ a) b miss, contains-left a b p rest)

pub contains-right : (a b p : Bytes) → contains (a ++ b) p ≡ false → contains b p ≡ false
unfolding contains
contains-right [] b p h = h
contains-right (c ∷ a) b p h = contains-right a b p (contains_not c (a ++ b) p h).1

pub contains_middle : (a p b : Bytes) → contains (a ++ (p ++ b)) p ≡ true
unfolding contains
contains_middle [] p b = start_contains (p ++ b) p b (strip_prefix-append p b)
contains_middle (c ∷ a) p b = elim (Option-cases (strip_prefix p (c ∷ (a ++ (p ++ b))))) [
  | inl miss ↦ ground (arith, miss, contains_middle a p b)
  | inr (r, hit) ↦ ground (arith, hit)
]

-- The whole of an occurrence is replaced.
pub replace_occurrence :
    (c : ℕ) (old' new x : Bytes)
    → replace_from 0 (c ∷ old') new ((c ∷ old') ++ x) ≡ new ++ replace_from 0 (c ∷ old') new x
unfolding replace_from
replace_occurrence c old' new x =
    let here : strip_prefix (c ∷ old') (c ∷ (old' ++ x)) ≡ some x =
      strip_prefix-append (c ∷ old') x in
    let size : length (c ∷ old') - 1 ≡ length old' = omega arith in
    let rest : replace_from (length (c ∷ old') - 1) (c ∷ old') new (old' ++ x)
        ≡ replace_from 0 (c ∷ old') new x =
      rw size (replace_from_skip (c ∷ old') new old' x) in
    ground (arith, here, rest)

pub drop_split : (a b : ℕ) (text : Bytes) → a ≤ b → slice a b text ++ drop b text ≡ drop a text
drop_split a b text le =
    let whole : a + (b - a) ≡ b = omega arith in
    let tail : drop b text ≡ drop (b - a) (drop a text) =
      ap (λ k. drop k text) (sym whole) ∙ sym (drop-drop a (b - a) text) in
    rw tail (take-append-drop (b - a) (drop a text))

pub restore_occurrence :
    (hidden original w w' : Bytes) (blocks : List (Bytes × Bytes))
    → contains w hidden ≡ true
    → replace_from 0 hidden original w ≡ w'
    → restore_tags w ((hidden, original) ∷ blocks) ≡ restore_tags w' blocks
unfolding restore_tags
restore_occurrence hidden original w w' blocks found e =
    rw found (ap (λ t. restore_tags t blocks) e)
