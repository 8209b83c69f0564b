-- ===== src/TagProtect/Opened.antt =====
-- The spans and the open tags that the walk of internal/tagprotect/tagprotect.go keeps.

use headroom_go.Common.{
  ℕ, ◌≤◌, ◌<◌, ◌≡◌, ◌⊎◌, inl, inr, Bool, Bool-cases, List, [], ◌∷◌, some, arith, Bytes, ltb,
  text_eq, keep, All,
}
use headroom_go.TagProtect.{Span, OpenTag, match_open}

-- The spans end at `i` at most, apart and the last one first.
abbrev pub Down : ℕ → List Span → Type 0
Down i [] = Unit
Down i (s ∷ ss) = (s.end ≤ i) × (s.start ≤ s.end) × Down s.start ss

pub Down-le : (ss : List Span) (i j : ℕ) → i ≤ j → Down i ss → Down j ss
Down-le [] i j le d = tt
Down-le (s ∷ ss) i j le d = (omega arith, d.1, d.2)

-- No span crosses a place.
abbrev Apart : ℕ → List Span → Type 0
Apart o ss = All (λ s. (s.end ≤ o) ⊎ (o ≤ s.start)) ss

-- The open tags start before `i`, in order and outside the spans.
abbrev pub Opened : ℕ → List Span → List OpenTag → Type 0
Opened i ss [] = Unit
Opened i ss (t ∷ stack) = (t.open_start < i) × Apart t.open_start ss × Opened t.open_start ss stack

pub Opened-le :
    (ss : List Span) (stack : List OpenTag) (i j : ℕ)
    → i ≤ j
    → Opened i ss stack
    → Opened j ss stack
Opened-le ss [] i j le o = tt
Opened-le ss (t ∷ stack) i j le o = (omega arith, o.1, o.2)

pub Down-Apart : (ss : List Span) (i j : ℕ) → j ≤ i → Down j ss → Apart i ss
Down-Apart [] i j le d = tt
Down-Apart (s ∷ ss) i j le d = (inl (omega arith), Down-Apart ss i s.start (omega arith) d.2)

Down-keep : (p : Span → Bool) (ss : List Span) (i : ℕ) → Down i ss → Down i (keep p ss)
Down-keep p [] i d = tt
Down-keep p (s ∷ ss) i d = elim (Bool-cases (p s)) [
  | inl kept ↦ rw kept (d.0, d.1, Down-keep p ss s.start d.2)
  | inr dropped ↦
      rw dropped (Down-le (keep p ss) s.start i (omega arith) (Down-keep p ss s.start d.2))
]

-- What a block keeps of the spans ends before it.
pub keep-Down :
    (ss : List Span) (i o : ℕ) → Down i ss → Apart o ss → Down o (keep (λ s. ltb s.start o) ss)
keep-Down [] i o d a = tt
keep-Down (s ∷ ss) i o d a = elim (Bool-cases (ltb s.start o)) [
  | inl before ↦ rw before (ground (arith, Down-keep (λ x. ltb x.start o) ss s.start d.2))
  | inr after ↦ rw after (keep-Down ss s.start o d.2 a.1)
]

keep-All {κ} : (P : Span → Type κ) (p : Span → Bool) (ss : List Span) → All P ss → All P (keep p ss)
keep-All P p [] a = tt
keep-All P p (s ∷ ss) a = elim (Bool-cases (p s)) [
  | inl yes' ↦ rw yes' (a.0, keep-All P p ss a.1)
  | inr no' ↦ rw no' (keep-All P p ss a.1)
]

pub keep-Opened :
    (p : Span → Bool) (ss : List Span) (stack : List OpenTag) (i : ℕ)
    → Opened i ss stack
    → Opened i (keep p ss) stack
keep-Opened p ss [] i o = tt
keep-Opened p ss (t ∷ stack) i o =
    (o.0, keep-All _ p ss o.1, keep-Opened p ss stack t.open_start o.2)

-- A span that starts at or after `i` crosses no tag that is open there.
pub Opened-cons :
    (s : Span) (ss : List Span) (stack : List OpenTag) (i : ℕ)
    → i ≤ s.start
    → Opened i ss stack
    → Opened i (s ∷ ss) stack
Opened-cons s ss [] i le o = tt
Opened-cons s ss (t ∷ stack) i le o =
    (o.0, (inr (omega arith), o.1), Opened-cons s ss stack t.open_start (omega arith) o.2)

pub match_open-Opened :
    (name : Bytes) (ss : List Span) (stack below : List OpenTag) (t : OpenTag) (i : ℕ)
    → match_open name stack ≡ some (t, below)
    → Opened i ss stack
    → Opened i ss (t ∷ below)
unfolding match_open
match_open-Opened name ss [] below t i h o = absurd (ground (arith, h))
match_open-Opened name ss (x ∷ stack) below t i h o =
    elim (Bool-cases (text_eq x.name_lower name)) [
      | inl found ↦
          let top : x ≡ t = ground (arith, found, h) in
          let rest : stack ≡ below = ground (arith, found, h) in rw (← top, ← rest) o
      | inr other ↦
          let rest : match_open name stack ≡ some (t, below) = ground (arith, other, h) in
          match_open-Opened name ss stack below t i rest
            (Opened-le ss stack x.open_start i (omega arith) o.2)
    ]
