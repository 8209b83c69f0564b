-- ===== src/LiveZone/Picked.antt =====
-- Replacements taken in order from the slots of a plan.
use headroom_go.Common.{
  ℕ, ◌≤◌, ◌<◌, ◌≡◌, ◌≢◌, ◌⊎◌, inl, inr, refl, sym, ap, ◌∙◌, List, [], ◌∷◌, ◌++◌, arith, All,
}
use headroom_go.LiveZone.Splice.{Replacement}
use headroom_go.LiveZone.Splice.Complete.{Disjoint, AllApart}
use headroom_go.LiveZone.Plan.{PlanSlot}
use headroom_go.LiveZone.Plan.Spans.{Chain, Chain-le}
use headroom_go.LiveZone.Planned.{Among}

abbrev pub Spans : Replacement → PlanSlot → Type 0
Spans r s = (r.start ≡ s.start) × (r.end ≡ s.end)

-- The replacements have the spans of some of the slots, in their order.
pub data Picked : List Replacement → List PlanSlot → Type 0 where
  nothing : Picked [] []
  passed_over :
      (s : PlanSlot) (rs : List Replacement) (ss : List PlanSlot)
      → Picked rs ss
      → Picked rs (s ∷ ss)
  taken :
      (r : Replacement) (s : PlanSlot) (rs : List Replacement) (ss : List PlanSlot)
      → Spans r s
      → Picked rs ss
      → Picked (r ∷ rs) (s ∷ ss)

pub Picked-none : (ss : List PlanSlot) → Picked [] ss
Picked-none [] = nothing
Picked-none (s ∷ ss) = passed_over s [] ss (Picked-none ss)

pub Picked-append :
    (rs rs' : List Replacement) (ss ss' : List PlanSlot)
    → Picked rs ss
    → Picked rs' ss'
    → Picked (rs ++ rs') (ss ++ ss')
Picked-append rs rs' ss ss' nothing k = k
Picked-append rs rs' ss ss' (passed_over s qs ts h) k =
    passed_over s (rs ++ rs') (ts ++ ss') (Picked-append rs rs' ts ss' h k)
Picked-append rs rs' ss ss' (taken r s qs ts e h) k =
    taken r s (qs ++ rs') (ts ++ ss') e (Picked-append qs rs' ts ss' h k)

-- What stands in a chain from a position on.
pub Picked-bounds :
    (lo hi : ℕ) (rs : List Replacement) (ss : List PlanSlot)
    → Picked rs ss
    → Chain lo hi ss
    → All (λ r. (lo ≤ r.start) × (r.start < r.end) × (r.end ≤ hi)) rs
Picked-bounds lo hi rs ss nothing c = tt
Picked-bounds lo hi rs ss (passed_over s qs ts h) (a, b, c) =
    weaken rs (Picked-bounds s.end hi rs ts h c)
  where
    weaken :
        (qs : List Replacement)
        → All (λ r. (s.end ≤ r.start) × (r.start < r.end) × (r.end ≤ hi)) qs
        → All (λ r. (lo ≤ r.start) × (r.start < r.end) × (r.end ≤ hi)) qs
    weaken [] h = tt
    weaken (q ∷ qs) ((x, y, z), h) = ((omega arith, y, z), weaken qs h)
Picked-bounds lo hi rs ss (taken r s qs ts (e, f) h) (a, b, c) = (
  (omega arith, omega arith, omega (arith, Chain-le s.end hi ts c)),
  weaken qs (Picked-bounds s.end hi qs ts h c),
)
  where
    weaken :
        (qs : List Replacement)
        → All (λ r. (s.end ≤ r.start) × (r.start < r.end) × (r.end ≤ hi)) qs
        → All (λ r. (lo ≤ r.start) × (r.start < r.end) × (r.end ≤ hi)) qs
    weaken [] h = tt
    weaken (q ∷ qs) ((x, y, z), h) = ((omega arith, y, z), weaken qs h)

pub Picked-AllApart :
    (lo hi : ℕ) (rs : List Replacement) (ss : List PlanSlot)
    → Picked rs ss
    → Chain lo hi ss
    → AllApart rs
Picked-AllApart lo hi rs ss nothing c = tt
Picked-AllApart lo hi rs ss (passed_over s qs ts h) (a, b, c) = Picked-AllApart s.end hi rs ts h c
Picked-AllApart lo hi rs ss (taken r s qs ts (e, f) h) (a, b, c) =
    (behind qs (Picked-bounds s.end hi qs ts h c), Picked-AllApart s.end hi qs ts h c)
  where
    behind :
        (qs : List Replacement)
        → All (λ r. (s.end ≤ r.start) × (r.start < r.end) × (r.end ≤ hi)) qs
        → All (Disjoint r) qs
    behind [] h = tt
    behind (q ∷ qs) ((x, y, z), h) = (inl (omega arith), behind qs h)

-- Every replacement has the span of a slot.
pub Picked-Among :
    (rs : List Replacement) (ss : List PlanSlot)
    → Picked rs ss
    → All (λ r. (s : PlanSlot) × Among s ss × Spans r s) rs
Picked-Among rs ss nothing = tt
Picked-Among rs ss (passed_over s qs ts h) = later rs (Picked-Among rs ts h)
  where
    later :
        (qs : List Replacement)
        → All (λ r. (x : PlanSlot) × Among x ts × Spans r x) qs
        → All (λ r. (x : PlanSlot) × Among x (s ∷ ts) × Spans r x) qs
    later [] h = tt
    later (q ∷ qs) ((x, a, e), h) = ((x, inr a, e), later qs h)
Picked-Among rs ss (taken r s qs ts e h) = ((s, inl refl, e), later qs (Picked-Among qs ts h))
  where
    later :
        (qs : List Replacement)
        → All (λ r. (x : PlanSlot) × Among x ts × Spans r x) qs
        → All (λ r. (x : PlanSlot) × Among x (s ∷ ts) × Spans r x) qs
    later [] h = tt
    later (q ∷ qs) ((x, a, e), h) = ((x, inr a, e), later qs h)

-- Two slots of a chain that start at different places are apart.
abbrev Apart : PlanSlot → PlanSlot → Type 0
Apart s t = (s.end ≤ t.start) ⊎ (t.end ≤ s.start)

Chain-Among :
    (lo hi : ℕ) (ss : List PlanSlot) (t : PlanSlot) → Chain lo hi ss → Among t ss → lo ≤ t.start
Chain-Among lo hi [] t c a = absurd a
Chain-Among lo hi (s ∷ ss) t (x, y, c) (inl e) = rw e x
Chain-Among lo hi (s ∷ ss) t (x, y, c) (inr a) = omega (arith, Chain-Among s.end hi ss t c a)

pub Chain-Apart :
    (lo hi : ℕ) (ss : List PlanSlot) (s t : PlanSlot)
    → Chain lo hi ss
    → Among s ss
    → Among t ss
    → s.start ≢ t.start
    → Apart s t
Chain-Apart lo hi [] s t c a b ne = absurd a
Chain-Apart lo hi (x ∷ ss) s t (p, q, c) (inl e) (inl f) ne =
    absurd (ne (ap (λ (z : PlanSlot). z.start) (e ∙ sym f)))
Chain-Apart lo hi (x ∷ ss) s t (p, q, c) (inl e) (inr b) ne =
    inl (rw e (Chain-Among x.end hi ss t c b))
Chain-Apart lo hi (x ∷ ss) s t (p, q, c) (inr a) (inl f) ne =
    inr (rw f (Chain-Among x.end hi ss s c a))
Chain-Apart lo hi (x ∷ ss) s t (p, q, c) (inr a) (inr b) ne = Chain-Apart x.end hi ss s t c a b ne
