-- ===== src/LiveZone/Steps.antt =====
-- What rounds of a pass add: replacements, and as many outcomes that report a rewrite.
use headroom_go.Common.{
  ℕ, ◌+◌, ◌≡◌, refl, sym, ap, ◌∙◌, Bool, true, false, ◌||◌, List, [], ◌∷◌, ◌++◌, append-nil,
  append_assoc, arith, Bytes, codes, text_eq, length, if◌then◌else◌,
}
use headroom_go.LiveZone.Splice.{Replacement}
use headroom_go.LiveZone.Plan.{PlanSlot}
use headroom_go.LiveZone.Pass.{BlockOutcome, Pass}
use headroom_go.LiveZone.Picked.{Spans, Picked, nothing, taken, Picked-none, Picked-append}

-- An outcome that reports a rewrite.
abbrev pub is_rewriting : Bytes → Bool
is_rewriting action =
    text_eq action (codes "compressed")
    || text_eq action (codes "replayed")
    || text_eq action (codes "image_resized")

abbrev pub is_rewrite : BlockOutcome → Bool
is_rewrite o = is_rewriting o.action

abbrev pub rewrites : List BlockOutcome → ℕ
rewrites [] = 0
rewrites (o ∷ os) = (if is_rewrite o then 1 else 0) + rewrites os

rewrites-append : (xs ys : List BlockOutcome) → rewrites (xs ++ ys) ≡ rewrites xs + rewrites ys
rewrites-append [] ys = omega arith
rewrites-append (x ∷ xs) ys = omega (arith, rewrites-append xs ys)

-- From p to q replacements of these slots were added, each with an outcome that reports it.
pub record Steps (ss : List PlanSlot) (p q : Pass) : Type 0 where
  pub new : List Replacement
  pub added : q.reps ≡ p.reps ++ new
  pub picked : Picked new ss
  pub counted : rewrites q.outcomes ≡ rewrites p.outcomes + length new

pub length-append : (xs ys : List Replacement) → length (xs ++ ys) ≡ length xs + length ys
length-append [] ys = omega arith
length-append (x ∷ xs) ys = omega (arith, length-append xs ys)

pub Steps-append :
    (xs ys : List PlanSlot) (p q r : Pass) → Steps xs p q → Steps ys q r → Steps (xs ++ ys) p r
Steps-append xs ys p q r h k = record {
  new = h.new ++ k.new;
  added =
      k.added
      ∙ (ap (λ (l : List Replacement). l ++ k.new) h.added ∙ append_assoc p.reps h.new k.new);
  picked = Picked-append h.new k.new xs ys h.picked k.picked;
  counted = omega (arith, h.counted, k.counted, length-append h.new k.new);
}

-- A round that changes neither.
pub still-Steps :
    (ss : List PlanSlot) (p q : Pass)
    → q.reps ≡ p.reps
    → rewrites q.outcomes ≡ rewrites p.outcomes
    → Steps ss p q
still-Steps ss p q e f = record {
  new = [];
  added = e ∙ sym (append-nil p.reps);
  picked = Picked-none ss;
  counted = omega (arith, f);
}

-- A round that only notes an outcome.
pub quiet-Steps :
    (ss : List PlanSlot) (p q : Pass) (o : BlockOutcome)
    → q.reps ≡ p.reps
    → q.outcomes ≡ p.outcomes ++ (o ∷ [])
    → is_rewrite o ≡ false
    → Steps ss p q
quiet-Steps ss p q o e f other =
    still-Steps ss p q e
      (ap rewrites f ∙ (rewrites-append p.outcomes (o ∷ []) ∙ (rw other (omega arith))))

-- A round that rewrites a slot.
pub take-Steps :
    (s : PlanSlot) (p q : Pass) (r : Replacement) (o : BlockOutcome)
    → Spans r s
    → q.reps ≡ p.reps ++ (r ∷ [])
    → q.outcomes ≡ p.outcomes ++ (o ∷ [])
    → is_rewrite o ≡ true
    → Steps (s ∷ []) p q
take-Steps s p q r o spans e f same = record {
  new = r ∷ [];
  added = e;
  picked = taken r s [] [] spans nothing;
  counted = ap rewrites f ∙ (rewrites-append p.outcomes (o ∷ []) ∙ (rw same refl));
}
