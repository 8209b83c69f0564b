-- ===== src/LiveZone/Planned.antt =====
-- What a replacement of a body may be.
use headroom_go.Common.{
  ℕ, ◌≡◌, ◌⊎◌, inl, inr, refl, true, List, [], ◌∷◌, Option, Bytes, All, All-append,
}
use headroom_go.Json.{Json}
use headroom_go.LiveZone.Splice.{Replacement}
use headroom_go.LiveZone.Plan.{PlanSlot, writes, plan_blocks}
use headroom_go.LiveZone.Encode.{encode_json_string}
use headroom_go.LiveZone.Pass.{Pass, replace}

abbrev pub Among : PlanSlot → List PlanSlot → Type 0
Among s [] = ⊥
Among s (x ∷ xs) = (s ≡ x) ⊎ Among s xs

All-Among_wider :
    (x : PlanSlot) (ss xs : List PlanSlot)
    → All (λ s. Among s xs) ss
    → All (λ s. Among s (x ∷ xs)) ss
All-Among_wider x [] xs h = tt
All-Among_wider x (s ∷ ss) xs h = (inr h.0, All-Among_wider x ss xs h.1)

pub All-Among : (ss : List PlanSlot) → All (λ s. Among s ss) ss
All-Among [] = tt
All-Among (s ∷ ss) = (inl refl, All-Among_wider s ss ss (All-Among ss))

module _ (root : Option Json) (Reached : ℕ → Type 0) where
  -- A replacement is the literal of some text, in the place of a slot of a kind that may be written,
  -- of a message that is reached.
  pub record IsPlanned (r : Replacement) : Type 0 where
    pub message : ℕ
    pub slot : PlanSlot
    pub planned : Among slot (plan_blocks root message)
    pub may_write : writes slot ≡ true
    pub start_of : r.start ≡ slot.start
    pub end_of : r.end ≡ slot.end
    pub text : Bytes
    pub literal : r.repl ≡ encode_json_string text
    pub reached : Reached message

  abbrev pub Inv : Pass → Type 0
  Inv p = All IsPlanned p.reps

  pub replace-Inv :
      (k : ℕ) (s : PlanSlot) (text : Bytes) (b a : ℕ) (p : Pass)
      → Reached k
      → Among s (plan_blocks root k)
      → writes s ≡ true
      → Inv p
      → Inv (replace s text b a p)
  unfolding replace
  replace-Inv k s text b a p reached among may inv = All-append IsPlanned p.reps _ inv (
    record {
      message = k;
      slot = s;
      planned = among;
      may_write = may;
      start_of = refl;
      end_of = refl;
      text = text;
      literal = refl;
      reached = reached;
    },
    tt,
  )
