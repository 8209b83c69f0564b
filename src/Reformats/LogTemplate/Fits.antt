-- ===== src/Reformats/LogTemplate/Fits.antt =====
-- The invariant of a run of internal/reformats/log_template.go: its lines fit its template.
use headroom_go.Common.{
  ◌≡◌, ◌⊎◌, inl, inr, refl, ap, ◌∙◌, Bool-cases, true, false, not, ◌&&◌, List, [], ◌∷◌, map, some,
  arith, Bytes, if◌then◌else◌, text_eq, text_eq_iff, length, All, All-append, All-map,
}
use headroom_go.Common.Space.{fields}
use headroom_go.Pipeline.{Float}
use headroom_go.Reformats.LogTemplate.{
  Slot, Run, start_run, merge_into_template, variants, extends_run, extend_run,
}
use headroom_go.Reformats.LogTemplate.Read.{with_token, fill}

-- A template's constants are the tokens of a line at their positions.
abbrev pub Fits : List Slot → List Bytes → Type 0
Fits [] [] = Unit
Fits [] (t ∷ ts) = ⊥
Fits (s ∷ ss) [] = ⊥
Fits (s ∷ ss) (t ∷ ts) = ((s.wild ≡ true) ⊎ (s.tok ≡ t)) × Fits ss ts

variants_wild :
    (s : Slot) (ss : List Slot) (t : Bytes) (ts : List Bytes)
    → s.wild ≡ true
    → variants (s ∷ ss) (t ∷ ts) ≡ t ∷ variants ss ts
unfolding variants
variants_wild s ss t ts wild = rw wild refl

fill_wild :
    (s : Slot) (ss : List Slot) (v : Bytes) (vs : List Bytes)
    → s.wild ≡ true
    → fill (s ∷ ss) (v ∷ vs) ≡ with_token v (fill ss vs)
fill_wild s ss v vs wild = rw wild refl

variants_fixed :
    (s : Slot) (ss : List Slot) (t : Bytes) (ts : List Bytes)
    → s.wild ≡ false
    → variants (s ∷ ss) (t ∷ ts) ≡ variants ss ts
unfolding variants
variants_fixed s ss t ts fixed = rw fixed refl

fill_fixed :
    (s : Slot) (ss : List Slot) (vs : List Bytes)
    → s.wild ≡ false
    → fill (s ∷ ss) vs ≡ with_token s.tok (fill ss vs)
fill_fixed s ss vs fixed = rw fixed refl

pub fill-variants :
    (ss : List Slot) (ts : List Bytes) → Fits ss ts → fill ss (variants ss ts) ≡ some ts
unfolding variants
fill-variants [] [] h = refl
fill-variants [] (t ∷ ts) h = absurd h
fill-variants (s ∷ ss) [] h = absurd h
fill-variants (s ∷ ss) (t ∷ ts) (h, rest) = elim (Bool-cases s.wild) [
  | inl wild ↦
      ap (fill (s ∷ ss)) (variants_wild s ss t ts wild)
      ∙ fill_wild s ss t (variants ss ts) wild
      ∙ ap (with_token t) (fill-variants ss ts rest)
  | inr fixed ↦
      ap (fill (s ∷ ss)) (variants_fixed s ss t ts fixed)
      ∙ fill_fixed s ss (variants ss ts) fixed
      ∙ ap (with_token s.tok) (fill-variants ss ts rest)
      ∙ ap (λ x. some (x ∷ ts)) (constant h fixed)
]
  where
    constant : (s.wild ≡ true) ⊎ (s.tok ≡ t) → s.wild ≡ false → s.tok ≡ t
    constant (inl wild) fixed = absurd (ground (arith, wild, fixed))
    constant (inr same) fixed = same

constants-Fits : (ts : List Bytes) → Fits (map (λ t. record { tok = t; wild = false }) ts) ts
constants-Fits [] = tt
constants-Fits (t ∷ ts) = (inr refl, constants-Fits ts)

abbrev merged_slot : Slot → Bytes → Slot
merged_slot s t = if not s.wild && not (text_eq s.tok t) then record s { wild = true } else s

merged_slot_old :
    (s : Slot) (t u : Bytes)
    → (s.wild ≡ true) ⊎ (s.tok ≡ u)
    → ((merged_slot s t).wild ≡ true) ⊎ ((merged_slot s t).tok ≡ u)
merged_slot_old s t u h = elim (Bool-cases (not s.wild && not (text_eq s.tok t))) [
  | inl differs ↦ rw differs (inl refl)
  | inr same ↦ rw same h
]

merged_slot_new :
    (s : Slot) (t : Bytes) → ((merged_slot s t).wild ≡ true) ⊎ ((merged_slot s t).tok ≡ t)
merged_slot_new s t = elim (Bool-cases s.wild) [
  | inl wild ↦ rw wild (inl refl)
  | inr fixed ↦ elim (Bool-cases (text_eq s.tok t)) [
    | inl same ↦ rw (fixed, same) (inr ((text_eq_iff s.tok t).0 same))
    | inr other ↦ rw (fixed, other) (inl refl)
  ]
]

-- Merging keeps the lines that fit.
merge-Fits_old :
    (ss : List Slot) (ts us : List Bytes) → Fits ss us → Fits (merge_into_template ss ts) us
unfolding merge_into_template
merge-Fits_old [] ts us h = h
merge-Fits_old (s ∷ ss) [] us h = h
merge-Fits_old (s ∷ ss) (t ∷ ts) [] h = h
merge-Fits_old (s ∷ ss) (t ∷ ts) (u ∷ us) (h, rest) =
    (merged_slot_old s t u h, merge-Fits_old ss ts us rest)

-- A merged line fits.
merge-Fits_new :
    (ss : List Slot) (ts : List Bytes) → length ts ≡ length ss → Fits (merge_into_template ss ts) ts
unfolding merge_into_template
merge-Fits_new [] [] e = tt
merge-Fits_new [] (t ∷ ts) e = absurd (omega (arith, e))
merge-Fits_new (s ∷ ss) [] e = absurd (omega (arith, e))
merge-Fits_new (s ∷ ss) (t ∷ ts) e = (merged_slot_new s t, merge-Fits_new ss ts (omega (arith, e)))

-- Every line of a run fits its template.
abbrev pub IsRun : Run → Type 0
IsRun r = All (λ l. Fits r.template (fields l)) r.lines

pub start_run-IsRun : (line : Bytes) → IsRun (start_run line)
unfolding start_run
start_run-IsRun line = (constants-Fits (fields line), tt)

pub extend_run-IsRun :
    (fl : Float) (sim : fl.F) (r : Run) (line : Bytes)
    → IsRun r
    → extends_run fl sim r (fields line) ≡ true
    → IsRun (extend_run fl sim line r)
unfolding extend_run extends_run
extend_run-IsRun fl sim r line h e =
    let same : length (fields line) ≡ length r.template = ground (arith, e) in
    All-append _ r.lines (line ∷ [])
      (All-map r.lines (λ l. merge-Fits_old r.template (fields line) (fields l)) h)
      (merge-Fits_new r.template (fields line) same, tt)
