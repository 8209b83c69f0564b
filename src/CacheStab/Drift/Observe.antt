-- ===== src/CacheStab/Drift/Observe.antt =====
-- What an observation says.
use headroom_go.Common.{
  ℕ, zero, suc, ◌≡◌, ◌↔◌, refl, Option-cases, inl, inr, false, List, [], ◌∷◌, Option, none, some,
  arith, Bytes, get_elem?,
}
use headroom_go.Common.Maps
use headroom_go.Common.Maps.{get-put, get-put_self}
use headroom_go.CacheStab.Drift.{
  StructuralHash, early_window_drifted, drifted, has_drifted, DriftState, evict, observe,
}

-- Every settled slot of the previous window is unchanged.
abbrev pub Extends : List (Option ℕ) → List (Option ℕ) → Type 0
Extends prev curr = (i p : ℕ) → get_elem? prev i ≡ some (some p) → get_elem? curr i ≡ some (some p)

early_window_sound :
    (prev curr : List (Option ℕ)) → early_window_drifted prev curr ≡ false → Extends prev curr
unfolding early_window_drifted
early_window_sound [] curr h i p e = cc
early_window_sound (none ∷ prev) [] h zero p e = cc
early_window_sound (none ∷ prev) [] h (suc i) p e =
    absurd (missing (early_window_sound prev [] h i p e))
  where
    missing : get_elem? {A = Option ℕ} [] i ≡ some (some p) → ⊥
    missing x = cc
early_window_sound (none ∷ prev) (c ∷ curr) h zero p e = cc
early_window_sound (none ∷ prev) (c ∷ curr) h (suc i) p e = early_window_sound prev curr h i p e
early_window_sound (some q ∷ prev) [] h i p e = cc
early_window_sound (some q ∷ prev) (none ∷ curr) h i p e = cc
early_window_sound (some q ∷ prev) (some c ∷ curr) h zero p e = ground (arith, e, h)
early_window_sound (some q ∷ prev) (some c ∷ curr) h (suc i) p e =
    early_window_sound prev curr (ground (arith, h)) i p e

early_window_complete :
    (prev curr : List (Option ℕ)) → Extends prev curr → early_window_drifted prev curr ≡ false
unfolding early_window_drifted
early_window_complete [] curr h = refl
early_window_complete (none ∷ prev) [] h =
    early_window_complete prev [] (λ i p e. absurd (missing (h (suc i) p e)))
  where
    missing : {p : ℕ} → ◌≡◌ {A = Option (Option ℕ)} none (some (some p)) → ⊥
    missing x = cc
early_window_complete (none ∷ prev) (c ∷ curr) h =
    early_window_complete prev curr (λ i p e. h (suc i) p e)
early_window_complete (some q ∷ prev) [] h = absurd (missing (h 0 q refl))
  where
    missing : {p : ℕ} → ◌≡◌ {A = Option (Option ℕ)} none (some (some p)) → ⊥
    missing x = cc
early_window_complete (some q ∷ prev) (none ∷ curr) h = absurd (missing (h 0 q refl))
  where
    missing : {p : ℕ} → ◌≡◌ {A = Option (Option ℕ)} (some none) (some (some p)) → ⊥
    missing x = cc
early_window_complete (some q ∷ prev) (some c ∷ curr) h =
    ground (arith, h 0 q refl, early_window_complete prev curr (λ i p e. h (suc i) p e))

-- The prefix that the provider cached is still a prefix of what is sent.
abbrev pub PrefixHeld : StructuralHash → StructuralHash → Type 0
PrefixHeld prev curr =
    (prev.system ≡ curr.system)
    × (prev.tools ≡ curr.tools)
    × Extends prev.early_messages curr.early_messages

has_drifted-dims :
    (prev curr : StructuralHash)
    → (has_drifted (record { first_request = false; dims = drifted prev curr }) ≡ false) ↔ (
        (prev.system ≡ curr.system)
        × (prev.tools ≡ curr.tools)
        × (early_window_drifted prev.early_messages curr.early_messages ≡ false))
unfolding has_drifted drifted
has_drifted-dims prev curr = ((λ h. ground (arith, h)), (λ h. ground (arith, h)))

get-observe :
    (st : DriftState) (key : Bytes) (curr : StructuralHash)
    → Maps.get (observe st key curr).1.seen key ≡ some curr
unfolding observe evict
get-observe st key curr = elim (Option-cases (Maps.get st.seen key)) [
  | inl miss ↦ rw (miss, observe, get-put_self)
  | inr (prev, hit) ↦ rw (hit, observe, get-put_self)
]

observe_known :
    (st : DriftState) (key : Bytes) (prev curr : StructuralHash)
    (known : Maps.get st.seen key ≡ some prev)
    → (observe st key curr).0 ≡ record { first_request = false; dims = drifted prev curr }
unfolding observe evict
observe_known st key prev curr known = rw (known, observe)

drift_free-PrefixHeld :
    (prev curr : StructuralHash)
    → (has_drifted (record { first_request = false; dims = drifted prev curr }) ≡ false)
      ↔ PrefixHeld prev curr
drift_free-PrefixHeld prev curr =
    let dims = has_drifted-dims prev curr in
    (
      (λ h.
          let (a, b, c) = dims.0 h in
          (a, b, early_window_sound prev.early_messages curr.early_messages c)),
      (λ h.
          let (a, b, c) = h in
          dims.1 (a, b, early_window_complete prev.early_messages curr.early_messages c)),
    )

-- The second of two consecutive observations of a session, whatever was known before, is no first
-- request and reports drift exactly unless system and tools are unchanged and every settled slot
-- of the window is: a conversation that only grew reports none.
pub observe_again :
    (st : DriftState) (key : Bytes) (a b : StructuralHash)
    → ((observe (observe st key a).1 key b).0.first_request ≡ false)
      × ((has_drifted (observe (observe st key a).1 key b).0 ≡ false) ↔ PrefixHeld a b)
observe_again st key a b =
    rw (observe_known (observe st key a).1 key a b (get-observe st key a))
      (refl, drift_free-PrefixHeld a b)
