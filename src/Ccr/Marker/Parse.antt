-- ===== src/Ccr/Marker/Parse.antt =====
-- What ParseMarker accepts.
use headroom_go.Common.{
  ℕ, zero, suc, ◌≡◌, ◌↔◌, inl, inr, ap, subst, refl, true, [], ◌∷◌, ◌++◌, Option-cases, none, some,
  arith, Bytes, length, All, text_eq, text_eq_iff, text_eq_refl, strip_prefix, strip_prefix-append,
  strip_prefix_sound,
}
use headroom_go.Ccr.Marker.{
  marker_prefix, marker_suffix, hash_len, marker_for, marker_for_cell, marker_for_lossy, is_hex,
  take_hex, hash_after, whole, parse_marker,
}

-- 24 lowercase hexadecimal digits, the form of every key of the store.
abbrev pub IsHash : Bytes → Type 0
IsHash h = (length h ≡ hash_len) × All (λ c. is_hex c ≡ true) h

pub take_hex-append :
    (h s : Bytes) → All (λ c. is_hex c ≡ true) h → take_hex (length h) (h ++ s) ≡ some (h, s)
unfolding take_hex
take_hex-append [] s a = refl
take_hex-append (c ∷ h) s a = rw (take_hex-append h s a.1, a.0)

pub take_hex_sound :
    (n : ℕ) (s h r : Bytes)
    → take_hex n s ≡ some (h, r)
    → (s ≡ h ++ r) × (length h ≡ n) × All (λ c. is_hex c ≡ true) h
unfolding take_hex
take_hex_sound zero s [] r e = ground arith
take_hex_sound zero s (c ∷ h) r e = ground arith
take_hex_sound (suc n) [] h r e = cc
take_hex_sound (suc n) (c ∷ s) [] r e = ground arith
take_hex_sound (suc n) (c ∷ s) (d ∷ h) r e = ground (arith, take_hex_sound n s h r)

pub hash_after-append : (p h s : Bytes) → IsHash h → hash_after p (p ++ (h ++ s)) ≡ some (h, s)
unfolding hash_after
hash_after-append p h s (len, hex) = ground (
  arith,
  strip_prefix-append p (h ++ s),
  let e : take_hex hash_len (h ++ s) ≡ some (h, s) =
        subst (λ (n : ℕ). take_hex n (h ++ s) ≡ some (h, s)) len (take_hex-append h s hex) in
      e,
)

pub hash_after_sound :
    (p s h r : Bytes) → hash_after p s ≡ some (h, r) → (s ≡ p ++ (h ++ r)) × IsHash h
unfolding hash_after
hash_after_sound p s h r e = elim (Option-cases (strip_prefix p s)) [
  | inl miss ↦ absurd (ground (arith, e))
  | inr (t, hit) ↦
      let found = take_hex_sound hash_len t h r (ground (arith, e, hit)) in
      (rw (strip_prefix_sound p s t hit) (ap (λ (x : Bytes). p ++ x) found.0), (found.1, found.2))
]

parse_marker-marker_for : (h : Bytes) → IsHash h → parse_marker (marker_for h) ≡ some h
unfolding parse_marker marker_for whole
parse_marker-marker_for h hash =
    rw (hash_after-append marker_prefix h marker_suffix hash) (rw text_eq_refl)

parse_marker_sound : (s h : Bytes) → parse_marker s ≡ some h → (s ≡ marker_for h) × IsHash h
unfolding parse_marker marker_for whole
parse_marker_sound s h e = elim (Option-cases (hash_after marker_prefix s)) [
  | inl miss ↦ absurd (ground (arith, e))
  | inr ((h', r), hit) ↦
      let found = hash_after_sound marker_prefix s h' r hit in
      ground (arith, found, text_eq_iff r marker_suffix)
]

-- ParseMarker returns a hash exactly when the text is the canonical marker of it and the hash is 24
-- lowercase hexadecimal digits.
pub parse_marker_iff : (s h : Bytes) → (parse_marker s ≡ some h) ↔ ((s ≡ marker_for h) × IsHash h)
parse_marker_iff s h = (parse_marker_sound s h, λ p. rw p.0 (parse_marker-marker_for h p.1))

-- The cell and lossy markers of a hash are not canonical, whatever their kind and counts.
pub parse_marker_rejects :
    (h kind : Bytes) (n : ℕ)
    → IsHash h
    → (parse_marker (marker_for_cell h kind n) ≡ none)
      × (parse_marker (marker_for_lossy h n) ≡ none)
unfolding parse_marker marker_for_cell marker_for_lossy whole text_eq
parse_marker_rejects h kind n hash =
    (rw (hash_after-append marker_prefix h _ hash), rw (hash_after-append marker_prefix h _ hash))
