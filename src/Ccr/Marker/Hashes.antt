-- ===== src/Ccr/Marker/Hashes.antt =====
-- HashesIn finds exactly the hashes that a text names.
use headroom_go.Common.{
  ℕ, zero, suc, ◌+◌, ◌-◌, ◌≤◌, ◌≡◌, ◌≢◌, ◌↔◌, ◌⊎◌, inl, inr, ap, refl, Bool, true, false, List, [],
  ◌∷◌, ◌++◌, Option-cases, Bool-cases, none, some, arith, Bytes, codes, length, text_eq,
  text_eq_iff, text_eq_refl, is_in, Distinct, is_some, if◌then◌else◌, strip_prefix,
}
use headroom_go.Common.Maps
use headroom_go.Common.Maps.{Map, get-put}
use headroom_go.Ccr.Marker.{
  marker_prefix, inline_prefix, hash_len, is_hex, take_hex, hash_after, match_at, find_all, dedupe,
  hashes_in,
}
use headroom_go.Ccr.Marker.Parse.{IsHash, hash_after-append, hash_after_sound}

-- A text names a hash: it stands somewhere behind a surface.
pub record Names (s h : Bytes) : Type 0 where
  pub before : Bytes
  pub surface : Bytes
  pub after : Bytes
  pub is_surface : (surface ≡ marker_prefix) ⊎ (surface ≡ inline_prefix)
  pub splits : s ≡ before ++ (surface ++ (h ++ after))
  pub is_hash : IsHash h

-- No x-then-y begins in the text, and x is not its last byte.
abbrev Clear : ℕ → ℕ → Bytes → Type 0
Clear x y [] = Unit
Clear x y (a ∷ []) = a ≢ x
Clear x y (a ∷ b ∷ q) = ((a ≢ x) ⊎ (b ≢ y)) × Clear x y (b ∷ q)

strip_prefix-Clear :
    (x y : ℕ) (q p t r : Bytes)
    → Clear x y q
    → strip_prefix q (p ++ (x ∷ (y ∷ t))) ≡ some r
    → (r' : Bytes) × (r ≡ r' ++ (x ∷ (y ∷ t))) × (length p ≡ length q + length r')
unfolding strip_prefix
strip_prefix-Clear x y [] p t r c e = (p, ground (arith, e), omega arith)
strip_prefix-Clear x y (a ∷ []) [] t r c e = absurd (ground (arith, c, e))
strip_prefix-Clear x y (a ∷ b ∷ q) [] t r c e = absurd (ground (arith, c.0, e))
strip_prefix-Clear x y (a ∷ []) (d ∷ p) t r c e = (p, ground (arith, e), omega arith)
strip_prefix-Clear x y (a ∷ b ∷ q) (d ∷ p) t r c e =
    let (r', rest, len) = strip_prefix-Clear x y (b ∷ q) p t r c.1 (ground (arith, e)) in
    (r', rest, omega arith)

take_hex_clear :
    (x : ℕ) (n : ℕ) (p t h r : Bytes)
    → is_hex x ≡ false
    → take_hex n (p ++ (x ∷ t)) ≡ some (h, r)
    → n ≤ length p
unfolding take_hex
take_hex_clear x zero p t h r hx e = omega arith
take_hex_clear x (suc n) [] t h r hx e = absurd (ground (arith, hx, e))
take_hex_clear x (suc n) (c ∷ p) t h r hx e = elim (Option-cases (take_hex n (p ++ (x ∷ t)))) [
  | inl miss ↦ absurd (ground (arith, e))
  | inr ((h', r'), hit) ↦ omega (arith, take_hex_clear x n p t h' r' hx hit)
]

-- The first two bytes of a surface.
abbrev Opens : ℕ → ℕ → Type 0
Opens x y = ((x ≡ b'<') × (y ≡ b'<')) ⊎ ((x ≡ b'h') × (y ≡ b'a'))

Opens-Clear_canonical : (x y : ℕ) → Opens x y → Clear x y (codes "<ccr:")
Opens-Clear_canonical x y h = ground arith

Opens-Clear_inline : (x y : ℕ) → Opens x y → Clear x y (codes "ash=")
Opens-Clear_inline x y h = ground arith

Opens-not_hex : (x y : ℕ) → Opens x y → is_hex x ≡ false
unfolding is_hex
Opens-not_hex x y h = ground arith

-- A match that begins before a surface ends before it.
hash_after-Clear :
    (c a : ℕ) (q p t h r : Bytes) (x y : ℕ)
    → Clear x y q
    → is_hex x ≡ false
    → hash_after (a ∷ q) (c ∷ (p ++ (x ∷ (y ∷ t)))) ≡ some (h, r)
    → length q + hash_len ≤ length p
unfolding hash_after strip_prefix
hash_after-Clear c a q p t h r x y clear hx e =
    elim (Option-cases (strip_prefix q (p ++ (x ∷ (y ∷ t))))) [
      | inl miss ↦ absurd (ground (arith, e))
      | inr (r', hit) ↦
          let (p', rest, len) = strip_prefix-Clear x y q p t r' clear hit in
          let e' : take_hex hash_len (p' ++ (x ∷ (y ∷ t))) ≡ some (h, r) = ground (arith, e) in
          omega (arith, take_hex_clear x hash_len p' (y ∷ t) h r hx e')
    ]

match_at_clear :
    (c : ℕ) (p t h : Bytes) (x y n : ℕ)
    → Opens x y
    → match_at (c ∷ (p ++ (x ∷ (y ∷ t)))) ≡ some (h, n)
    → n ≤ suc (length p)
unfolding match_at
match_at_clear c p t h x y n o e =
    elim (Option-cases (hash_after marker_prefix (c ∷ (p ++ (x ∷ (y ∷ t)))))) [
      | inr ((h', r'), hit) ↦
          let le =
            hash_after-Clear c b'<' (codes "<ccr:") p t h' r' x y (Opens-Clear_canonical x y o)
              (Opens-not_hex x y o) hit in
          ground (arith, e, le)
      | inl miss ↦ elim (Option-cases (hash_after inline_prefix (c ∷ (p ++ (x ∷ (y ∷ t)))))) [
        | inr ((h', r'), hit) ↦
            let le =
              hash_after-Clear c b'h' (codes "ash=") p t h' r' x y (Opens-Clear_inline x y o)
                (Opens-not_hex x y o) hit in
            ground (arith, e, le)
        | inl miss' ↦ absurd (ground (arith, e))
      ]
    ]

match_at-canonical : (h t : Bytes) → IsHash h → match_at (marker_prefix ++ (h ++ t)) ≡ some (h, 30)
unfolding match_at
match_at-canonical h t hash = ground (arith, hash_after-append marker_prefix h t hash)

hash_after-inline : (t : Bytes) → hash_after marker_prefix (inline_prefix ++ t) ≡ none
unfolding hash_after strip_prefix
hash_after-inline t = refl

match_at-inline : (h t : Bytes) → IsHash h → match_at (inline_prefix ++ (h ++ t)) ≡ some (h, 29)
unfolding match_at
match_at-inline h t hash =
    ground (arith, hash_after-append inline_prefix h t hash, hash_after-inline (h ++ t))

find_all_complete :
    (skip : ℕ) (p t h : Bytes) (x y n : ℕ)
    → Opens x y
    → match_at (x ∷ (y ∷ t)) ≡ some (h, n)
    → skip ≤ length p
    → is_in h (find_all skip (p ++ (x ∷ (y ∷ t)))) ≡ true
unfolding find_all is_in
find_all_complete zero [] t h x y n o m le = ground (arith, m, text_eq_refl h)
find_all_complete (suc skip) [] t h x y n o m le = absurd (omega arith)
find_all_complete (suc skip) (c ∷ p) t h x y n o m le =
    find_all_complete skip p t h x y n o m (omega arith)
find_all_complete zero (c ∷ p) t h x y n o m le =
    elim (Option-cases (match_at (c ∷ (p ++ (x ∷ (y ∷ t)))))) [
      | inl miss ↦ ground (arith, miss, find_all_complete 0 p t h x y n o m (omega arith))
      | inr ((h', n'), hit) ↦
          let le' = match_at_clear c p t h' x y n' o hit in
          ground (arith, hit, find_all_complete (n' - 1) p t h x y n o m (omega (arith, le')))
    ]

Names-cons : (c : ℕ) {s h : Bytes} → Names s h → Names (c ∷ s) h
Names-cons c n = record {
  before = c ∷ n.before;
  surface = n.surface;
  after = n.after;
  is_surface = n.is_surface;
  splits = ap (λ (x : Bytes). c ∷ x) n.splits;
  is_hash = n.is_hash;
}

match_at_sound : (s h : Bytes) (n : ℕ) → match_at s ≡ some (h, n) → Names s h
unfolding match_at
match_at_sound s h n e = elim (Option-cases (hash_after marker_prefix s)) [
  | inr ((h', r), hit) ↦
      let same : h' ≡ h = ground (arith, e) in
      let (splits, hash) = hash_after_sound marker_prefix s h r (ground (arith, hit)) in
      record {
        before = [];
        surface = marker_prefix;
        after = r;
        is_surface = inl refl;
        splits = splits;
        is_hash = hash;
      }
  | inl miss ↦ elim (Option-cases (hash_after inline_prefix s)) [
    | inr ((h', r), hit) ↦
        let same : h' ≡ h = ground (arith, e) in
        let (splits, hash) = hash_after_sound inline_prefix s h r (ground (arith, hit)) in
        record {
          before = [];
          surface = inline_prefix;
          after = r;
          is_surface = inr refl;
          splits = splits;
          is_hash = hash;
        }
    | inl miss' ↦ absurd (ground (arith, e))
  ]
]

find_all_sound : (skip : ℕ) (s h : Bytes) → is_in h (find_all skip s) ≡ true → Names s h
unfolding find_all is_in
find_all_sound skip [] h e = absurd (ground (arith, e))
find_all_sound (suc skip) (c ∷ s) h e = Names-cons c (find_all_sound skip s h e)
find_all_sound zero (c ∷ s) h e = elim (Option-cases (match_at (c ∷ s))) [
  | inl miss ↦ Names-cons c (find_all_sound 0 s h (ground (arith, e)))
  | inr ((h', n), hit) ↦ elim (Bool-cases (text_eq h' h)) [
    | inl same ↦ match_at_sound (c ∷ s) h n (ground (arith, hit, text_eq_iff h' h))
    | inr other ↦ Names-cons c (find_all_sound (n - 1) s h (ground (arith, e)))
  ]
]

is_in-dedupe :
    (seen : Map Bool) (ms : List Bytes) (h : Bytes)
    → is_in h (dedupe seen ms) ≡ (if is_some (Maps.get seen h) then false else is_in h ms)
unfolding dedupe is_in
is_in-dedupe seen [] h = ground arith
is_in-dedupe seen (m ∷ ms) h = ground (
  arith,
  is_in-dedupe seen ms h,
  is_in-dedupe (Maps.put seen m true) ms h,
  get-put seen m h true,
  text_eq_iff m h,
)

dedupe-Distinct : (seen : Map Bool) (ms : List Bytes) → Distinct (dedupe seen ms)
unfolding dedupe
dedupe-Distinct seen [] = tt
dedupe-Distinct seen (m ∷ ms) = elim (Option-cases (Maps.get seen m)) [
  | inl new ↦
      rw (new, dedupe)
        (
          ground (
            arith,
            is_in-dedupe (Maps.put seen m true) ms m,
            get-put seen m m true,
            text_eq_refl m,
          ),
          dedupe-Distinct (Maps.put seen m true) ms,
        )
  | inr (b, old) ↦ rw (old, dedupe) (dedupe-Distinct seen ms)
]

is_in-hashes_in : (s h : Bytes) → is_in h (hashes_in s) ≡ is_in h (find_all 0 s)
unfolding hashes_in Maps.get
is_in-hashes_in s h = is_in-dedupe [] (find_all 0 s) h

hashes_in_complete :
    (b p t h : Bytes)
    → (p ≡ marker_prefix) ⊎ (p ≡ inline_prefix)
    → IsHash h
    → is_in h (find_all 0 (b ++ (p ++ (h ++ t)))) ≡ true
hashes_in_complete b p t h (inl e) hash = rw e (
    find_all_complete 0 b _ h b'<' b'<' 30 (inl (refl, refl)) (match_at-canonical h t hash)
      (omega arith))
hashes_in_complete b p t h (inr e) hash = rw e (
    find_all_complete 0 b _ h b'h' b'a' 29 (inr (refl, refl)) (match_at-inline h t hash)
      (omega arith))

-- HashesIn returns each hash once, and a hash exactly when the text names it somewhere behind one
-- of the two surfaces and it is 24 lowercase hexadecimal digits: an earlier match never hides one.
pub hashes_in_lem :
    (s : Bytes)
    → Distinct (hashes_in s) × ((h : Bytes) → (is_in h (hashes_in s) ≡ true) ↔ Names s h)
hashes_in_lem s = (
  unfold hashes_in in dedupe-Distinct [] (find_all 0 s),
  λ h. (
    (λ e. find_all_sound 0 s h (rw (is_in-hashes_in s h) at e)),
    (λ n.
        rw (is_in-hashes_in s h, n.splits)
          (hashes_in_complete n.before n.surface n.after h n.is_surface n.is_hash)),
  ),
)
