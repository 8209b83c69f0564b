-- ===== src/CacheStab/Volatile/Found.antt =====
-- How much is found, and when nothing is.
use headroom_go.Common.{
  ℕ, zero, suc, ◌+◌, ◌-◌, ◌≤◌, ◌≡◌, ◌↔◌, refl, ap, subst, Bool, Bool-cases, inl, inr, false, ◌&&◌,
  List, [], ◌∷◌, ◌++◌, Option, none, some, Bytes, codes, arith, leb, length, take, drop,
}
use headroom_go.Json.{
  Json, str, lit, arr, obj, Items, nil, cons, Fields, end, field, member, elements, is_object,
}
use headroom_go.CacheStab.Volatile.{
  Finding, looks_like_iso8601, looks_like_uuid_v4, is_full, scan_here, scan_from, scan_string,
  at_index, at_key, key_finding, scan_recursive, scan_items, scan_fields, scan_value, scan_messages,
  scan_list, detect_volatile,
}

length-append : (xs ys : List Finding) → length (xs ++ ys) ≡ length xs + length ys
length-append [] ys = omega arith
length-append (x ∷ xs) ys = omega (arith, length-append xs ys)

abbrev Few : List Finding → Type 0
Few out = length out ≤ 10

scan_here-one : (s location : Bytes) → length (scan_here s location).0 ≤ 1
unfolding scan_here
scan_here-one s location = ground arith

scan_from-Few :
    (k : ℕ) (s location : Bytes) (out : List Finding) → Few out → Few (scan_from k s location out)
unfolding scan_from is_full
scan_from-Few k [] location out h = h
scan_from-Few (suc k) (b ∷ s) location out h = scan_from-Few k s location out h
scan_from-Few zero (b ∷ s) location out h = elim (Bool-cases (is_full out)) [
  | inl full ↦ rw (full, scan_from) h
  | inr room ↦
      rw (room, scan_from)
        (scan_from-Few ((scan_here (b ∷ s) location).1 - 1) s location
          (out ++ (scan_here (b ∷ s) location).0)
          (ground (
            arith,
            room,
            length-append out (scan_here (b ∷ s) location).0,
            scan_here-one (b ∷ s) location,
          )))
]

key_finding-one :
    (key : Bytes) (sub : Json) (location : Bytes) → length (key_finding key sub location) ≤ 1
unfolding key_finding
key_finding-one key sub location = ground arith

key_finding-Few :
    (key : Bytes) (sub : Json) (location : Bytes) (out : List Finding)
    → is_full out ≡ false
    → Few (out ++ key_finding key sub location)
unfolding is_full
key_finding-Few key sub location out room = ground (
  arith,
  room,
  length-append out (key_finding key sub location),
  key_finding-one key sub location,
)

mutual
  unfolding scan_recursive scan_items scan_fields scan_string

  scan_recursive-Few :
      (v : Json) (location : Bytes) (out : List Finding)
      → Few out
      → Few (scan_recursive v location out)
  scan_recursive-Few (str index raw text) location out h = elim (Bool-cases (is_full out)) [
    | inl full ↦ rw full h
    | inr room ↦ rw room (scan_from-Few 0 text location out h)
  ]
  scan_recursive-Few (lit raw text) location out h = h
  scan_recursive-Few (arr raw xs) location out h = scan_items-Few xs 0 location out h
  scan_recursive-Few (obj raw fs) location out h = scan_fields-Few fs location out h

  scan_items-Few :
      (xs : Items) (i : ℕ) (location : Bytes) (out : List Finding)
      → Few out
      → Few (scan_items xs i location out)
  scan_items-Few nil i location out h = h
  scan_items-Few (cons x xs) i location out h = elim (Bool-cases (is_full out)) [
    | inl full ↦ rw full h
    | inr room ↦ rw room (
        scan_items-Few xs (i + 1) location (scan_recursive x (at_index location i) out)
          (scan_recursive-Few x (at_index location i) out h))
  ]

  scan_fields-Few :
      (fs : Fields) (location : Bytes) (out : List Finding)
      → Few out
      → Few (scan_fields fs location out)
  scan_fields-Few end location out h = h
  scan_fields-Few (field key sub fs) location out h = elim (Bool-cases (is_full out)) [
    | inl full ↦ rw full h
    | inr room ↦
        let h' : Few (out ++ key_finding key sub location) =
          key_finding-Few key sub location out room in
        elim (Bool-cases (is_full (out ++ key_finding key sub location))) [
          | inl full' ↦ rw (room, full') h'
          | inr room' ↦
              rw (room, room')
                (scan_fields-Few fs location
                  (scan_recursive sub (at_key location key) (out ++ key_finding key sub location))
                  (scan_recursive-Few sub (at_key location key)
                    (out ++ key_finding key sub location) h'))
        ]
  ]

scan_value-Few :
    (v : Option Json) (location : Bytes) (out : List Finding)
    → Few out
    → Few (scan_value v location out)
unfolding scan_value
scan_value-Few none location out h = h
scan_value-Few (some v) location out h = elim (Bool-cases (is_full out)) [
  | inl full ↦ rw full h
  | inr room ↦ rw room (scan_recursive-Few v location out h)
]

scan_messages-Few :
    (msgs : List Json) (i : ℕ) (out : List Finding) → Few out → Few (scan_messages msgs i out)
unfolding scan_messages
scan_messages-Few [] i out h = h
scan_messages-Few (msg ∷ msgs) i out h = elim (Bool-cases (is_full out)) [
  | inl full ↦ rw full h
  | inr room ↦ rw room (
      scan_messages-Few msgs (i + 1) _
        (scan_value-Few (member (codes "content") (some msg)) _ out h))
]

-- Of any body there are at most ten findings.
pub length-detect_volatile : (root : Option Json) → length (detect_volatile root) ≤ 10
unfolding detect_volatile
length-detect_volatile root = elim (Bool-cases (is_object root)) [
  | inr no_object ↦ rw no_object (omega arith)
  | inl object ↦ rw object (all (elements (member (codes "messages") root)))
]
  where
    first : Few (scan_value (member (codes "system") root) (codes "system") [])
    first = scan_value-Few (member (codes "system") root) (codes "system") [] (omega arith)

    all :
        (o : Option (List Json))
        → Few (scan_list o (scan_value (member (codes "system") root) (codes "system") []))
    all none = unfold scan_list in first
    all (some msgs) = unfold scan_list in scan_messages-Few msgs 0 _ first

scan_from-grows :
    (k : ℕ) (s location : Bytes) (out : List Finding)
    → length out ≤ length (scan_from k s location out)
unfolding scan_from
scan_from-grows k [] location out = omega arith
scan_from-grows (suc k) (b ∷ s) location out = scan_from-grows k s location out
scan_from-grows zero (b ∷ s) location out =
    let (found, width) = scan_here (b ∷ s) location in
    ground (arith, scan_from-grows (width - 1) s location (out ++ found), length-append out found)

abbrev starts_timestamp : Bytes → Bool
starts_timestamp s = leb 19 (length s) && looks_like_iso8601 (take 19 s)

abbrev starts_uuid : Bytes → Bool
starts_uuid s = leb 36 (length s) && looks_like_uuid_v4 (take 36 s)

-- At no position does a timestamp or a UUID start.
abbrev pub Silent : Bytes → Type 0
Silent s = (i : ℕ) → (starts_timestamp (drop i s) ≡ false) × (starts_uuid (drop i s) ≡ false)

scan_here_silent :
    (s location : Bytes)
    → starts_timestamp s ≡ false
    → starts_uuid s ≡ false
    → scan_here s location ≡ ([], 1)
unfolding scan_here
scan_here_silent s location a b = rw (a, b) refl

-- Where the first finding is kept, the text is silent at its start.
silent_here :
    (b : ℕ) (s location : Bytes)
    → scan_from 0 (b ∷ s) location [] ≡ []
    → (starts_timestamp (b ∷ s) ≡ false) × (starts_uuid (b ∷ s) ≡ false)
unfolding scan_from is_full
silent_here b s location h = by_found (scan_here (b ∷ s) location) refl h
  where
    by_found :
        (r : List Finding × ℕ)
        → scan_here (b ∷ s) location ≡ r
        → scan_from (r.1 - 1) s location ([] ++ r.0) ≡ []
        → (starts_timestamp (b ∷ s) ≡ false) × (starts_uuid (b ∷ s) ≡ false)
    by_found ([], width) e h = unfold scan_here in (ground (arith, e), ground (arith, e))
    by_found (f ∷ fs, width) e h = absurd (
        omega (
          arith,
          scan_from-grows (width - 1) s location (f ∷ fs),
          ap (λ (l : List Finding). length l) h,
        ))

scan_from-Silent : (s location : Bytes) → scan_from 0 s location [] ≡ [] → Silent s
unfolding scan_from is_full
scan_from-Silent [] location h zero = (refl, refl)
scan_from-Silent [] location h (suc i) = (refl, refl)
scan_from-Silent (b ∷ s) location h zero = silent_here b s location h
scan_from-Silent (b ∷ s) location h (suc i) =
    let here = silent_here b s location h in
    scan_from-Silent s location
      (subst (λ r. scan_from (r.1 - 1) s location ([] ++ r.0) ≡ [])
        (scan_here_silent (b ∷ s) location here.0 here.1) h)
      i

Silent-scan_from : (s location : Bytes) → Silent s → scan_from 0 s location [] ≡ []
unfolding scan_from is_full
Silent-scan_from [] location h = refl
Silent-scan_from (b ∷ s) location h =
    rw (scan_here_silent (b ∷ s) location (h 0).0 (h 0).1)
      (Silent-scan_from s location (λ i. h (suc i)))

-- A text gives no finding exactly if at none of its positions a timestamp or a version 4 UUID starts.
pub scan_string-Silent : (s location : Bytes) → (scan_string s location [] ≡ []) ↔ Silent s
unfolding scan_string
scan_string-Silent s location = (scan_from-Silent s location, Silent-scan_from s location)
