-- ===== src/CacheControl/Floor.antt =====
-- The floor is the least one above every message that carries a marker.
use headroom_go.Common.{
  ℕ, zero, suc, ◌+◌, ◌-◌, ◌≤◌, ◌<◌, ◌≡◌, ◌⊎◌, inl, inr, refl, Bool, Bool-cases, true, false, ◌||◌,
  ltb, List, [], ◌∷◌, Option, none, some, arith, codes, text_eq, if◌then◌else◌, get_elem?,
}
use headroom_go.Json.{Json, member, elements, is_object, string_of}
use headroom_go.CacheControl.{
  Walk, start, raise, note_marker, walk_nested, walk_inner, walk_block, walk_blocks, walk_content,
  walk_messages, all_messages, floor_of, compute_frozen_count,
}

abbrev pub any {ℓ} : {A : Type ℓ} → (A → Bool) → List A → Bool
any p [] = false
any p (x ∷ xs) = p x || any p xs

abbrev pub any_of {ℓ} : {A : Type ℓ} → (A → Bool) → Option (List A) → Bool
any_of p none = false
any_of p (some xs) = any p xs

-- A value has a cache_control member that is an object.
abbrev pub is_marked : Json → Bool
is_marked j = is_object (member (codes "cache_control") (some j))

-- A block is marked, or it is a tool_result with a marked element in its content.
abbrev pub block_carries : Json → Bool
block_carries b =
    is_marked b
    || (if text_eq (string_of (member (codes "type") (some b))) (codes "tool_result")
        then any_of is_marked (elements (member (codes "content") (some b)))
        else false)

abbrev pub carries : Json → Bool
carries msg = any_of block_carries (elements (member (codes "content") (some msg)))

highest-note_marker :
    (i : ℕ) (m : Option Json) (w : Walk) → (note_marker i m w).highest ≡ raise i w.highest
unfolding note_marker
highest-note_marker i m w = refl

raise_idem : (i : ℕ) (h : Option ℕ) → raise i (raise i h) ≡ raise i h
unfolding raise
raise_idem i none = ground arith
raise_idem i (some h) = ground arith

highest-walk_nested :
    (i : ℕ) (elems : List Json) (w : Walk)
    → (walk_nested i elems w).highest
      ≡ (if any is_marked elems then raise i w.highest else w.highest)
unfolding walk_nested
highest-walk_nested i [] w = refl
highest-walk_nested i (e ∷ elems) w =
    let m = member (codes "cache_control") (some e) in
    ground (
      arith,
      highest-walk_nested i elems w,
      highest-walk_nested i elems (note_marker i m w),
      highest-note_marker i m w,
      raise_idem i w.highest,
    )

highest-walk_inner :
    (i : ℕ) (elems : Option (List Json)) (w : Walk)
    → (walk_inner i elems w).highest
      ≡ (if any_of is_marked elems then raise i w.highest else w.highest)
unfolding walk_inner
highest-walk_inner i none w = refl
highest-walk_inner i (some elems) w = highest-walk_nested i elems w

highest-walk_block :
    (i : ℕ) (b : Json) (w : Walk)
    → (walk_block i b w).highest ≡ (if block_carries b then raise i w.highest else w.highest)
unfolding walk_block
highest-walk_block i b w =
    let m = member (codes "cache_control") (some b) in
    ground (
      arith,
      highest-note_marker i m w,
      highest-walk_inner i (elements (member (codes "content") (some b))) w,
    )

highest-walk_blocks :
    (i : ℕ) (blocks : List Json) (w : Walk)
    → (walk_blocks i blocks w).highest
      ≡ (if any block_carries blocks then raise i w.highest else w.highest)
unfolding walk_blocks
highest-walk_blocks i [] w = refl
highest-walk_blocks i (b ∷ blocks) w = ground (
  arith,
  highest-walk_blocks i blocks (walk_block i b w),
  highest-walk_block i b w,
  raise_idem i w.highest,
)

highest-walk_content :
    (i : ℕ) (blocks : Option (List Json)) (w : Walk)
    → (walk_content i blocks w).highest
      ≡ (if any_of block_carries blocks then raise i w.highest else w.highest)
unfolding walk_content
highest-walk_content i none w = refl
highest-walk_content i (some blocks) w = highest-walk_blocks i blocks w

-- The number of messages up to and including the last that carries a marker.
abbrev pub frozen_prefix : List Json → ℕ
frozen_prefix [] = 0
frozen_prefix (m ∷ ms) =
    if ltb 0 (frozen_prefix ms) then frozen_prefix ms + 1 else if carries m then 1 else 0

highest-walk_messages :
    (i : ℕ) (ms : List Json) (w : Walk)
    → floor_of w.highest ≤ i
    → floor_of (walk_messages i ms w).highest
      ≡ (if ltb 0 (frozen_prefix ms) then i + frozen_prefix ms else floor_of w.highest)
unfolding walk_messages floor_of raise
highest-walk_messages i [] w h = refl
highest-walk_messages i (m ∷ ms) w h =
    let blocks = elements (member (codes "content") (some m)) in
    let w' = walk_content i blocks w in
    let step = highest-walk_content i blocks w in
    let low : floor_of w'.highest ≤ i + 1 = ground (arith, step) in
    ground (arith, step, highest-walk_messages (i + 1) ms w' low)

-- The least number that is above the index of every message that carries a marker.
pub record IsFloor (ms : List Json) (n : ℕ) : Type 0 where
  pub covers : (i : ℕ) (m : Json) → get_elem? ms i ≡ some m → carries m ≡ true → i < n
  pub least : (n ≡ 0) ⊎ ((m : Json) × (get_elem? ms (n - 1) ≡ some m) × (carries m ≡ true))

covers :
    (ms : List Json) (i : ℕ) (m : Json)
    → get_elem? ms i ≡ some m
    → carries m ≡ true
    → i < frozen_prefix ms
covers [] i m e c = cc
covers (x ∷ ms) zero m e c = ground (arith, e, c)
covers (x ∷ ms) (suc i) m e c = ground (arith, covers ms i m e c)

least :
    (ms : List Json)
    → (frozen_prefix ms ≡ 0)
      ⊎ ((m : Json) × (get_elem? ms (frozen_prefix ms - 1) ≡ some m) × (carries m ≡ true))
least [] = inl refl
least (x ∷ ms) = elim (least ms) [
  | inl nothing ↦ elim (Bool-cases (carries x)) [
    | inl c ↦ inr (x, ground (arith, nothing, c, first x ms), c)
    | inr plain ↦ inl (ground (arith, nothing, plain))
  ]
  | inr (m, found, c) ↦
      let lower = covers ms (frozen_prefix ms - 1) m found c in
      let next : frozen_prefix (x ∷ ms) - 1 ≡ suc (frozen_prefix ms - 1) = ground (arith, lower) in
      inr (m, rw next found, c)
]
  where
    first : (x : Json) (ms : List Json) → get_elem? (x ∷ ms) 0 ≡ some x
    first x ms = refl

-- For a body that is an object with a list of messages, the frozen count is the least number above
-- the index of every message that carries a marker, at the top level or inside a tool_result: so
-- no marker is left above the floor, and markers in system and tools do not raise it.
pub compute_frozen_count-IsFloor :
    (root : Option Json) (ms : List Json)
    → is_object root ≡ true
    → elements (member (codes "messages") root) ≡ some ms
    → IsFloor ms (compute_frozen_count root).0
unfolding compute_frozen_count all_messages
compute_frozen_count-IsFloor root ms obj e =
    let exact : (compute_frozen_count root).0 ≡ frozen_prefix ms = ground (
      arith,
      obj,
      e,
      highest-walk_messages 0 ms start (unfold floor_of in omega arith),
      zero_prefix ms,
    ) in
    rw exact (record { covers = covers ms; least = least ms })
  where
    zero_prefix : (ms : List Json) → 0 + frozen_prefix ms ≡ frozen_prefix ms
    zero_prefix ms = omega arith
