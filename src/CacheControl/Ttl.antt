-- ===== src/CacheControl/Ttl.antt =====
-- What the walks warn of: a 1h marker behind a 5m marker of its field.
pub mod Warns
use headroom_go.Common.{
  ℕ, ◌+◌, ◌≡◌, ◌≢◌, ◌↔◌, ◌∙◌, refl, ap, sym, subst, Bool, Bool-cases, inl, inr, true, false, not,
  ◌&&◌, ◌||◌, List, [], ◌∷◌, ◌++◌, Option, none, some, arith, Bytes, codes, text_eq, text_eq_iff,
  if◌then◌else◌, All,
}
use headroom_go.Json.{Json, member, elements, is_object, string_of}
use headroom_go.CacheControl.{
  Field, messages, system, tools, Warning, Walk, start, ttl_1h, ttl_5m, check_ttl_order, raise,
  note_marker, walk_nested, walk_inner, walk_block, walk_blocks, walk_content, walk_messages,
  walk_markers, walk_list, all_messages, floor_of, compute_frozen_count,
}

abbrev marker_of : Json → Option Json
marker_of j = member (codes "cache_control") (some j)

-- The ttl of the marker of a value that has one.
abbrev own_ttls : Json → List Bytes
own_ttls j =
    if is_object (marker_of j) then string_of (member (codes "ttl") (marker_of j)) ∷ [] else []

abbrev pub list_ttls : List Json → List Bytes
list_ttls [] = []
list_ttls (j ∷ js) = own_ttls j ++ list_ttls js

abbrev pub ttls_of : Option (List Json) → List Bytes
ttls_of none = []
ttls_of (some js) = list_ttls js

-- Of a block of a message, or, of a tool_result without one, those of its content.
abbrev block_ttls : Json → List Bytes
block_ttls b =
    if is_object (marker_of b)
    then string_of (member (codes "ttl") (marker_of b)) ∷ []
    else if text_eq (string_of (member (codes "type") (some b))) (codes "tool_result")
    then ttls_of (elements (member (codes "content") (some b)))
    else []

abbrev blocks_ttls : List Json → List Bytes
blocks_ttls [] = []
blocks_ttls (b ∷ bs) = block_ttls b ++ blocks_ttls bs

abbrev content_ttls : Option (List Json) → List Bytes
content_ttls none = []
content_ttls (some bs) = blocks_ttls bs

abbrev messages_ttls : List Json → List Bytes
messages_ttls [] = []
messages_ttls (m ∷ ms) =
    content_ttls (elements (member (codes "content") (some m))) ++ messages_ttls ms

abbrev pub all_ttls : Option (List Json) → List Bytes
all_ttls none = []
all_ttls (some ms) = messages_ttls ms

-- Behind a 5m no 1h.
abbrev pub InOrder : List Bytes → Type 0
InOrder [] = Unit
InOrder (t ∷ ts) = (t ≡ ttl_5m → All (λ u. u ≢ ttl_1h) ts) × InOrder ts

-- The same as a test, after a 5m or not.
abbrev quiet : Bool → List Bytes → Bool
quiet seen [] = true
quiet seen (t ∷ ts) =
    let after = quiet true ts in
    let rest = quiet seen ts in
    if text_eq t ttl_5m then after else if text_eq t ttl_1h then not seen && rest else rest

abbrev has_5m : List Bytes → Bool
has_5m [] = false
has_5m (t ∷ ts) = text_eq t ttl_5m || has_5m ts

abbrev is_nil : List Warning → Bool
is_nil [] = true
is_nil (w ∷ ws) = false

is_nil-append : (xs ys : List Warning) → is_nil (xs ++ ys) ≡ is_nil xs && is_nil ys
is_nil-append [] ys = refl
is_nil-append (x ∷ xs) ys = refl

-- A walk that passed markers with these ttls.
abbrev Passed : Bool → Bool → Bool → Bool → List Bytes → Type 0
Passed seen nil seen' nil' ts = (nil' ≡ nil && quiet seen ts) × (seen' ≡ seen || has_5m ts)

quiet-append :
    (seen : Bool) (xs ys : List Bytes)
    → quiet seen (xs ++ ys) ≡ quiet seen xs && quiet (seen || has_5m xs) ys
quiet-append true [] ys = refl
quiet-append false [] ys = refl
quiet-append seen (x ∷ xs) ys = ground (arith, quiet-append seen xs ys, quiet-append true xs ys)

has_5m-append : (xs ys : List Bytes) → has_5m (xs ++ ys) ≡ has_5m xs || has_5m ys
has_5m-append [] ys = refl
has_5m-append (x ∷ xs) ys = ground (arith, has_5m-append xs ys)

Passed-append :
    (s n s' n' s'' n'' : Bool) (xs ys : List Bytes)
    → Passed s n s' n' xs
    → Passed s' n' s'' n'' ys
    → Passed s n s'' n'' (xs ++ ys)
Passed-append s n s' n' s'' n'' xs ys (a, b) (c, d) =
    ground (arith, a, b, c, d, quiet-append s xs ys, has_5m-append xs ys)

abbrev Walked : Walk → Walk → List Bytes → Type 0
Walked w w' ts = Passed w.seen_5m (is_nil w.warns) w'.seen_5m (is_nil w'.warns) ts

note_marker-Walked :
    (i : ℕ) (m : Option Json) (w : Walk)
    → Walked w (note_marker i m w) (string_of (member (codes "ttl") m) ∷ [])
unfolding note_marker check_ttl_order
note_marker-Walked i m w = (
  ground (arith, is_nil-append w.warns (check_ttl_order m w.seen_5m messages (some i)).0),
  ground arith,
)

same-Walked : (w : Walk) → Walked w w []
same-Walked w = ground arith

Walked-append :
    (w w' w'' : Walk) (xs ys : List Bytes)
    → Walked w w' xs
    → Walked w' w'' ys
    → Walked w w'' (xs ++ ys)
Walked-append w w' w'' xs ys h k = Passed-append _ _ _ _ _ _ xs ys h k

own-Walked :
    (i : ℕ) (j : Json) (w : Walk)
    → Walked w (if is_object (marker_of j) then note_marker i (marker_of j) w else w) (own_ttls j)
own-Walked i j w = elim (Bool-cases (is_object (marker_of j))) [
  | inl marked ↦ rw marked (note_marker-Walked i (marker_of j) w)
  | inr bare ↦ rw bare (same-Walked w)
]

walk_nested-Walked :
    (i : ℕ) (js : List Json) (w : Walk) → Walked w (walk_nested i js w) (list_ttls js)
unfolding walk_nested
walk_nested-Walked i [] w = same-Walked w
walk_nested-Walked i (j ∷ js) w =
    let w' : Walk = if is_object (marker_of j) then note_marker i (marker_of j) w else w in
    Walked-append w w' (walk_nested i js w') (own_ttls j) (list_ttls js) (own-Walked i j w)
      (walk_nested-Walked i js w')

walk_inner-Walked :
    (i : ℕ) (js : Option (List Json)) (w : Walk) → Walked w (walk_inner i js w) (ttls_of js)
unfolding walk_inner
walk_inner-Walked i none w = same-Walked w
walk_inner-Walked i (some js) w = walk_nested-Walked i js w

walk_block-Walked : (i : ℕ) (b : Json) (w : Walk) → Walked w (walk_block i b w) (block_ttls b)
unfolding walk_block
walk_block-Walked i b w = elim (Bool-cases (is_object (marker_of b))) [
  | inl marked ↦ rw marked (note_marker-Walked i (marker_of b) w)
  | inr bare ↦
      elim (Bool-cases
        (text_eq (string_of (member (codes "type") (some b))) (codes "tool_result"))) [
          | inl result ↦
              rw (bare, result)
                (walk_inner-Walked i (elements (member (codes "content") (some b))) w)
          | inr other ↦ rw (bare, other) (same-Walked w)
        ]
]

walk_blocks-Walked :
    (i : ℕ) (bs : List Json) (w : Walk) → Walked w (walk_blocks i bs w) (blocks_ttls bs)
unfolding walk_blocks
walk_blocks-Walked i [] w = same-Walked w
walk_blocks-Walked i (b ∷ bs) w =
    Walked-append w (walk_block i b w) (walk_blocks i bs (walk_block i b w)) (block_ttls b)
      (blocks_ttls bs) (walk_block-Walked i b w) (walk_blocks-Walked i bs (walk_block i b w))

walk_content-Walked :
    (i : ℕ) (bs : Option (List Json)) (w : Walk) → Walked w (walk_content i bs w) (content_ttls bs)
unfolding walk_content
walk_content-Walked i none w = same-Walked w
walk_content-Walked i (some bs) w = walk_blocks-Walked i bs w

walk_messages-Walked :
    (i : ℕ) (ms : List Json) (w : Walk) → Walked w (walk_messages i ms w) (messages_ttls ms)
unfolding walk_messages
walk_messages-Walked i [] w = same-Walked w
walk_messages-Walked i (m ∷ ms) w =
    let bs = elements (member (codes "content") (some m)) in
    Walked-append w (walk_content i bs w) (walk_messages (i + 1) ms (walk_content i bs w))
      (content_ttls bs) (messages_ttls ms) (walk_content-Walked i bs w)
      (walk_messages-Walked (i + 1) ms (walk_content i bs w))

walk_markers-quiet :
    (field : Field) (js : List Json) (seen : Bool)
    → is_nil (walk_markers field js seen) ≡ quiet seen (list_ttls js)
unfolding walk_markers check_ttl_order
walk_markers-quiet field [] seen = refl
walk_markers-quiet field (j ∷ js) seen = ground (
  arith,
  walk_markers-quiet field js seen,
  walk_markers-quiet field js true,
  is_nil-append (check_ttl_order (marker_of j) seen field none).0
      (walk_markers field js (check_ttl_order (marker_of j) seen field none).1),
)

walk_list-quiet :
    (js : Option (List Json)) (field : Field)
    → is_nil (walk_list js field) ≡ quiet false (ttls_of js)
unfolding walk_list
walk_list-quiet none field = refl
walk_list-quiet (some js) field = walk_markers-quiet field js false

all_messages-quiet :
    (ms : Option (List Json)) → is_nil (all_messages ms).warns ≡ quiet false (all_ttls ms)
unfolding all_messages
all_messages-quiet none = refl
all_messages-quiet (some ms) = (walk_messages-Walked 0 ms start).0
