-- ===== src/CacheStab/Volatile.antt =====
-- internal/cachestab/volatile.go: timestamps, UUIDs and identifiers in a body, which change per request.
pub mod Found
use headroom_go.Common.{
  ℕ, zero, suc, ◌+◌, ◌-◌, ◌==◌, leb, ltb, Bool, true, false, not, ◌&&◌, ◌||◌, List, [], ◌∷◌, ◌++◌,
  Option, none, some, Bytes, codes, text_eq, contains, if◌then◌else◌, length, take, slice,
  get_elem?,
}
use headroom_go.Ccr.Marker.{decimal}
use headroom_go.Json.{
  Json, str, lit, arr, obj, Items, nil, cons, Fields, end, field, member, elements, is_object,
  string_of, raw_of,
}

abbrev pub max_findings : ℕ
max_findings = 10

abbrev pub sample_bytes : ℕ
sample_bytes = 80

abbrev pub id_field_needles : List Bytes
id_field_needles =
    codes "request_id" ∷ codes "trace_id" ∷ codes "session_id" ∷ codes "correlation_id" ∷ []

pub data VolatileKind : Type 0 where
  timestamp uuid id_field : VolatileKind

pub record Finding : Type 0 where
  pub kind : VolatileKind
  pub location : Bytes
  pub sample : Bytes

-- w[i], which the callers know to be there.
byte_at : ℕ → Bytes → ℕ
byte_at i w = elim (get_elem? w i) [ none ↦ 0 | some b ↦ b ]

is_digits : Bytes → Bool
is_digits [] = true
is_digits (c ∷ cs) = leb b'0' c && leb c b'9' && is_digits cs

is_hex_byte : ℕ → Bool
is_hex_byte c =
    (leb b'0' c && leb c b'9') || (leb b'a' c && leb c b'f') || (leb b'A' c && leb c b'F')

all_hex : Bytes → Bool
all_hex [] = true
all_hex (c ∷ cs) = is_hex_byte c && all_hex cs

unfoldable pub looks_like_iso8601 : Bytes → Bool
unfolding is_digits byte_at
looks_like_iso8601 w =
    not (ltb (length w) 19)
    && is_digits (slice 0 4 w)
    && byte_at 4 w == b'-'
    && is_digits (slice 5 7 w)
    && byte_at 7 w == b'-'
    && is_digits (slice 8 10 w)
    && (byte_at 10 w == b'T' || byte_at 10 w == b't' || byte_at 10 w == 32)
    && is_digits (slice 11 13 w)
    && byte_at 13 w == b':'
    && is_digits (slice 14 16 w)
    && byte_at 16 w == b':'
    && is_digits (slice 17 19 w)

-- The variant digit.
is_variant : ℕ → Bool
is_variant c = c == b'8' || c == b'9' || c == b'a' || c == b'b' || c == b'A' || c == b'B'

unfoldable pub looks_like_uuid_v4 : Bytes → Bool
unfolding byte_at all_hex is_hex_byte is_variant
looks_like_uuid_v4 w =
    not (ltb (length w) 36)
    && byte_at 8 w == b'-'
    && byte_at 13 w == b'-'
    && byte_at 18 w == b'-'
    && byte_at 23 w == b'-'
    && byte_at 14 w == b'4'
    && is_variant (byte_at 19 w)
    && all_hex (slice 0 8 w)
    && all_hex (slice 9 13 w)
    && all_hex (slice 14 18 w)
    && all_hex (slice 19 23 w)
    && all_hex (slice 24 36 w)

-- b&0xC0 != 0x80
is_rune_start : ℕ → Bool
is_rune_start b = not (leb 128 b && ltb b 192)

cut_from : ℕ → Bytes → ℕ
cut_from zero s = 0
cut_from (suc n) s =
    let rest = cut_from n s in if is_rune_start (byte_at (suc n) s) then suc n else rest

-- The three bytes are an ellipsis.
unfoldable pub truncate : Bytes → Bytes
unfolding cut_from is_rune_start byte_at
truncate s =
    if leb (length s) sample_bytes
    then s
    else take (cut_from sample_bytes s) s ++ (226 ∷ 128 ∷ 166 ∷ [])

unfoldable pub is_full : List Finding → Bool
is_full out = leb max_findings (length out)

-- What the loop of scanString finds at the start of a text, and how many bytes it goes on.
unfoldable pub scan_here : Bytes → Bytes → List Finding × ℕ
scan_here s location =
    if leb 19 (length s) && looks_like_iso8601 (take 19 s)
    then (record { kind = timestamp; location = location; sample = truncate (take 19 s) } ∷ [], 19)
    else if leb 36 (length s) && looks_like_uuid_v4 (take 36 s)
    then (record { kind = uuid; location = location; sample = truncate (take 36 s) } ∷ [], 36)
    else ([], 1)

-- The first bytes, as many as the number says, were part of the last finding.
unfoldable pub scan_from : ℕ → Bytes → Bytes → List Finding → List Finding
scan_from skip [] location out = out
scan_from (suc skip) (b ∷ s) location out = scan_from skip s location out
scan_from zero (b ∷ s) location out =
    let (found, width) = scan_here (b ∷ s) location in
    let rest = scan_from (width - 1) s location (out ++ found) in if is_full out then out else rest

unfoldable pub scan_string : Bytes → Bytes → List Finding → List Finding
scan_string s location out = scan_from 0 s location out

-- strings.ToLower, as far as it makes ASCII letters that the needles have: of the other characters
-- only U+0130, the bytes 196 and 176, becomes one, an i.
to_lower : Bytes → Bytes
to_lower [] = []
to_lower (b ∷ []) = (if leb b'A' b && leb b b'Z' then b + 32 else b) ∷ []
to_lower (b ∷ c ∷ s) =
    let skipped = to_lower s in
    let rest = to_lower (c ∷ s) in
    if b == 196 && c == 176
    then b'i' ∷ skipped
    else (if leb b'A' b && leb b b'Z' then b + 32 else b) ∷ rest

any_needle : List Bytes → Bytes → Bool
any_needle [] key = false
any_needle (n ∷ ns) key = contains key n || any_needle ns key

unfoldable pub is_id_named_key : Bytes → Bool
unfolding to_lower any_needle
is_id_named_key key = any_needle id_field_needles (to_lower key)

unfoldable pub is_empty_value : Json → Bool
is_empty_value (str index raw text) = text_eq text []
is_empty_value (lit raw text) = text_eq raw (codes "null")
is_empty_value (arr raw nil) = true
is_empty_value (arr raw (cons x xs)) = false
is_empty_value (obj raw end) = true
is_empty_value (obj raw (field k v fs)) = false

unfoldable pub sample_of : Json → Bytes
sample_of (str index raw text) = text
sample_of v = raw_of (some v)

-- location[i] and location.key
at_index : Bytes → ℕ → Bytes
at_index location i = location ++ (codes "[" ++ (decimal i ++ codes "]"))

at_key : Bytes → Bytes → Bytes
at_key location key = location ++ (codes "." ++ key)

-- The finding of an identifier's key.
key_finding : Bytes → Json → Bytes → List Finding
key_finding key sub location =
    if is_id_named_key key && not (is_empty_value sub)
    then record {
      kind = id_field;
      location = at_key location key;
      sample = truncate (sample_of sub);
    }
      ∷ []
    else []

unfoldable mutual
  unfolding at_index at_key key_finding

  pub scan_recursive : Json → Bytes → List Finding → List Finding
  scan_recursive (str index raw text) location out =
      if is_full out then out else scan_string text location out
  scan_recursive (lit raw text) location out = out
  scan_recursive (arr raw xs) location out = scan_items xs 0 location out
  scan_recursive (obj raw fs) location out = scan_fields fs location out

  pub scan_items : Items → ℕ → Bytes → List Finding → List Finding
  scan_items nil i location out = out
  scan_items (cons x xs) i location out =
      let rest = scan_items xs (i + 1) location (scan_recursive x (at_index location i) out) in
      if is_full out then out else rest

  pub scan_fields : Fields → Bytes → List Finding → List Finding
  scan_fields end location out = out
  scan_fields (field key sub fs) location out =
      let out' = out ++ key_finding key sub location in
      let rest = scan_fields fs location (scan_recursive sub (at_key location key) out') in
      if is_full out then out else if is_full out' then out' else rest

unfoldable pub scan_value : Option Json → Bytes → List Finding → List Finding
scan_value none location out = out
scan_value (some v) location out = if is_full out then out else scan_recursive v location out

unfoldable pub scan_messages : List Json → ℕ → List Finding → List Finding
unfolding at_index at_key
scan_messages [] i out = out
scan_messages (msg ∷ msgs) i out =
    let location = at_key (at_index (codes "messages") i) (codes "content") in
    let rest =
      scan_messages msgs (i + 1) (scan_value (member (codes "content") (some msg)) location out) in
    if is_full out then out else rest

scan_list : Option (List Json) → List Finding → List Finding
scan_list none out = out
scan_list (some msgs) out = scan_messages msgs 0 out

-- The root is what ParseBytes returns of the body.
unfoldable pub detect_volatile : Option Json → List Finding
unfolding scan_list
detect_volatile root =
    if is_object root
    then scan_list (elements (member (codes "messages") root))
        (scan_value (member (codes "system") root) (codes "system") [])
    else []
