-- ===== src/Ccr/Marker.antt =====
-- internal/ccr/marker.go: the marker surfaces, and the texts that the two regular expressions match.
pub mod Decimal
pub mod Parse
pub mod Hashes
use headroom_go.Common.{
  ℕ, zero, suc, ◌+◌, ◌-◌, ◌/◌, ◌%◌, Bool, true, false, ◌&&◌, ◌||◌, List, [], ◌∷◌, ◌++◌, Option,
  none, some, Bytes, codes, leb, ◌==◌, if◌then◌else◌, text_eq, strip_prefix,
}
use headroom_go.Common.Maps
use headroom_go.Common.Maps.{Map}

abbrev pub marker_prefix : Bytes
marker_prefix = codes "<<ccr:"

abbrev pub marker_suffix : Bytes
marker_suffix = codes ">>"

-- The inline surface of the compressors, as hashesRe spells it.
abbrev pub inline_prefix : Bytes
inline_prefix = codes "hash="

abbrev pub hash_len : ℕ
hash_len = 24

unfoldable pub marker_for : Bytes → Bytes
marker_for hash = marker_prefix ++ (hash ++ marker_suffix)

-- %d of fmt, for a count that is not negative; the fuel is the number itself plus one.
digits : ℕ → ℕ → Bytes → Bytes
digits zero n out = out
digits (suc fuel) n out =
    let out' = (b'0' + n % 10) ∷ out in
    let rest = digits fuel (n / 10) out' in if n / 10 == 0 then out' else rest

unfoldable pub decimal : ℕ → Bytes
unfolding digits
decimal n = digits (suc n) n []

-- The size and the count of rows are an int; a negative one is left out.
unfoldable pub marker_for_cell : Bytes → Bytes → ℕ → Bytes
marker_for_cell hash kind size =
    marker_prefix
    ++ (hash ++ (codes "," ++ (kind ++ (codes "," ++ (decimal size ++ marker_suffix)))))

unfoldable pub marker_for_lossy : Bytes → ℕ → Bytes
marker_for_lossy hash rows =
    marker_prefix
    ++ (hash ++ (codes " " ++ (decimal rows ++ (codes "_rows_offloaded" ++ marker_suffix))))

-- The class [0-9a-f].
unfoldable pub is_hex : ℕ → Bool
is_hex c = (leb b'0' c && leb c b'9') || (leb b'a' c && leb c b'f')

-- ([0-9a-f]{n}) at the start of a text: the group, and the rest.
unfoldable pub take_hex : ℕ → Bytes → Option (Bytes × Bytes)
take_hex zero s = some ([], s)
take_hex (suc n) [] = none
take_hex (suc n) (c ∷ s) = elim (take_hex n s) [
  | none ↦ none
  | some (h, rest) ↦ if is_hex c then some (c ∷ h, rest) else none
]

-- A prefix and then a hash.
unfoldable pub hash_after : Bytes → Bytes → Option (Bytes × Bytes)
hash_after p s = elim (strip_prefix p s) [ none ↦ none | some r ↦ take_hex hash_len r ]

unfoldable pub whole : Option (Bytes × Bytes) → Option Bytes
whole none = none
whole (some (h, rest)) = if text_eq rest marker_suffix then some h else none

-- canonicalRe: the marker is the whole text.
unfoldable pub parse_marker : Bytes → Option Bytes
parse_marker s = whole (hash_after marker_prefix s)

-- The group that hashesRe matches at the start of a text, and the length of the match.
unfoldable pub match_at : Bytes → Option (Bytes × ℕ)
match_at s = elim (hash_after marker_prefix s) [
  | some (h, rest) ↦ some (h, 6 + hash_len)
  | none ↦ elim (hash_after inline_prefix s) [
    | some (h, rest) ↦ some (h, 5 + hash_len)
    | none ↦ none
  ]
]

-- FindAllStringSubmatch: leftmost matches that do not overlap; the number counts the bytes of the
-- last match that are still to be passed.
unfoldable pub find_all : ℕ → Bytes → List Bytes
find_all skip [] = []
find_all (suc skip) (c ∷ s) = find_all skip s
find_all zero (c ∷ s) = elim (match_at (c ∷ s)) [
  | none ↦ find_all 0 s
  | some (h, n) ↦ h ∷ find_all (n - 1) s
]

-- The loop of HashesIn, with its map `seen`.
unfoldable pub dedupe : Map Bool → List Bytes → List Bytes
dedupe seen [] = []
dedupe seen (m ∷ ms) = elim (Maps.get seen m) [
  | some _ ↦ dedupe seen ms
  | none ↦ m ∷ dedupe (Maps.put seen m true) ms
]

unfoldable pub hashes_in : Bytes → List Bytes
hashes_in s = dedupe [] (find_all 0 s)
