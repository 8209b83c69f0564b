-- ===== src/Compress/Log/Dedupe.antt =====
-- internal/compress/log_compressor.go: normalizeForDedupe, with its three regular expressions.
use headroom_go.Common.{
  ℕ, zero, suc, ◌+◌, ◌-◌, Bool, true, false, not, ◌&&◌, ◌||◌, [], ◌∷◌, ◌++◌, Bytes, codes, ltb,
  ◌==◌, if◌then◌else◌, has_prefix,
}
use headroom_go.Compress.Log.{is_digit, is_hex_digit, word_byte}

-- \d+ to N; the first argument says that the byte before was a digit.
replace_digits : Bool → Bytes → Bytes
unfolding is_digit
replace_digits inside [] = []
replace_digits inside (c ∷ s) =
    let rest = replace_digits (is_digit c) s in
    if is_digit c then (if inside then rest else b'N' ∷ rest) else c ∷ rest

hex_run : Bytes → ℕ
unfolding is_hex_digit
hex_run [] = 0
hex_run (c ∷ s) = let n = hex_run s in if is_hex_digit c then n + 1 else 0

-- The size of 0x[0-9a-fA-F]+ at the start, or 0.
hex_width : Bytes → ℕ
unfolding hex_run
hex_width [] = 0
hex_width (c ∷ []) = 0
hex_width (c ∷ d ∷ s) =
    if has_prefix (c ∷ d ∷ s) (codes "0x") && ltb 0 (hex_run s) then hex_run s + 2 else 0

-- The first argument counts the bytes left of a match.
replace_hex : ℕ → Bytes → Bytes
unfolding hex_width
replace_hex skip [] = []
replace_hex (suc skip) (c ∷ s) = replace_hex skip s
replace_hex zero (c ∷ s) =
    let rest = replace_hex (hex_width (c ∷ s) - 1) s in
    if hex_width (c ∷ s) == 0 then c ∷ rest else codes "ADDR" ++ rest

-- The size of [\w/]+/ at the start, or 0, behind n bytes of it.
path_run : ℕ → Bytes → ℕ
unfolding word_byte
path_run n [] = 0
path_run n (c ∷ s) =
    let later = path_run (n + 1) s in
    if not (word_byte c || c == b'/')
    then 0
    else if ltb 0 later
    then later
    else if c == b'/' && ltb 0 n
    then n + 1
    else 0

-- The size of /[\w/]+/ at the start, or 0.
path_width : Bytes → ℕ
unfolding path_run
path_width [] = 0
path_width (c ∷ s) = let n = path_run 0 s in if c == b'/' && ltb 0 n then n + 1 else 0

replace_paths : ℕ → Bytes → Bytes
unfolding path_width
replace_paths skip [] = []
replace_paths (suc skip) (c ∷ s) = replace_paths skip s
replace_paths zero (c ∷ s) =
    let rest = replace_paths (path_width (c ∷ s) - 1) s in
    if path_width (c ∷ s) == 0 then c ∷ rest else codes "/PATH/" ++ rest

-- Up to the first ':' or '=', and the rest; the whole text is the rest where there is none.
split_key : Bytes → Bool × (Bytes × Bytes)
split_key [] = (false, ([], []))
split_key (c ∷ s) =
    let (found, parts) = split_key s in
    if c == b':' || c == b'='
    then (true, (c ∷ [], s))
    else if found
    then (true, (c ∷ parts.0, parts.1))
    else (false, ([], c ∷ s))

unfoldable pub normalize_for_dedupe : Bytes → Bytes
unfolding split_key replace_digits replace_hex replace_paths
normalize_for_dedupe content =
    let (found, parts) = split_key content in
    parts.0 ++ replace_paths 0 (replace_hex 0 (replace_digits false parts.1))
