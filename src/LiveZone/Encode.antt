-- ===== src/LiveZone/Encode.antt =====
-- internal/livezone/splice.go: encodeJSONString, with what encoding/json's encoder makes of a string when
-- it does not escape HTML.
pub mod Literal
use headroom_go.Common.{
  ℕ, zero, suc, ◌+◌, ◌-◌, ◌/◌, ◌%◌, ◌==◌, leb, ltb, Bool, true, false, ◌&&◌, ◌||◌, List, [], ◌∷◌,
  ◌++◌, Bytes, codes, if◌then◌else◌, length,
}
use headroom_go.Ccr.Key.{hex_digit}

abbrev pub quote : ℕ
quote = b'"'

abbrev pub backslash : ℕ
backslash = 92

-- What stands for an ASCII byte.
unfoldable pub escape : ℕ → Bytes
escape b =
    if b == quote || b == backslash
    then backslash ∷ (b ∷ [])
    else if leb 32 b
    then b ∷ []
    else if b == 8
    then backslash ∷ codes "b"
    else if b == 12
    then backslash ∷ codes "f"
    else if b == 10
    then backslash ∷ codes "n"
    else if b == 13
    then backslash ∷ codes "r"
    else if b == 9
    then backslash ∷ codes "t"
    else backslash ∷ (codes "u00" ++ (hex_digit (b / 16 % 16) ∷ (hex_digit (b % 16) ∷ [])))

between : ℕ → ℕ → ℕ → Bool
between lo hi b = leb lo b && leb b hi

-- Whether the next bytes continue a character: the first within bounds, then `n` more.
continues : ℕ → ℕ → ℕ → Bytes → Bool
unfolding between
continues lo hi n [] = false
continues lo hi zero (b ∷ bs) = between lo hi b
continues lo hi (suc n) (b ∷ bs) = between lo hi b && continues 128 191 n bs

-- utf8.DecodeRuneInString for a first byte that is not ASCII: the number of bytes after it that belong
-- to its character, zero where the encoding is invalid.
unfoldable pub tail_size : ℕ → Bytes → ℕ
unfolding between continues
tail_size b bs =
    if between 194 223 b
    then (if continues 128 191 0 bs then 1 else 0)
    else if between 224 239 b
    then (if continues (if b == 224 then 160 else 128) (if b == 237 then 159 else 191) 1 bs
        then 2
        else 0)
    else if between 240 244 b
    then (if continues (if b == 240 then 144 else 128) (if b == 244 then 143 else 191) 2 bs
        then 3
        else 0)
    else 0

-- U+2028 and U+2029.
is_separator : ℕ → Bytes → Bool
is_separator b (c ∷ d ∷ bs) = b == 226 && (c == 128 && (d == 168 || d == 169))
is_separator b _ = false

-- Whether the bytes after the first of a character are copied, or dropped.
pub data Mode : Type 0 where
  copy skip : ℕ → Mode

last_digit : Bytes → ℕ
last_digit (c ∷ d ∷ bs) = hex_digit (d % 16)
last_digit _ = hex_digit 0

-- What is written for a first byte, and how to go on.
unfoldable pub encode_first : ℕ → Bytes → Bytes × Mode
unfolding is_separator last_digit
encode_first b bs =
    if ltb b 128
    then (escape b, copy 0)
    else if tail_size b bs == 0
    then (backslash ∷ codes "ufffd", copy 0)
    else if is_separator b bs
    then (backslash ∷ (codes "u202" ++ (last_digit bs ∷ [])), skip 2)
    else (b ∷ [], copy (tail_size b bs))

unfoldable pub encode_from : Mode → Bytes → Bytes
encode_from mode [] = []
encode_from (copy zero) (b ∷ bs) =
    let (written, mode) = encode_first b bs in written ++ encode_from mode bs
encode_from (copy (suc n)) (b ∷ bs) = b ∷ encode_from (copy n) bs
encode_from (skip zero) (b ∷ bs) =
    let (written, mode) = encode_first b bs in written ++ encode_from mode bs
encode_from (skip (suc n)) (b ∷ bs) = encode_from (skip n) bs

unfoldable pub encode_json_string : Bytes → Bytes
encode_json_string s = quote ∷ (encode_from (copy 0) s ++ (quote ∷ []))
