-- ===== src/LiveZone/Encode/Literal.antt =====
-- The literal that is spliced in is one JSON string, whatever the text.
use headroom_go.Common.{
  ℕ, zero, suc, ◌/◌, ◌%◌, ◌≤◌, ◌<◌, ◌≡◌, ◌∙◌, refl, ap, ◌==◌, leb, ltb, Bool, true, false, ◌||◌, [],
  ◌∷◌, ◌++◌, append_assoc, Option, none, some, arith, Bytes, codes, if◌then◌else◌,
}
use headroom_go.Ccr.Key.{hex_digit}
use headroom_go.LiveZone.Encode.{
  quote, backslash, escape, between, continues, tail_size, is_separator, last_digit, Mode, copy,
  skip, encode_first, encode_from, encode_json_string,
}

-- A reader of one JSON string: within the text, after a backslash, or with digits of \u to come
-- after the next.
pub data Reading : Type 0 where
  plain escaped : Reading
  digits : ℕ → Reading

json_hex : ℕ → Bool
unfolding between
json_hex b = between b'0' b'9' b || (between b'a' b'f' b || between b'A' b'F' b)

json_escape : ℕ → Bool
json_escape b =
    b == quote
    || b == backslash
    || b == b'/'
    || b == b'b'
    || b == b'f'
    || b == b'n'
    || b == b'r'
    || b == b't'

-- The state after a byte, none for one that JSON does not allow there.
unfoldable pub next : Reading → ℕ → Option Reading
unfolding json_hex json_escape
next plain b = if b == backslash then some escaped else if ltb b 32 then none else some plain
next escaped b = if b == b'u' then some (digits 3) else if json_escape b then some plain else none
next (digits zero) b = if json_hex b then some plain else none
next (digits (suc n)) b = if json_hex b then some (digits n) else none

closes : Reading → ℕ → Bool
closes plain b = b == quote
closes _ b = false

-- What follows the closing quote.
unfoldable pub scan : Reading → Bytes → Option Bytes
unfolding closes
scan r [] = none
scan r (b ∷ bs) = elim (closes r b) [
  | true ↦ some bs
  | false ↦ elim (next r b) [ none ↦ none | some r' ↦ scan r' bs ]
]

-- The first bytes belong to no ASCII character.
abbrev High : ℕ → Bytes → Type 0
High zero bs = Unit
High (suc n) [] = Unit
High (suc n) (b ∷ bs) = (128 ≤ b) × High n bs

continues-High :
    (lo hi n : ℕ) (bs : Bytes) → 128 ≤ lo → continues lo hi n bs ≡ true → High (suc n) bs
unfolding continues between
continues-High lo hi n [] le h = tt
continues-High lo hi zero (b ∷ bs) le h = (ground arith, tt)
continues-High lo hi (suc n) (b ∷ bs) le h =
    (ground arith, continues-High 128 191 n bs (omega arith) (ground arith))

sized : (c : Bool) (n : ℕ) (bs : Bytes) → (c ≡ true → High n bs) → High (if c then n else 0) bs
sized true n bs h = h refl
sized false n bs h = tt

either : (c : Bool) (m n : ℕ) (bs : Bytes) → High m bs → High n bs → High (if c then m else n) bs
either true m n bs h k = h
either false m n bs h k = k

tail_size-High : (b : ℕ) (bs : Bytes) → High (tail_size b bs) bs
unfolding tail_size
tail_size-High b bs =
    either (between 194 223 b) _ _ bs (sized _ 1 bs (continues-High 128 191 0 bs (omega arith))) (
      either (between 224 239 b) _ _ bs
        (sized _ 2 bs (continues-High _ (if b == 237 then 159 else 191) 1 bs (ground arith)))
        (either (between 240 244 b) _ _ bs
          (sized _ 3 bs (continues-High _ (if b == 244 then 143 else 191) 2 bs (ground arith))) tt))

-- Written bytes that the reader passes over.
abbrev Passed : Bytes → Type 0
Passed w = (xs : Bytes) → scan plain (w ++ xs) ≡ scan plain xs

scan_step :
    (r r' : Reading) (b : ℕ) (xs : Bytes)
    → closes r b ≡ false
    → next r b ≡ some r'
    → scan r (b ∷ xs) ≡ scan r' xs
unfolding scan
scan_step r r' b xs h k = rw (h, k, scan) refl

json_hex-hex_digit : (d : ℕ) → d < 16 → json_hex (hex_digit d) ≡ true
unfolding json_hex hex_digit between
json_hex-hex_digit d h = ground arith

scan-digit :
    (n d : ℕ) (xs : Bytes) → d < 16 → scan (digits (suc n)) (hex_digit d ∷ xs) ≡ scan (digits n) xs
unfolding next closes
scan-digit n d xs h =
    scan_step (digits (suc n)) (digits n) (hex_digit d) xs refl (rw (json_hex-hex_digit d h) refl)

scan-last_digit : (d : ℕ) (xs : Bytes) → d < 16 → scan (digits 0) (hex_digit d ∷ xs) ≡ scan plain xs
unfolding next closes
scan-last_digit d xs h =
    scan_step (digits 0) plain (hex_digit d) xs refl (rw (json_hex-hex_digit d h) refl)

plain-Passed :
    (b : ℕ) → leb 32 b ≡ true → (b == quote) ≡ false → (b == backslash) ≡ false → Passed (b ∷ [])
unfolding closes next
plain-Passed b le q k xs = scan_step plain plain b xs q (ground arith)

hidden-Passed : (b : ℕ) → (b == quote || b == backslash) ≡ true → Passed (backslash ∷ (b ∷ []))
unfolding closes next json_escape
hidden-Passed b h xs =
    scan_step plain escaped backslash (b ∷ xs) refl refl
    ∙ scan_step escaped plain b xs refl (ground arith)

if_Passed :
    (c : Bool) (w v : Bytes)
    → (c ≡ true → Passed w)
    → (c ≡ false → Passed v)
    → Passed (if c then w else v)
if_Passed true w v h k = h refl
if_Passed false w v h k = k refl

unicode-Passed :
    (b : ℕ)
    → Passed (backslash ∷ (codes "u00" ++ (hex_digit (b / 16 % 16) ∷ (hex_digit (b % 16) ∷ []))))
unfolding scan closes next
unicode-Passed b xs =
    scan-digit 0 (b / 16 % 16) (hex_digit (b % 16) ∷ xs) (omega arith)
    ∙ scan-last_digit (b % 16) xs (omega arith)

escape-Passed : (b : ℕ) → Passed (escape b)
unfolding escape scan next
escape-Passed b = if_Passed (b == quote || b == backslash) _ _ (hidden-Passed b) (λ other.
    if_Passed (leb 32 b) _ _ (λ le. plain-Passed b le (ground arith) (ground arith))
      (λ control.
        if_Passed (b == 8) _ _ (λ e xs. refl)
          (λ e8.
            if_Passed (b == 12) _ _ (λ e xs. refl)
              (λ e12.
                if_Passed (b == 10) _ _ (λ e xs. refl)
                  (λ e10.
                    if_Passed (b == 13) _ _ (λ e xs. refl)
                      (λ e13. if_Passed (b == 9) _ _ (λ e xs. refl) (λ e9. unicode-Passed b)))))))

high-Passed : (b : ℕ) → 128 ≤ b → Passed (b ∷ [])
high-Passed b le = plain-Passed b (ground arith) (ground arith) (ground arith)

-- The bytes that the mode copies are no ASCII characters.
abbrev Fits : Mode → Bytes → Type 0
Fits (copy n) bs = High n bs
Fits (skip n) bs = Unit

last_digit-small : (bs : Bytes) → (d : ℕ) × (d < 16) × (last_digit bs ≡ hex_digit d)
unfolding last_digit
last_digit-small [] = (0, omega arith, refl)
last_digit-small (c ∷ []) = (0, omega arith, refl)
last_digit-small (c ∷ d ∷ bs) = (d % 16, omega arith, refl)

separator-Passed : (bs : Bytes) → Passed (backslash ∷ (codes "u202" ++ (last_digit bs ∷ [])))
unfolding scan closes next
separator-Passed bs xs =
    let (d, small, same) = last_digit-small bs in rw same (scan-last_digit d xs small)

abbrev Good : Bytes → Bytes × Mode → Type 0
Good bs r = Fits r.1 bs × Passed r.0

if_Good :
    (bs : Bytes) (c : Bool) (x y : Bytes × Mode)
    → (c ≡ true → Good bs x)
    → (c ≡ false → Good bs y)
    → Good bs (if c then x else y)
if_Good bs true x y h k = h refl
if_Good bs false x y h k = k refl

encode_first-Good : (b : ℕ) (bs : Bytes) → Good bs (encode_first b bs)
unfolding encode_first scan next
encode_first-Good b bs =
    if_Good bs (ltb b 128) _ _ (λ ascii. (tt, escape-Passed b))
      (λ high.
        if_Good bs (tail_size b bs == 0) _ _ (λ invalid. (tt, λ xs. refl))
          (λ valid.
            if_Good bs (is_separator b bs) _ _ (λ sep. (tt, separator-Passed bs))
              (λ other. (tail_size-High b bs, high-Passed b (ground arith)))))

encode_from-scan :
    (mode : Mode) (s rest : Bytes)
    → Fits mode s
    → scan plain (encode_from mode s ++ (quote ∷ rest)) ≡ some rest
unfolding encode_from
encode_from-scan mode [] rest h = unfold scan closes in refl
encode_from-scan (copy zero) (b ∷ bs) rest h =
    let (fits, passed) = encode_first-Good b bs in
    rw (append_assoc (encode_first b bs).0 (encode_from (encode_first b bs).1 bs) (quote ∷ rest)) (
      passed (encode_from (encode_first b bs).1 bs ++ (quote ∷ rest))
      ∙ encode_from-scan (encode_first b bs).1 bs rest fits)
encode_from-scan (copy (suc n)) (b ∷ bs) rest h =
    high-Passed b h.0 (encode_from (copy n) bs ++ (quote ∷ rest))
    ∙ encode_from-scan (copy n) bs rest h.1
encode_from-scan (skip zero) (b ∷ bs) rest h =
    let (fits, passed) = encode_first-Good b bs in
    rw (append_assoc (encode_first b bs).0 (encode_from (encode_first b bs).1 bs) (quote ∷ rest)) (
      passed (encode_from (encode_first b bs).1 bs ++ (quote ∷ rest))
      ∙ encode_from-scan (encode_first b bs).1 bs rest fits)
encode_from-scan (skip (suc n)) (b ∷ bs) rest h = encode_from-scan (skip n) bs rest tt

-- Whatever the bytes of a text, and whatever follows, the literal written for it is one JSON string:
-- a reader that refuses control characters and unknown escapes ends exactly at its closing quote.
pub encode_json_string-scan :
    (s rest : Bytes)
    → (body : Bytes) × (encode_json_string s ++ rest ≡ quote ∷ body) × (scan plain body ≡ some rest)
unfolding encode_json_string
encode_json_string-scan s rest = (
  encode_from (copy 0) s ++ (quote ∷ rest),
  ap (λ (t : Bytes). quote ∷ t) (append_assoc (encode_from (copy 0) s) (quote ∷ []) rest),
  encode_from-scan (copy 0) s rest tt,
)
