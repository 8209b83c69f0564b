-- ===== src/Ccr/Key.antt =====
-- internal/ccr/key.go and md5key.go: content keys. The hash functions are parameters: BLAKE3 is not
-- part of the repository, and of MD5 only the size of its sum matters here.
use headroom_go.Common.{
  ℕ, zero, suc, ◌+◌, ◌-◌, ◌*◌, ◌/◌, ◌%◌, ◌<◌, ◌≡◌, refl, true, ltb, [], ◌∷◌, arith, Bytes, length,
  take, length-take, All, if◌then◌else◌,
}
use headroom_go.Ccr.Marker.{is_hex}
use headroom_go.Ccr.Marker.Parse.{IsHash}

-- The sums, as bytes.
pub record HashSums : Type 0 where
  pub blake3 : Bytes → Bytes
  pub md5 : Bytes → Bytes
  pub blake3_size : (p : Bytes) → length (blake3 p) ≡ 32
  pub md5_size : (p : Bytes) → length (md5 p) ≡ 16

-- One digit of hex.EncodeToString, for a number below 16.
unfoldable pub hex_digit : ℕ → ℕ
hex_digit n = if ltb n 10 then b'0' + n else b'a' + (n - 10)

unfoldable pub hex : Bytes → Bytes
hex [] = []
hex (b ∷ bs) = hex_digit (b / 16 % 16) ∷ (hex_digit (b % 16) ∷ hex bs)

module _ (sums : HashSums) where
  unfoldable pub compute_key : Bytes → Bytes
  compute_key payload = hex (take 12 (sums.blake3 payload))

  unfoldable pub compute_key_md5 : Bytes → Bytes
  compute_key_md5 payload = take 24 (hex (sums.md5 payload))

hex_digit-is_hex : (n : ℕ) → n < 16 → is_hex (hex_digit n) ≡ true
unfolding hex_digit is_hex
hex_digit-is_hex n h = ground arith

All-hex : (bs : Bytes) → All (λ c. is_hex c ≡ true) (hex bs)
unfolding hex
All-hex [] = tt
All-hex (b ∷ bs) = (
  hex_digit-is_hex (b / 16 % 16) (omega arith),
  (hex_digit-is_hex (b % 16) (omega arith), All-hex bs),
)

length-hex : (bs : Bytes) → length (hex bs) ≡ 2 * length bs
unfolding hex
length-hex [] = refl
length-hex (b ∷ bs) = omega (arith, length-hex bs)

All-take : (P : ℕ → Type 0) (n : ℕ) (xs : Bytes) → All P xs → All P (take n xs)
All-take P zero xs h = tt
All-take P (suc n) [] h = tt
All-take P (suc n) (x ∷ xs) h = (h.0, All-take P n xs h.1)

-- Both keys are 24 lowercase hexadecimal digits, whatever the payload: the form that the markers'
-- regular expressions match.
pub compute_key-IsHash :
    (sums : HashSums) (p : Bytes) → IsHash (compute_key sums p) × IsHash (compute_key_md5 sums p)
unfolding compute_key compute_key_md5
compute_key-IsHash sums p = (
  (
    omega (
      arith,
      length-hex (take 12 (sums.blake3 p)),
      length-take {0} 12 (sums.blake3 p),
      sums.blake3_size p,
    ),
    All-hex (take 12 (sums.blake3 p)),
  ),
  (
    omega (arith, length-take {0} 24 (hex (sums.md5 p)), length-hex (sums.md5 p), sums.md5_size p),
    All-take (λ c. is_hex c ≡ true) 24 (hex (sums.md5 p)) (All-hex (sums.md5 p)),
  ),
)
