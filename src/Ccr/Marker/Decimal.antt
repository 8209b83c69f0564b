-- ===== src/Ccr/Marker/Decimal.antt =====
-- A number as fmt's %d prints it: digits only, which give the number back.
use headroom_go.Common.{
  ℕ, zero, suc, ◌+◌, ◌-◌, ◌*◌, ◌/◌, ◌%◌, ◌≤◌, ◌<◌, ◌≡◌, sym, ap, ◌∙◌, Bool-cases, inl, inr, [], ◌∷◌,
  arith, Bytes, ◌==◌, All,
}
use headroom_go.Ccr.Marker.{digits, decimal}

abbrev pub IsDigit : ℕ → Type 0
IsDigit c = (b'0' ≤ c) × (c ≤ b'9')

digits-IsDigit : (fuel n : ℕ) (out : Bytes) → All IsDigit out → All IsDigit (digits fuel n out)
unfolding digits
digits-IsDigit zero n out h = h
digits-IsDigit (suc fuel) n out h = elim (Bool-cases (n / 10 == 0)) [
  | inl last ↦ rw last (omega arith, h)
  | inr more ↦ rw more (digits-IsDigit fuel (n / 10) ((b'0' + n % 10) ∷ out) (omega arith, h))
]

pub decimal-IsDigit : (n : ℕ) → All IsDigit (decimal n)
unfolding decimal
decimal-IsDigit n = digits-IsDigit (suc n) n [] tt

-- The number that digits stand for, behind those read before.
value : ℕ → Bytes → ℕ
value n [] = n
value n (c ∷ s) = value (n * 10 + (c - b'0')) s

value-digits : (fuel n : ℕ) (out : Bytes) → n < fuel → value 0 (digits fuel n out) ≡ value n out
unfolding digits value
value-digits zero n out lt = absurd (omega arith)
value-digits (suc fuel) n out lt = elim (Bool-cases (n / 10 == 0)) [
  | inl last ↦
      let whole : 0 * 10 + (b'0' + n % 10 - b'0') ≡ n = ground arith in
      rw last (ap (λ k. value k out) whole)
  | inr more ↦
      let whole : n / 10 * 10 + (b'0' + n % 10 - b'0') ≡ n = omega arith in
      rw more (
        value-digits fuel (n / 10) ((b'0' + n % 10) ∷ out) (ground arith)
        ∙ ap (λ k. value k out) whole)
]

value-decimal : (n : ℕ) → value 0 (decimal n) ≡ n
unfolding decimal value
value-decimal n = value-digits (suc n) n [] (omega arith)

pub decimal_injective : (m n : ℕ) → decimal m ≡ decimal n → m ≡ n
decimal_injective m n h = sym (value-decimal m) ∙ ap (value 0) h ∙ value-decimal n
