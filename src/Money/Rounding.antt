-- ===== src/Money/Rounding.antt =====
-- Rounding to cents: how far the result of `quantize` is from the amount, and when it is exact.
use native.Mathlib.Nat.{pow-suc}
use corebank_api.Prelude.{
  inr, ◌%◌, ◌⊎◌, inl, refl, ◌/◌, false, true, neg_part, zero, arith, pos_part, ◌+◌, ◌≤◌, suc, ◌^◌,
  ◌*◌, ◌≡◌, negsuc, pos, ◌<◌, ℤ, ℕ,
}
use corebank_api.Money.{nearest, precision, Decimal, hundredths, half_even, quantize}
use corebank_api.Errors.{ok}

nearest_cases :
    (q r d : ℕ) → ((nearest q r d ≡ q) × (2 * r ≤ d)) ⊎ ((nearest q r d ≡ q + 1) × (d ≤ 2 * r))
unfolding nearest
nearest_cases q r d = ground arith

nearest_near :
    (a d q r : ℕ)
    → a ≡ q * d + r
    → r < d
    → (2 * a ≤ 2 * (nearest q r d * d) + d) × (2 * (nearest q r d * d) ≤ 2 * a + d)
nearest_near a d q r e h = elim (nearest_cases q r d) [
  | inl (f, g) ↦ rw f (omega arith, omega arith)
  | inr (f, g) ↦ rw f (omega arith, omega arith)
]

half_even_near :
    (a d : ℕ)
    → 0 < d
    → (2 * a ≤ 2 * (half_even a d * d) + d) × (2 * (half_even a d * d) ≤ 2 * a + d)
unfolding half_even
half_even_near a d h = nearest_near a d (a / d) (a % d) (grind arith) (omega arith)

pow_pos : (n : ℕ) → 0 < 10 ^ n
pow_pos zero = omega arith
pow_pos (suc n) = rw pow-suc (omega (arith, pow_pos n))

-- The amount in units of its own last digit against a number of hundredths: equal where the amount
-- has no digit past the cents, and else at most half a cent apart.
abbrev pub Near : ℕ → ℤ → ℕ → Type 0
Near c (pos k) m = m ≡ c * 10 ^ (k + 2)
Near c (negsuc zero) m = m ≡ c * 10
Near c (negsuc (suc zero)) m = m ≡ c
Near c (negsuc (suc (suc k))) m =
    (2 * c ≤ 2 * (m * 10 ^ (k + 1)) + 10 ^ (k + 1))
    × (2 * (m * 10 ^ (k + 1)) ≤ 2 * c + 10 ^ (k + 1))

hundredths-Near : (c : ℕ) (x : ℤ) → Near c x (hundredths c x)
unfolding hundredths
hundredths-Near c (pos k) = refl
hundredths-Near c (negsuc zero) = refl
hundredths-Near c (negsuc (suc zero)) = refl
hundredths-Near c (negsuc (suc (suc m))) = half_even_near c (10 ^ (m + 1)) (pow_pos (m + 1))

-- An amount that is brought to cents has the amount's sign, is exact where the amount has no digit
-- past the cents and within half a cent of it otherwise, and has at most 28 digits.
pub quantize-Near :
    (x : Decimal) (cents : ℤ)
    → quantize x ≡ ok cents
    → Near x.coefficient x.exponent (pos_part cents + neg_part cents)
      × (pos_part cents + neg_part cents < 10 ^ precision)
      × (x.negative ≡ true → pos_part cents ≡ 0)
      × (x.negative ≡ false → neg_part cents ≡ 0)
unfolding quantize
quantize-Near x cents h =
    let m = hundredths x.coefficient x.exponent in
    let size : pos_part cents + neg_part cents ≡ m = ground arith in
    (
      rw size (hundredths-Near x.coefficient x.exponent),
      ground arith,
      λ e. ground arith,
      λ e. ground arith,
    )
