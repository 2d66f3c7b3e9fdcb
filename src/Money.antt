-- ===== src/Money.antt =====
-- Decimal amounts: the values of Python's `decimal` and `quantize(Decimal("0.01"))`, by which
-- app/services/transaction_service.py and account_service.py bring an amount to whole cents.
pub mod Rounding
use corebank_api.Prelude.{
  ℕ, suc, zero, ◌+◌, ◌-◌, ◌*◌, ◌/◌, ◌%◌, ◌^◌, Bool, ℤ, pos, negsuc, sub_ℕ, leb, ltb, ◌==◌,
  if◌then◌else◌,
}
use corebank_api.Errors.{Result, ok, err, invalid_operation}

-- A finite decimal: ± coefficient * 10 ^ exponent.
pub record Decimal : Type 0 where
  pub negative : Bool
  pub coefficient : ℕ
  pub exponent : ℤ

-- A quotient `q` and a remainder `r` by `d`, rounded to the nearest number, of two that are as near
-- to the even one.
unfoldable pub nearest : ℕ → ℕ → ℕ → ℕ
nearest q r d =
    if ltb (2 * r) d then q else if ltb d (2 * r) then q + 1 else if q % 2 == 0 then q else q + 1

unfoldable pub half_even : ℕ → ℕ → ℕ
unfolding nearest
half_even a d = nearest (a / d) (a % d) d

-- The magnitude in hundredths.
unfoldable pub hundredths : ℕ → ℤ → ℕ
unfolding half_even
hundredths c (pos k) = c * 10 ^ (k + 2)
hundredths c (negsuc zero) = c * 10
hundredths c (negsuc (suc zero)) = c
hundredths c (negsuc (suc (suc m))) = half_even c (10 ^ (m + 1))

-- The digits that a result may have under the default context.
abbrev pub precision : ℕ
precision = 28

unfoldable pub quantize : Decimal → Result ℤ
unfolding hundredths
quantize x =
    let m = hundredths x.coefficient x.exponent in
    if leb (10 ^ precision) m
    then err invalid_operation
    else ok (if x.negative then sub_ℕ 0 m else pos m)
