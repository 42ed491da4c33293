-- ===== src/Base/Decimal.antt =====
-- The decimal digits that sprintf writes for %d and %lu.
use Prim.Native.Nat.{ℕ, zero, suc, ◌+◌, ◌*◌, ◌-◌, ◌/◌, ◌%◌, ◌^◌, ◌<◌}
use mathlib.Core.Path.{◌≡◌, refl, ◌∙◌, ap}
use mathlib.Core.Logic.{inl, inr}
use mathlib.Core.Bool.{true, false}
use mathlib.Core.List.{[], ◌∷◌}
use native.Mathlib.Omega.{arith}
use selfserv.Base.Tests.{ltb, Bool-cases}
use selfserv.Base.Text.{Bytes, is_digit, all_digits}
use selfserv.Base.Int.{digits_value, pos, to_int}

-- A round for each digit, from the last one on; the fuel is more than the number.
unfoldable digits_from : ℕ → ℕ → Bytes → Bytes
digits_from zero n out = out
digits_from (suc f) n out = elim (ltb n 10) [
  | true ↦ (b'0' + n % 10) ∷ out
  | false ↦ digits_from f (n / 10) ((b'0' + n % 10) ∷ out)
]

unfoldable pub to_decimal : ℕ → Bytes
unfolding digits_from
to_decimal n = digits_from (suc n) n []

-- An int holds a number below 2 ^ 31.
pub to_int-pos : (n : ℕ) → n < 2 ^ 31 → to_int (pos n) ≡ pos n
unfolding to_int
to_int-pos n h = ground arith

digits_value-digit :
    (m d : ℕ) (out : Bytes)
    → d < 10
    → digits_value m ((b'0' + d) ∷ out) ≡ digits_value (m * 10 + d) out
unfolding digits_value
digits_value-digit m d out h =
    let digit : is_digit (b'0' + d) ≡ true = ground arith in
    let same : b'0' + d - 48 ≡ d = omega arith in rw (digit, same)

digits_from-last :
    (f n : ℕ) (out : Bytes) → ltb n 10 ≡ true → digits_from (suc f) n out ≡ (b'0' + n % 10) ∷ out
unfolding digits_from
digits_from-last f n out h =
    ap
      (λ b. elim b [
        | true ↦ (b'0' + n % 10) ∷ out
        | false ↦ digits_from f (n / 10) ((b'0' + n % 10) ∷ out)
      ])
      h

digits_from-more :
    (f n : ℕ) (out : Bytes)
    → ltb n 10 ≡ false
    → digits_from (suc f) n out ≡ digits_from f (n / 10) ((b'0' + n % 10) ∷ out)
unfolding digits_from
digits_from-more f n out h =
    ap
      (λ b. elim b [
        | true ↦ (b'0' + n % 10) ∷ out
        | false ↦ digits_from f (n / 10) ((b'0' + n % 10) ∷ out)
      ])
      h

digits_value-digits_from :
    (f n : ℕ) (out : Bytes) → n < f → digits_value 0 (digits_from f n out) ≡ digits_value n out
digits_value-digits_from zero n out h = absurd (omega arith)
digits_value-digits_from (suc f) n out h = elim (Bool-cases (ltb n 10)) [
  | inl last ↦
      let same : 0 * 10 + n % 10 ≡ n = ground arith in
      ap (digits_value 0) (digits_from-last f n out last)
      ∙ digits_value-digit 0 (n % 10) out (omega arith)
      ∙ ap (λ k. digits_value k out) same
  | inr more ↦
      let smaller : n / 10 < f = ground arith in
      let same : n / 10 * 10 + n % 10 ≡ n = omega arith in
      ap (digits_value 0) (digits_from-more f n out more)
      ∙ digits_value-digits_from f (n / 10) _ smaller
      ∙ digits_value-digit (n / 10) (n % 10) out (omega arith)
      ∙ ap (λ k. digits_value k out) same
]

-- A number is read back from its digits.
pub digits_value-to_decimal : (n : ℕ) → digits_value 0 (to_decimal n) ≡ n
unfolding to_decimal digits_value
digits_value-to_decimal n = digits_value-digits_from (suc n) n [] (omega arith)

all_digits-digits_from :
    (f n : ℕ) (out : Bytes) → all_digits out ≡ true → all_digits (digits_from f n out) ≡ true
unfolding digits_from
all_digits-digits_from zero n out h = h
all_digits-digits_from (suc f) n out h =
    let digit : is_digit (b'0' + n % 10) ≡ true = ground arith in
    let more : all_digits ((b'0' + n % 10) ∷ out) ≡ true = rw (digit, h) refl in
    elim (Bool-cases (ltb n 10)) [
      | inl last ↦ ap all_digits (digits_from-last f n out last) ∙ more
      | inr others ↦
          ap all_digits (digits_from-more f n out others) ∙ all_digits-digits_from f (n / 10) _ more
    ]

pub all_digits-to_decimal : (n : ℕ) → all_digits (to_decimal n) ≡ true
unfolding to_decimal
all_digits-to_decimal n = all_digits-digits_from (suc n) n [] refl
