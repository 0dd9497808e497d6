-- ===== src/RateLimit/Digits.antt =====
-- The digits of a window's number: the fuel is enough, and no two windows share a key.
use ulov_backend.Prelude.{
  ℕ, zero, suc, ◌+◌, ◌-◌, ◌*◌, ◌/◌, ◌%◌, ◌<◌, ◌≡◌, refl, sym, ap, ◌∙◌, [], ◌∷◌, inl, inr, ◌⊎◌,
  arith,
}
use ulov_backend.Prelude.Text.{Text}
use ulov_backend.RateLimit.{decimal_from, decimal}

-- The number that digits show, after a number that is read already.
unfoldable pub value_from : ℕ → Text → ℕ
value_from n [] = n
value_from n (c ∷ cs) = value_from (n * 10 + (c - 48)) cs

ℕ-cases : (n : ℕ) → (n ≡ 0) ⊎ ((m : ℕ) × (n ≡ suc m))
ℕ-cases zero = inl refl
ℕ-cases (suc m) = inr (m, refl)

value_from-decimal_from :
    (f n : ℕ) (acc : Text) → n < f → value_from 0 (decimal_from f n acc) ≡ value_from n acc
unfolding value_from decimal_from
value_from-decimal_from zero n acc enough = absurd (omega arith)
value_from-decimal_from (suc f) n acc enough = elim (ℕ-cases (n / 10)) [
  | inl e ↦
      let last : 0 * 10 + ((48 + n % 10) - 48) ≡ n = omega arith in
      let step : decimal_from (suc f) n acc ≡ (48 + n % 10) ∷ acc = rw (decimal_from, e) refl in
      ap (value_from 0) step ∙ ap (λ k. value_from k acc) last
  | inr (q, e) ↦
      let more : suc q * 10 + ((48 + n % 10) - 48) ≡ n = omega arith in
      let step : decimal_from (suc f) n acc ≡ decimal_from f (suc q) ((48 + n % 10) ∷ acc) =
        rw (decimal_from, e) refl in
      ap (value_from 0) step
      ∙ value_from-decimal_from f (suc q) ((48 + n % 10) ∷ acc) (omega arith)
      ∙ ap (λ k. value_from k acc) more
]

-- The loop that writes a number in digits has fuel enough for any number: the digits it returns are
-- read back as the number, none lost.
pub value_from-decimal : (n : ℕ) → value_from 0 (decimal n) ≡ n
unfolding decimal value_from
value_from-decimal n = value_from-decimal_from (suc n) n [] (omega arith)

-- Different numbers have different digits.
pub decimal-injective : (m n : ℕ) → decimal m ≡ decimal n → m ≡ n
decimal-injective m n e = sym (value_from-decimal m) ∙ ap (value_from 0) e ∙ value_from-decimal n
