-- ===== src/Text/Decimal.antt =====
-- A number is determined by its decimal digits.
use db_crawler.Prelude.{
  ℕ, zero, suc, ◌+◌, ◌-◌, ◌*◌, ◌/◌, ◌%◌, ◌<◌, ◌≡◌, ap, sym, ◌∙◌, [], ◌∷◌, arith, ltb, if_cases,
}
use db_crawler.Text.{Text, itoa, digits_fuel}

-- The number behind `acc` that a row of digits stands for.
abbrev pub value_from : ℕ → Text → ℕ
value_from acc [] = acc
value_from acc (c ∷ s) = value_from (acc * 10 + (c - b'0')) s

digits_fuel-value :
    (f n : ℕ) (acc : Text) → n < f → value_from 0 (digits_fuel f n acc) ≡ value_from n acc
unfolding digits_fuel
digits_fuel-value zero n acc h = elim h [ ]
digits_fuel-value (suc f) n acc h =
    if_cases (λ (t : Text). value_from 0 t ≡ value_from n acc) (ltb n 10)
      (λ e.
        ap (λ (k : ℕ). value_from k acc) {x = 0 * 10 + (b'0' + n % 10 - b'0')} {y = n}
          (ground arith))
      (λ e.
        digits_fuel-value f (n / 10) ((b'0' + n % 10) ∷ acc) (ground arith)
        ∙ ap (λ (k : ℕ). value_from k acc) {x = n / 10 * 10 + (b'0' + n % 10 - b'0')} {y = n}
            (omega arith))

pub value_from-itoa : (n : ℕ) → value_from 0 (itoa n) ≡ n
unfolding itoa
value_from-itoa n = digits_fuel-value (suc n) n [] (omega arith)

pub itoa_injective : (m n : ℕ) → itoa m ≡ itoa n → m ≡ n
itoa_injective m n h = sym (value_from-itoa m) ∙ ap (value_from 0) h ∙ value_from-itoa n
