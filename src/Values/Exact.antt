-- ===== src/Values/Exact.antt =====
-- core/dbcore/values.go: a cell tells NULL from everything else, and integers from each other.
use db_crawler.Dsn.{itoa_signed}
use db_crawler.Prelude.Int.{ℤ, pos, negsuc}
use db_crawler.Prelude.{
  ℕ, zero, suc, ◌+◌, ◌/◌, ◌%◌, ◌<◌, ◌≡◌, refl, ap, sym, ◌∙◌, Bool, true, false, not, List, [], ◌∷◌,
  none, some, arith, ltb, All, if_rule, if_cases, ◌==◌, subst,
}
use db_crawler.Text.Decimal.{itoa_injective}
use db_crawler.Text.{Text, utf8, utf8_rune, itoa, digits_fuel}
use db_crawler.Values.Kind.{ValueKind}
use db_crawler.Values.{
  Formats, DriverValue, null, boolean, text, raw, timestamp, int, uint, float, stringer, fallback,
  Cell, convert_bytes, convert_value,
}

abbrev pub is_some : Cell → Bool
is_some none = false
is_some (some b) = true

convert_bytes-some : (b : List ℕ) (k : ValueKind) → is_some (convert_bytes b k).0 ≡ true
unfolding convert_bytes
convert_bytes-some b k = ground arith

abbrev pub Ascii : Text → Type 0
Ascii = All (λ (c : ℕ). c < 128)

utf8-Ascii : (t : Text) → Ascii t → utf8 t ≡ t
unfolding utf8 utf8_rune
utf8-Ascii [] a = refl
utf8-Ascii (c ∷ t) a = ground (arith, a.0, utf8-Ascii t a.1)

digits_fuel-Ascii : (f n : ℕ) (acc : Text) → Ascii acc → Ascii (digits_fuel f n acc)
unfolding digits_fuel
digits_fuel-Ascii zero n acc a = a
digits_fuel-Ascii (suc f) n acc a =
    if_rule Ascii (ltb n 10) (ground arith, a)
      (digits_fuel-Ascii f (n / 10) ((b'0' + n % 10) ∷ acc) (ground arith, a))

itoa-Ascii : (n : ℕ) → Ascii (itoa n)
unfolding itoa
itoa-Ascii n = digits_fuel-Ascii (suc n) n [] tt

itoa_signed-Ascii : (i : ℤ) → Ascii (itoa_signed i)
unfolding itoa_signed
itoa_signed-Ascii (pos n) = itoa-Ascii n
itoa_signed-Ascii (negsuc n) = (ground arith, itoa-Ascii (suc n))

utf8-itoa_signed : (i : ℤ) → utf8 (itoa_signed i) ≡ itoa_signed i
utf8-itoa_signed i = utf8-Ascii (itoa_signed i) (itoa_signed-Ascii i)

-- The text starts with a digit.
Digital : Text → Type 0
Digital [] = ⊥
Digital (c ∷ t) = (c == b'-') ≡ false

digits_fuel-Digital : (f n : ℕ) (acc : Text) → n < f → Digital (digits_fuel f n acc)
unfolding digits_fuel Digital
digits_fuel-Digital zero n acc l = absurd (omega arith)
digits_fuel-Digital (suc f) n acc l =
    if_cases Digital (ltb n 10) (λ e. ground arith)
      (λ e. digits_fuel-Digital f (n / 10) ((b'0' + n % 10) ∷ acc) (ground arith))

itoa_no_sign : (m n : ℕ) → itoa m ≡ b'-' ∷ itoa n → ⊥
unfolding itoa Digital
itoa_no_sign m n e = absurd (cc (subst Digital e (digits_fuel-Digital (suc m) m [] (omega arith))))

itoa_signed_injective : (i j : ℤ) → itoa_signed i ≡ itoa_signed j → i ≡ j
unfolding itoa_signed
itoa_signed_injective (pos m) (pos n) e = ap pos (itoa_injective m n e)
itoa_signed_injective (pos m) (negsuc n) e = absurd (itoa_no_sign m (suc n) e)
itoa_signed_injective (negsuc m) (pos n) e = absurd (itoa_no_sign n (suc m) (sym e))
itoa_signed_injective (negsuc m) (negsuc n) e =
    let same : suc m ≡ suc n = itoa_injective (suc m) (suc n) (cc e) in
    ap negsuc (omega (arith, same))

module _ (fmt : Formats) where
  abbrev pub is_null_value : DriverValue fmt → Bool
  is_null_value null = true
  is_null_value _ = false

  -- For every value that a driver hands back and every declared kind, convertValue yields a
  -- cell without text if and only if the value is NULL: no other value, an empty one included,
  -- is taken for NULL, nor is NULL taken for a text.
  pub convert_value-null :
      (v : DriverValue fmt) (k : ValueKind)
      → is_some (convert_value fmt v k).0 ≡ not (is_null_value v)
  unfolding convert_value
  convert_value-null null k = refl
  convert_value-null (boolean true) k = refl
  convert_value-null (boolean false) k = refl
  convert_value-null (text x) k = refl
  convert_value-null (raw x) k = convert_bytes-some x k
  convert_value-null (timestamp x) k = refl
  convert_value-null (int x) k = refl
  convert_value-null (uint x) k = refl
  convert_value-null (float x) k = refl
  convert_value-null (stringer x) k = refl
  convert_value-null (fallback x) k = refl

  -- The cells of different integers are different, for any declared kind: the text that
  -- crosses the boundary determines a signed integer.
  pub convert_value_int_injective :
      (i j : ℤ) (k : ValueKind)
      → (convert_value fmt (int i) k).0 ≡ (convert_value fmt (int j) k).0
      → i ≡ j
  unfolding convert_value
  convert_value_int_injective i j k h =
      itoa_signed_injective i j (sym (utf8-itoa_signed i) ∙ cc h ∙ utf8-itoa_signed j)
