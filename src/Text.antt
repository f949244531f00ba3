-- ===== src/Text.antt =====
-- Go strings as lists of code points, with the parts of `strings` and `unicode` that
-- core/dbcore uses. Every string comes from decoded JSON or from string(runes), so it is valid
-- UTF-8, and a list of code points determines it; `utf8` is its bytes.
pub mod Trim
pub mod Words
pub mod Url
pub mod Decimal
use Prim.Native.Char.{code}
use Prim.Native.String.{String}
use db_crawler.Prelude.{
  ℕ, zero, suc, ◌+◌, ◌-◌, ◌*◌, ◌/◌, ◌%◌, ◌^◌, Bool, true, false, not, ◌&&◌, ◌||◌, List, [], ◌∷◌,
  ◌++◌, map, Option, none, some, ltb, leb, ◌==◌, if◌then◌else◌,
}

abbrev pub Text : Type 0
Text = List ℕ

-- The code points of a literal.
abbrev pub codes : String → Text
codes String.[] = []
codes (String.◌∷◌ c s) = code c ∷ codes s

-- The tables of package `unicode`, left open above U+00FF for the classes of runes and above
-- U+007F for the case mappings. The functions under this record fix the rest.
pub record Unicode : Type 0 where
  pub wide_letter : ℕ → Bool
  pub wide_digit : ℕ → Bool
  pub wide_upper : ℕ → ℕ
  pub wide_lower : ℕ → ℕ

abbrev within : ℕ → ℕ → ℕ → Bool
within lo hi c = leb lo c && leb c hi

-- unicode.IsSpace
unfoldable pub is_space : ℕ → Bool
is_space c =
    within 9 13 c
    || c == 32
    || c == 0x85
    || c == 0xa0
    || c == 0x1680
    || within 0x2000 0x200a c
    || within 0x2028 0x2029 c
    || c == 0x202f
    || c == 0x205f
    || c == 0x3000

module _ ⦃u : Unicode⦄ where
  -- unicode.IsLetter
  unfoldable pub is_letter : ℕ → Bool
  is_letter c =
      if ltb c 0x100
      then (within b'A' b'Z' c
          || within b'a' b'z' c
          || c == 0xaa
          || c == 0xb5
          || c == 0xba
          || (within 0xc0 0xff c && not (c == 0xd7) && not (c == 0xf7)))
      else u.wide_letter c

  -- unicode.IsDigit
  unfoldable pub is_digit : ℕ → Bool
  is_digit c = if ltb c 0x100 then within b'0' b'9' c else u.wide_digit c

  -- unicode.ToUpper
  unfoldable pub upper_rune : ℕ → ℕ
  upper_rune c = if ltb c 0x80 then (if within b'a' b'z' c then c - 32 else c) else u.wide_upper c

  -- unicode.ToLower
  unfoldable pub lower_rune : ℕ → ℕ
  lower_rune c = if ltb c 0x80 then (if within b'A' b'Z' c then c + 32 else c) else u.wide_lower c

  -- strings.ToUpper, strings.ToLower
  unfoldable pub to_upper : Text → Text
  unfolding upper_rune
  to_upper = map upper_rune

  unfoldable pub to_lower : Text → Text
  unfolding lower_rune
  to_lower = map lower_rune

-- `==` of strings
unfoldable pub text_eq : Text → Text → Bool
text_eq [] [] = true
text_eq (x ∷ xs) (y ∷ ys) = x == y && text_eq xs ys
text_eq _ _ = false

-- A `case` of a `switch` over strings.
unfoldable pub one_of : Text → List String → Bool
unfolding text_eq
one_of w [] = false
one_of w (s ∷ rest) = text_eq w (codes s) || one_of w rest

abbrev pub is_nil {ℓ} : {A : Type ℓ} → List A → Bool
is_nil [] = true
is_nil (x ∷ xs) = false

-- strings.TrimLeft(s, whitespace) and strings.TrimSpace
unfoldable pub trim_left : Text → Text
unfolding is_space
trim_left [] = []
trim_left (c ∷ s) = let rest = trim_left s in if is_space c then rest else c ∷ s

unfoldable pub trim_right : Text → Text
unfolding is_space
trim_right [] = []
trim_right (c ∷ s) = let t = trim_right s in if is_nil t && is_space c then [] else c ∷ t

unfoldable pub trim_space : Text → Text
unfolding trim_left trim_right
trim_space s = trim_right (trim_left s)

-- The longest prefix of runes that pass, and what follows it.
unfoldable pub span : (ℕ → Bool) → Text → Text × Text
span p [] = ([], [])
span p (c ∷ s) = let r = span p s in if p c then (c ∷ r.0, r.1) else ([], c ∷ s)

-- s without the prefix, if it has it (strings.HasPrefix)
unfoldable pub strip_prefix : Text → Text → Option Text
strip_prefix [] s = some s
strip_prefix (x ∷ p) [] = none
strip_prefix (x ∷ p) (y ∷ s) = if x == y then strip_prefix p s else none

-- strings.Index with the text before and behind the first match (strings.Cut)
unfoldable pub cut : Text → Text → Option (Text × Text)
unfolding strip_prefix
cut sep [] = elim (strip_prefix sep []) [ none ↦ none | some after ↦ some ([], after) ]
cut sep (c ∷ s) = elim (strip_prefix sep (c ∷ s)) [
  | some after ↦ some ([], after)
  | none ↦ elim (cut sep s) [ none ↦ none | some (before, after) ↦ some (c ∷ before, after) ]
]

-- strings.Contains
unfoldable pub contains : Text → Text → Bool
unfolding cut
contains s sub = elim (cut sub s) [ none ↦ false | some _ ↦ true ]

-- strings.Split(s, "\n"): never empty
unfoldable pub lines : Text → List Text
lines [] = [] ∷ []
lines (c ∷ s) = elim (lines s) [
  | [] ↦ []
  | l ∷ ls ↦ if c == b'\n' then [] ∷ l ∷ ls else (c ∷ l) ∷ ls
]

-- strings.Join
unfoldable pub join : Text → List Text → Text
join sep [] = []
join sep (s ∷ []) = s
join sep (s ∷ t ∷ rest) = s ++ (sep ++ join sep (t ∷ rest))

-- strings.Fields, with the word read so far
unfoldable pub fields_from : Text → Text → List Text
unfolding is_space
fields_from w [] = if is_nil w then [] else w ∷ []
fields_from w (c ∷ s) =
    let rest = fields_from (if is_space c then [] else w ++ c ∷ []) s in
    if is_space c && not (is_nil w) then w ∷ rest else rest

unfoldable pub fields : Text → List Text
unfolding fields_from
fields = fields_from []

-- The bytes of a string.
unfoldable pub utf8_rune : ℕ → List ℕ
utf8_rune c =
    if ltb c 0x80
    then c ∷ []
    else if ltb c 0x800
    then (0xc0 + c / 64) ∷ (0x80 + c % 64) ∷ []
    else if ltb c 0x10000
    then (0xe0 + c / 4096) ∷ (0x80 + c / 64 % 64) ∷ (0x80 + c % 64) ∷ []
    else (0xf0 + c / 262144) ∷ (0x80 + c / 4096 % 64) ∷ (0x80 + c / 64 % 64) ∷ (0x80 + c % 64) ∷ []

unfoldable pub utf8 : Text → List ℕ
unfolding utf8_rune
utf8 [] = []
utf8 (c ∷ s) = utf8_rune c ++ utf8 s

-- strconv.Itoa at a number that is not negative: decimal digits, on fuel
unfoldable pub digits_fuel : ℕ → ℕ → Text → Text
digits_fuel zero n acc = acc
digits_fuel (suc f) n acc =
    let here = (b'0' + n % 10) ∷ acc in
    let rest = digits_fuel f (n / 10) here in if ltb n 10 then here else rest

unfoldable pub itoa : ℕ → Text
unfolding digits_fuel
itoa n = digits_fuel (suc n) n []

-- One rune against an upper-case ASCII letter, under simple folding; the Kelvin sign and the
-- long s are the only runes outside ASCII that fold to such a letter.
unfoldable pub fold_matches : ℕ → ℕ → Bool
fold_matches p c = c == p || c == p + 32 || (p == b'K' && c == 0x212a) || (p == b'S' && c == 0x17f)

-- strings.EqualFold against a word of upper-case ASCII letters
unfoldable pub equal_fold : Text → Text → Bool
unfolding fold_matches
equal_fold [] [] = true
equal_fold (p ∷ ps) (c ∷ cs) = fold_matches p c && equal_fold ps cs
equal_fold _ _ = false

-- The number that decimal digits stand for, and `none` at any other rune.
unfoldable pub digits_value : ℕ → Text → Option ℕ
digits_value acc [] = some acc
digits_value acc (c ∷ s) =
    let rest = digits_value (acc * 10 + (c - b'0')) s in if within b'0' b'9' c then rest else none

-- `_, err := strconv.Atoi(s); err == nil`: a sign at most, then digits, within 64 bits
unfoldable pub atoi_accepts : Text → Bool
unfolding digits_value
atoi_accepts [] = false
atoi_accepts (c ∷ s) =
    let signed = c == b'-' || c == b'+' in
    let body = if signed then s else c ∷ s in
    let limit = if c == b'-' then 2 ^ 63 else 2 ^ 63 - 1 in
    not (is_nil body) && elim (digits_value 0 body) [ none ↦ false | some n ↦ leb n limit ]
