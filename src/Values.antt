-- ===== src/Values.antt =====
-- core/dbcore/values.go: how a column is classified and how a scanned value is rendered.
-- A cell holds the bytes of a Go string. Times and floats are a parameter, with the tests and
-- the formatting of `time`, `math` and `strconv` that the source applies to them.
pub mod Kind
pub mod Exact
use Prim.Native.String.{String}
use Kind.{ValueKind, string, number, bool, datetime, date, time, bytes, json, uuid, unknown}
use db_crawler.Dsn.{itoa_signed}
use db_crawler.Prelude.Int.{ℤ}
use db_crawler.Prelude.{
  ℕ, ◌+◌, ◌-◌, ◌*◌, ◌/◌, ◌%◌, Bool, true, false, not, ◌&&◌, ◌||◌, List, [], ◌∷◌, ◌++◌, Option, none,
  some, ltb, leb, ◌==◌, if◌then◌else◌,
}
use db_crawler.Text.{Text, codes, utf8, itoa}

-- `Time` and `float64` with what the source asks of them; `in_plain_range` is
-- `f == 0 || (abs >= 1e-4 && abs < 1e15)`.
pub record Formats : Type 1 where
  pub Time : Type 0
  pub Float : Type 0
  pub format_time : Time → Text → Text
  pub is_nan : Float → Bool
  pub is_inf : Float → Bool
  pub is_neg_inf : Float → Bool
  pub in_plain_range : Float → Bool
  pub format_float : Float → ℕ → Text

-- A byte sequence that must follow, as inclusive ranges.
abbrev Ranges : Type 0
Ranges = List (ℕ × ℕ)

abbrev continuation : ℕ × ℕ
continuation = (0x80, 0xbf)

abbrev between : ℕ → ℕ → ℕ → Bool
between lo hi c = leb lo c && leb c hi

-- What a lead byte asks for, as in the tables of unicode/utf8.
lead : ℕ → Option Ranges
lead c =
    if ltb c 0x80
    then some []
    else if between 0xc2 0xdf c
    then some (continuation ∷ [])
    else if c == 0xe0
    then some ((0xa0, 0xbf) ∷ continuation ∷ [])
    else if c == 0xed
    then some ((0x80, 0x9f) ∷ continuation ∷ [])
    else if between 0xe1 0xef c
    then some (continuation ∷ continuation ∷ [])
    else if c == 0xf0
    then some ((0x90, 0xbf) ∷ continuation ∷ continuation ∷ [])
    else if between 0xf1 0xf3 c
    then some (continuation ∷ continuation ∷ continuation ∷ [])
    else if c == 0xf4
    then some ((0x80, 0x8f) ∷ continuation ∷ continuation ∷ [])
    else none

valid_from : Ranges → List ℕ → Bool
valid_from [] [] = true
valid_from (r ∷ rs) [] = false
valid_from [] (c ∷ s) = elim (lead c) [ none ↦ false | some rs ↦ valid_from rs s ]
valid_from ((lo, hi) ∷ rs) (c ∷ s) = between lo hi c && valid_from rs s

-- utf8.Valid
unfoldable pub utf8_valid : List ℕ → Bool
unfolding valid_from lead
utf8_valid = valid_from []

base64_digit : ℕ → ℕ
base64_digit n =
    if ltb n 26
    then b'A' + n
    else if ltb n 52
    then b'a' + (n - 26)
    else if ltb n 62
    then b'0' + (n - 52)
    else if n == 62
    then b'+'
    else b'/'

-- base64.StdEncoding.EncodeToString
unfoldable pub base64 : List ℕ → List ℕ
unfolding base64_digit
base64 [] = []
base64 (a ∷ []) = base64_digit (a / 4) ∷ base64_digit (a % 4 * 16) ∷ b'=' ∷ b'=' ∷ []
base64 (a ∷ b ∷ []) =
    base64_digit (a / 4)
    ∷ base64_digit (a % 4 * 16 + b / 16)
    ∷ base64_digit (b % 16 * 4)
    ∷ b'='
    ∷ []
base64 (a ∷ b ∷ c ∷ s) =
    base64_digit (a / 4)
    ∷ base64_digit (a % 4 * 16 + b / 16)
    ∷ base64_digit (b % 16 * 4 + c / 64)
    ∷ base64_digit (c % 64)
    ∷ base64 s

unfoldable pub has_control_bytes : List ℕ → Bool
has_control_bytes [] = false
has_control_bytes (c ∷ s) =
    let rest = has_control_bytes s in
    if ltb c 0x09 || (ltb 0x0d c && ltb c 0x20) then true else rest

-- `none` is SQL NULL.
abbrev pub Cell : Type 0
Cell = Option (List ℕ)

-- The kinds that `convertBytes` takes as text.
abbrev pub is_textual : ValueKind → Bool
is_textual bytes = false
is_textual bool = false
is_textual unknown = false
is_textual _ = true

abbrev pub is_bytes : ValueKind → Bool
is_bytes bytes = true
is_bytes _ = false

unfoldable pub convert_bytes : List ℕ → ValueKind → Cell × ValueKind
unfolding base64 utf8_valid has_control_bytes
convert_bytes b declared =
    if is_bytes declared
    then (some (base64 b), bytes)
    else if is_textual declared
    then (some b, declared)
    else if utf8_valid b && not (has_control_bytes b)
    then (some b, string)
    else (some (base64 b), bytes)

module _ (fmt : Formats) where
  -- What a driver hands back: the cases of the type switch. The integer types of the source are
  -- `int`, its unsigned one `uint`; `stringer` holds x.String(), and `fallback` the `%v` form.
  pub data DriverValue : Type 0 where
    null : DriverValue
    boolean : Bool → DriverValue
    text : Text → DriverValue
    raw : List ℕ → DriverValue
    timestamp : fmt.Time → DriverValue
    int : ℤ → DriverValue
    uint : ℕ → DriverValue
    float : fmt.Float → DriverValue
    stringer : Text → DriverValue
    fallback : Text → DriverValue

  unfoldable pub format_time : fmt.Time → ValueKind → Text
  format_time t date = fmt.format_time t (codes "2006-01-02")
  format_time t time = fmt.format_time t (codes "15:04:05.999999999")
  format_time t _ = fmt.format_time t (codes "2006-01-02T15:04:05.999999999Z07:00")

  unfoldable pub format_float : fmt.Float → Text
  format_float f =
      if fmt.is_nan f
      then codes "NaN"
      else if fmt.is_inf f
      then codes "Infinity"
      else if fmt.is_neg_inf f
      then codes "-Infinity"
      else if fmt.in_plain_range f
      then fmt.format_float f b'f'
      else fmt.format_float f b'g'

  unfoldable pub convert_value : DriverValue → ValueKind → Cell × ValueKind
  unfolding convert_bytes format_time format_float itoa_signed itoa utf8
  convert_value null declared = (none, declared)
  convert_value (boolean true) declared = (some (utf8 (codes "true")), bool)
  convert_value (boolean false) declared = (some (utf8 (codes "false")), bool)
  convert_value (text x) declared = (some (utf8 x), declared)
  convert_value (raw x) declared = convert_bytes x declared
  convert_value (timestamp x) declared = (some (utf8 (format_time x declared)), declared)
  convert_value (int x) declared = (some (utf8 (itoa_signed x)), number)
  convert_value (uint x) declared = (some (utf8 (itoa x)), number)
  convert_value (float x) declared = (some (utf8 (format_float x)), number)
  convert_value (stringer x) declared = (some (utf8 x), declared)
  convert_value (fallback x) declared = (some (utf8 x), declared)
