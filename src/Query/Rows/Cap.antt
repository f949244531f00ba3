-- ===== src/Query/Rows/Cap.antt =====
-- How many rows are read, and when the result says that there are more.
use db_crawler.Prelude.Int.{ℤ, pos, negsuc}
use db_crawler.Prelude.{
  ℕ, suc, ◌+◌, ◌≤◌, ◌≡◌, refl, ap, ◌∙◌, false, List, [], ◌∷◌, ◌++◌, Option, none, arith, ltb, leb,
  length, length-append, if_cases,
}
use Prim.Native.Nat.{min}
use db_crawler.Query.Rows.{
  Failure, Column, Fetch, row, bad_row, Fetched, Read, read_loop, read_rows, convert_row,
}
use db_crawler.Text.{Unicode}
use db_crawler.Values.{Formats, Cell}

module _ {fmt : Formats} where
  -- Every row can be scanned.
  abbrev pub Scannable : List (Fetch fmt) → Type 0
  Scannable [] = Unit
  Scannable (bad_row e ∷ rest) = ⊥
  Scannable (row vs ∷ rest) = Scannable rest

  read_loop_cap :
      (n : ℕ) (end : Option Failure) (cols : List Column) (out : List (List Cell))
      (fs : List (Fetch fmt))
      → Scannable fs
      → length out ≤ n
      → (length (read_loop fmt (pos n) end cols out fs).rows ≡ min n (length out + length fs))
        × ((read_loop fmt (pos n) end cols out fs).truncated ≡ ltb n (length out + length fs))
  unfolding read_loop
  read_loop_cap n end cols out [] s h = (omega arith, ground arith)
  read_loop_cap n end cols out (bad_row e ∷ fs) s h = absurd s
  read_loop_cap n end cols out (row vs ∷ fs) s h =
      if_cases P (leb n (length out)) (λ e. (ground arith, ground arith))
        (λ e. go (read_loop_cap n end cols' out' fs s (ground (arith, longer))))
    where
      P : Read fmt → Type 0
      P r =
          (length r.rows ≡ min n (length out + suc (length fs)))
          × (r.truncated ≡ ltb n (length out + suc (length fs)))

      cols' : List Column
      cols' = (convert_row fmt cols vs).1

      out' : List (List Cell)
      out' = out ++ (convert_row fmt cols vs).0 ∷ []

      longer : length out' ≡ length out + 1
      longer = length-append out ((convert_row fmt cols vs).0 ∷ [])

      later : Read fmt
      later = read_loop fmt (pos n) end cols' out' fs

      total : length out' + length fs ≡ length out + suc (length fs)
      total = omega (arith, longer)

      go :
          (length later.rows ≡ min n (length out' + length fs))
            × (later.truncated ≡ ltb n (length out' + length fs))
          → P later
      go (count, more) = (count ∙ ap (min n) total, more ∙ ap (ltb n) total)

  -- With no cap every row is read.
  read_loop_no_cap :
      (n : ℕ) (end : Option Failure) (cols : List Column) (out : List (List Cell))
      (fs : List (Fetch fmt))
      → Scannable fs
      → (length (read_loop fmt (negsuc n) end cols out fs).rows ≡ length out + length fs)
        × ((read_loop fmt (negsuc n) end cols out fs).truncated ≡ false)
  unfolding read_loop
  read_loop_no_cap n end cols out [] s = (omega arith, refl)
  read_loop_no_cap n end cols out (bad_row e ∷ fs) s = absurd s
  read_loop_no_cap n end cols out (row vs ∷ fs) s =
      let r = convert_row fmt cols vs in
      let (count, more) = read_loop_no_cap n end r.1 (out ++ r.0 ∷ []) fs s in
      (omega (arith, count, length-append out (r.0 ∷ [])), more)

  -- What the result says of a result set whose rows can all be scanned.
  abbrev pub Capped : ℤ → Fetched fmt → Read fmt → Type 0
  Capped (pos n) f r =
      (length r.rows ≡ min n (length f.fetches)) × (r.truncated ≡ ltb n (length f.fetches))
  Capped (negsuc n) f r = (length r.rows ≡ length f.fetches) × (r.truncated ≡ false)

  -- For a result set whose columns are known and whose rows can all be scanned, readRows with
  -- a cap of n keeps the smaller of n and the number of rows, and reports truncation if and
  -- only if there are more than n; with a negative cap it keeps all rows and reports no
  -- truncation.
  pub read_rows-Capped :
      ⦃u : Unicode⦄ (cap : ℤ) (f : Fetched fmt)
      → f.column_error ≡ none
      → Scannable f.fetches
      → Capped cap f (read_rows fmt f cap)
  unfolding read_rows
  read_rows-Capped (pos n) f ok s =
      let total : 0 + length f.fetches ≡ length f.fetches = omega arith in
      rw (ok, read_rows)
        (
          (read_loop_cap n f.end_error _ [] f.fetches s (omega arith)).0 ∙ ap (min n) total,
          (read_loop_cap n f.end_error _ [] f.fetches s (omega arith)).1 ∙ ap (ltb n) total,
        )
  read_rows-Capped (negsuc n) f ok s =
      let total : 0 + length f.fetches ≡ length f.fetches = omega arith in
      rw (ok, read_rows)
        (
          (read_loop_no_cap n f.end_error _ [] f.fetches s).0 ∙ total,
          (read_loop_no_cap n f.end_error _ [] f.fetches s).1,
        )
