-- ===== src/Split/Batches.antt =====
-- core/dbcore/sqltext.go: `splitOnGoBatches` against a description by the groups of lines between
-- the separators.
use db_crawler.Prelude.{◌≡◌, true, false, List, [], ◌∷◌, ◌++◌, All}
use db_crawler.Split.{Statement, batch, is_go_separator}
use db_crawler.Text.{Text}

-- None of the lines is a separator.
abbrev pub Unseparated : List Text → Type 0
Unseparated = All (λ (line : Text). is_go_separator line ≡ false)

-- A group of lines, and groups with the separator in front of each.
abbrev pub go_lines : List Text → List (Text × List Text) → List Text
go_lines g [] = g
go_lines g ((sep, h) ∷ rest) = g ++ sep ∷ go_lines h rest

abbrev pub Separated : List (Text × List Text) → Type 0
Separated = All (λ (e : Text × List Text). (is_go_separator e.0 ≡ true) × Unseparated e.1)

-- The statement of each group that is not blank.
abbrev pub batches : Statement → List Text → List (Text × List Text) → List Statement
batches st g [] = batch st g
batches st g ((sep, h) ∷ rest) = batch st g ++ batches st h rest
