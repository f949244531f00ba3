-- ===== src/Tests/Cells.antt =====
-- The theorems on cells at concrete values.
use db_crawler.Prelude.{◌≡◌, not, [], ◌∷◌}
use db_crawler.Tests.Base.{formats}
use db_crawler.Values.Exact.{is_some, is_null_value, convert_value-null}
use db_crawler.Values.Kind.{ValueKind}
use db_crawler.Values.{raw, convert_value}

convert_value-null_example :
    is_some (convert_value formats (raw (255 ∷ 0 ∷ [])) ValueKind.unknown).0
    ≡ not (is_null_value formats (raw (255 ∷ 0 ∷ [])))
convert_value-null_example = convert_value-null formats (raw (255 ∷ 0 ∷ [])) ValueKind.unknown
