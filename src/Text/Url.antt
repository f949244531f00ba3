-- ===== src/Text/Url.antt =====
-- The parts of `net/url` and `net` that core/dbcore/dsn.go uses: percent encoding, query strings
-- and the printed form of a URL with a user, a host, a path and a query.
use db_crawler.Prelude.{
  ℕ, ◌+◌, ◌-◌, ◌/◌, ◌%◌, Bool, true, false, ◌&&◌, ◌||◌, List, [], ◌∷◌, ◌++◌, ltb, leb, ◌==◌,
  if◌then◌else◌,
}
use db_crawler.Text.{Text, codes, utf8, text_eq, join, is_nil}

-- One of the bytes.
pub byte_in : ℕ → Text → Bool
byte_in c [] = false
byte_in c (d ∷ s) = c == d || byte_in c s

-- Letters, digits and `-_.~` are never escaped.
unfoldable pub unreserved : ℕ → Bool
unfolding byte_in
unreserved c =
    (leb b'a' c && leb c b'z')
    || (leb b'A' c && leb c b'Z')
    || (leb b'0' c && leb c b'9')
    || byte_in c (codes "-_.~")

hex_digit : ℕ → ℕ
hex_digit n = if ltb n 10 then b'0' + n else b'A' + (n - 10)

unfoldable pub percent : ℕ → Text
unfolding hex_digit
percent c = b'%' ∷ hex_digit (c / 16) ∷ hex_digit (c % 16) ∷ []

-- Bytes, each kept or escaped.
unfoldable pub escape_bytes : (ℕ → Bool) → List ℕ → Text
unfolding percent
escape_bytes keep [] = []
escape_bytes keep (c ∷ s) = (if keep c then c ∷ [] else percent c) ++ escape_bytes keep s

query_byte : ℕ → Text
unfolding percent unreserved
query_byte c = if c == b' ' then b'+' ∷ [] else if unreserved c then c ∷ [] else percent c

query_bytes : List ℕ → Text
unfolding query_byte
query_bytes [] = []
query_bytes (c ∷ s) = query_byte c ++ query_bytes s

-- url.QueryEscape
unfoldable pub query_escape : Text → Text
unfolding query_bytes utf8
query_escape s = query_bytes (utf8 s)

-- escape in the modes encodeUserPassword, encodeHost and encodePath
unfoldable pub escape_user : Text → Text
unfolding escape_bytes utf8 unreserved byte_in
escape_user s = escape_bytes (λ c. unreserved c || byte_in c (codes "$&+,;=")) (utf8 s)

unfoldable pub escape_host : Text → Text
unfolding escape_bytes utf8 unreserved byte_in
escape_host s = escape_bytes (λ c. unreserved c || byte_in c (codes "!$&'()*+,;=:[]<>\"")) (utf8 s)

unfoldable pub escape_path : Text → Text
unfolding escape_bytes utf8 unreserved byte_in text_eq
escape_path s =
    if text_eq s (codes "*")
    then s
    else escape_bytes (λ c. unreserved c || byte_in c (codes "$&+,/:;=@")) (utf8 s)

-- s < t for strings
unfoldable pub text_lt : Text → Text → Bool
text_lt s [] = false
text_lt [] (d ∷ t) = true
text_lt (c ∷ s) (d ∷ t) = ltb c d || (c == d && text_lt s t)

-- url.Values, in the order in which the keys came in.
abbrev pub Values : Type 0
Values = List (Text × List Text)

unfoldable pub values_set : Text → Text → Values → Values
unfolding text_eq
values_set k v [] = (k, v ∷ []) ∷ []
values_set k v ((j, w) ∷ q) = if text_eq j k then (k, v ∷ []) ∷ q else (j, w) ∷ values_set k v q

unfoldable pub values_add : Text → Text → Values → Values
unfolding text_eq
values_add k v [] = (k, v ∷ []) ∷ []
values_add k v ((j, w) ∷ q) =
    if text_eq j k then (j, w ++ v ∷ []) ∷ q else (j, w) ∷ values_add k v q

values_insert : Text × List Text → Values → Values
unfolding text_lt
values_insert e [] = e ∷ []
values_insert e (f ∷ q) = if text_lt f.0 e.0 then f ∷ values_insert e q else e ∷ f ∷ q

values_sort : Values → Values
unfolding values_insert
values_sort [] = []
values_sort (e ∷ q) = values_insert e (values_sort q)

pairs : Text → List Text → List Text
pairs k [] = []
pairs k (v ∷ vs) = (query_escape k ++ (b'=' ∷ query_escape v)) ∷ pairs k vs

all_pairs : Values → List Text
unfolding pairs
all_pairs [] = []
all_pairs ((k, vs) ∷ q) = pairs k vs ++ all_pairs q

-- url.Values.Encode
unfoldable pub values_encode : Values → Text
unfolding all_pairs values_sort join
values_encode q = join (codes "&") (all_pairs (values_sort q))

-- url.URL{Scheme, UserPassword(user, password), Host, Path, RawQuery}.String()
unfoldable pub url_string : Text → Text → Text → Text → Text → Text → Text
unfolding escape_user escape_host escape_path
url_string scheme user password host path query =
    scheme
    ++ (codes "://"
        ++ (escape_user user
            ++ (b':'
                ∷ (escape_user password
                    ++ (b'@'
                        ∷ (escape_host host
                            ++ (escape_path path
                                ++ (if is_nil query then [] else b'?' ∷ query))))))))

-- net.JoinHostPort
unfoldable pub join_host_port : Text → Text → Text
unfolding byte_in
join_host_port host port =
    if byte_in b':' host then b'[' ∷ (host ++ (codes "]:" ++ port)) else host ++ (b':' ∷ port)
