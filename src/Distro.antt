-- ===== src/Distro.antt =====
-- Identifiers of distributions: pkg/distro/id.go and pkg/distroidparser/idparser.go.
pub mod RoundTrip
mod Tests
use image_builder.Prelude.{
  ℕ, String, Option, none, some, List, [], ◌∷◌, ltb, ◌==◌, length, if◌then◌else◌,
}
use image_builder.Prelude.Result.{Result, ok, err, panic, ◌>>=◌}
use image_builder.Text.{concat, split, join}
use image_builder.Text.Filepath.{without_last}
use image_builder.Text.Decimal.{ℤ, pos, negsuc, format_int, atoi}

-- `ID`; the minor version is -1 if it is not specified.
pub record DistroId : Type 0 where
  pub name : String
  pub major_version : ℤ
  pub minor_version : ℤ

-- `ParseError` by its message
pub data ParseError : Type 0 where
  no_dash : ParseError
  too_many_dots : ParseError
  parsing_major_failed : ParseError
  parsing_minor_failed : ParseError

unfoldable pub dotted_version : ℤ → ℤ → String
unfolding format_int
dotted_version major (negsuc ℕ.zero) = format_int major
dotted_version major minor = concat (format_int major) (concat "." (format_int minor))

unfoldable pub version_string : DistroId → String
unfolding dotted_version
version_string id = dotted_version id.major_version id.minor_version

-- `ID.String`
unfoldable pub id_string : DistroId → String
unfolding version_string
id_string id = concat id.name (concat "-" (version_string id))

unfoldable pub last_part : List String → String
last_part [] = ""
last_part (part ∷ []) = part
last_part (part ∷ other ∷ parts) = last_part (other ∷ parts)

-- `strconv.Atoi` with the error that `ParseID` makes of a failure
unfoldable pub atoi_or : ParseError → String → Result ParseError ℤ
unfolding atoi
atoi_or error text = elim (atoi text) [ none ↦ err error | some n ↦ ok n ]

-- The part of `ParseID` behind the split of the version.
unfoldable pub parse_version : String → List String → Result ParseError DistroId
unfolding atoi_or
parse_version name [] = panic
parse_version name (major ∷ []) = atoi_or parsing_major_failed major >>= λ major.
    ok (record { name = name; major_version = major; minor_version = negsuc 0 })
parse_version name (major ∷ minor ∷ []) = atoi_or parsing_major_failed major >>= λ major.
    atoi_or parsing_minor_failed minor >>= λ minor.
    ok (record { name = name; major_version = major; minor_version = minor })
parse_version name (major ∷ minor ∷ other ∷ parts) = err too_many_dots

-- `ParseID`
unfoldable pub parse_id : String → Result ParseError DistroId
unfolding split join without_last last_part parse_version
parse_id id_str =
    let id_parts = split b'-' id_str in
    if ltb (length id_parts) 2
    then err no_dash
    else parse_version (join "-" (without_last id_parts)) (split b'.' (last_part id_parts))

-- The loop of `Parser.Parse` over its parsers, with the match so far. A parser that fails is passed over.
unfoldable pub match_parsers {ℓ} :
    {E : Type ℓ}
    → Option DistroId
    → List (String → Result E DistroId)
    → String
    → Result ParseError (Option DistroId)
match_parsers found [] id_str = ok found
match_parsers found (parser ∷ parsers) id_str = elim (parser id_str) [
  | ok id ↦ elim found [ none ↦ match_parsers (some id) parsers id_str | some other ↦ panic ]
  | err error ↦ match_parsers found parsers id_str
  | panic ↦ panic
]

-- `Parser.Parse`, with the parsers that the program registers, such as the loader's of pkg/distro/defs
unfoldable pub parse {ℓ} :
    {E : Type ℓ} → List (String → Result E DistroId) → String → Result ParseError DistroId
unfolding match_parsers parse_id
parse parsers id_str = match_parsers none parsers id_str >>= λ found. elim found [
  | none ↦ parse_id id_str
  | some id ↦ ok id
]

-- `Parser.Standardize`
unfoldable pub standardize {ℓ} :
    {E : Type ℓ} → List (String → Result E DistroId) → String → Result ParseError String
unfolding parse id_string
standardize parsers id_str = parse parsers id_str >>= λ id. ok (id_string id)
