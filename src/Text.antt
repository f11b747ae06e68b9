-- ===== src/Text.antt =====
-- The functions of Go's `strings` and `fmt` that the program calls on names and paths, on Unicode
-- code points. The characters that they look for are ASCII, so that bytes would give the same.
pub mod Filepath
pub mod Decimal
pub mod Splits
use Prim.Native.Char.{Char, code}
use Prim.Native.String.{◌++◌ as str_append}
use mathlib.Core.Option
use image_builder.Prelude.{
  ℕ, ◌/◌, ◌%◌, String, Bool, false, ◌&&◌, ◌||◌, Option, List, [], ◌∷◌, ◌==◌, str_eq, if◌then◌else◌,
  get_elem?, none, some,
}

-- `strings.TrimLeft(s, "/")`
unfoldable pub trim_left_slash : String → String
trim_left_slash String.[] = String.[]
trim_left_slash (String.◌∷◌ c s) = if code c == b'/' then trim_left_slash s else String.◌∷◌ c s

-- `strings.TrimRight(s, "/")`
unfoldable pub trim_right_slash : String → String
trim_right_slash String.[] = String.[]
trim_right_slash (String.◌∷◌ c s) =
    let rest = trim_right_slash s in
    if str_eq rest "" && (code c == b'/') then "" else String.◌∷◌ c rest

-- `strings.ReplaceAll(s, c, new)` for a text `c` of one character, given by its code
unfoldable pub replace_all : ℕ → String → String → String
replace_all old new String.[] = String.[]
replace_all old new (String.◌∷◌ c s) =
    let rest = replace_all old new s in
    if code c == old then str_append new rest else String.◌∷◌ c rest

-- `s[:n]`, which panics where the text is shorter. The code slices UUIDs and the names of
-- files in its cache, taken as ASCII.
unfoldable pub slice_to : ℕ → String → Option String
slice_to ℕ.zero s = some String.[]
slice_to (ℕ.suc n) String.[] = none
slice_to (ℕ.suc n) (String.◌∷◌ c s) = Option.map (λ rest. String.◌∷◌ c rest) (slice_to n s)

-- `strings.ReplaceAll(s, "/", "_")`
unfoldable pub replace_slash : String → String
replace_slash String.[] = String.[]
replace_slash (String.◌∷◌ c s) = String.◌∷◌ (if code c == b'/' then "_" else c) (replace_slash s)

abbrev pub concat : String → String → String
concat s t = str_append s t

abbrev decimal_digits : List String
decimal_digits = "0" ∷ "1" ∷ "2" ∷ "3" ∷ "4" ∷ "5" ∷ "6" ∷ "7" ∷ "8" ∷ "9" ∷ []

unfoldable pub digit : ℕ → String
digit n = elim (get_elem? decimal_digits n) [ none ↦ "" | some d ↦ d ]

-- `fmt.Sprintf("%02d", n)` for n below 100
unfoldable pub two_digits : ℕ → String
unfolding digit
two_digits n = concat (digit (n / 10)) (digit (n % 10))

-- Membership in a `map[string]bool` of which only true values are stored.
unfoldable pub contains : List String → String → Bool
contains [] x = false
contains (y ∷ ys) x = str_eq y x || contains ys x

-- `strings.Split(s, ",")`
unfoldable pub split_comma : String → List String
split_comma String.[] = "" ∷ []
split_comma (String.◌∷◌ c s) =
    let parts = split_comma s in
    if code c == b','
    then "" ∷ parts
    else elim parts [ [] ↦ [] | part ∷ others ↦ String.◌∷◌ c part ∷ others ]

-- A character in front of the first part.
unfoldable pub in_first_part : Char → List String → List String
in_first_part c [] = []
in_first_part c (part ∷ others) = String.◌∷◌ c part ∷ others

-- `strings.Split(s, c)` for a text `c` of one character, given by its code
unfoldable pub split : ℕ → String → List String
unfolding in_first_part
split sep String.[] = "" ∷ []
split sep (String.◌∷◌ c s) =
    let parts = split sep s in if code c == sep then "" ∷ parts else in_first_part c parts

-- `strings.Join(parts, sep)`
unfoldable pub join : String → List String → String
join sep [] = ""
join sep (part ∷ []) = part
join sep (part ∷ other ∷ parts) = str_append part (str_append sep (join sep (other ∷ parts)))
