-- ===== src/Text/Decimal.antt =====
-- `strconv.Itoa` and `strconv.Atoi` of Go, and `%d` of fmt.
pub mod RoundTrip
use Prim.Native.Char.{Char, code}
use image_builder.Prelude.{
  ℕ, zero, suc, ◌+◌, ◌-◌, ◌*◌, ◌/◌, ◌%◌, ◌^◌, String, Bool, true, false, ◌||◌, ◌&&◌, Option, none,
  some, List, [], ◌∷◌, ltb, leb, ◌==◌, str_eq, get_elem?, if◌then◌else◌,
}
use image_builder.Text.{concat}

-- `negsuc n` is -(n + 1).
pub data ℤ : Type 0 where
  pos : ℕ → ℤ
  negsuc : ℕ → ℤ

-- One decimal digit.
unfoldable pub digit_char : ℕ → Char
digit_char zero = "0"
digit_char (suc zero) = "1"
digit_char (suc (suc zero)) = "2"
digit_char (suc (suc (suc zero))) = "3"
digit_char (suc (suc (suc (suc zero)))) = "4"
digit_char (suc (suc (suc (suc (suc zero))))) = "5"
digit_char (suc (suc (suc (suc (suc (suc zero)))))) = "6"
digit_char (suc (suc (suc (suc (suc (suc (suc zero))))))) = "7"
digit_char (suc (suc (suc (suc (suc (suc (suc (suc zero)))))))) = "8"
digit_char (suc (suc (suc (suc (suc (suc (suc (suc (suc n))))))))) = "9"

-- The digits of a number in front of a text. Each round divides by ten, so that the number itself is
-- enough fuel.
unfoldable pub digits : ℕ → ℕ → String → String
unfolding digit_char
digits zero n out = out
digits (suc fuel) n out =
    let rest = digits fuel (n / 10) (String.◌∷◌ (digit_char (n % 10)) out) in
    if n == 0 then out else rest

unfoldable pub format : ℕ → String
unfolding digits
format n = if n == 0 then "0" else digits n n ""

-- `%d` of an int
unfoldable pub format_int : ℤ → String
unfolding format
format_int (pos n) = format n
format_int (negsuc n) = concat "-" (format (n + 1))

abbrev pub max_int : ℕ
max_int = 2 ^ 63 - 1

-- The value of decimal digits behind `n`.
unfoldable pub scan : String → ℕ → Option ℕ
scan String.[] n = some n
scan (String.◌∷◌ c s) n =
    let rest = scan s (n * 10 + (code c - b'0')) in
    if leb b'0' (code c) && leb (code c) b'9' then rest else none

unfoldable pub scan_some : String → Option ℕ
unfolding scan
scan_some String.[] = none
scan_some (String.◌∷◌ c s) = scan (String.◌∷◌ c s) 0

-- The int of a sign and a magnitude, if it is in the range of 64 bits.
unfoldable pub signed : Bool → Option ℕ → Option ℤ
signed negative none = none
signed false (some n) = if leb n max_int then some (pos n) else none
signed true (some zero) = some (pos 0)
signed true (some (suc n)) = if leb n max_int then some (negsuc n) else none

-- `strconv.Atoi`: `none` is an error.
unfoldable pub atoi : String → Option ℤ
unfolding scan_some signed
atoi String.[] = none
atoi (String.◌∷◌ c s) =
    if code c == b'-'
    then signed true (scan_some s)
    else if code c == b'+'
    then signed false (scan_some s)
    else signed false (scan_some (String.◌∷◌ c s))
