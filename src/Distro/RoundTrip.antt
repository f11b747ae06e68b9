-- ===== src/Distro/RoundTrip.antt =====
-- An identifier is read back from its print.
use Prim.Native.Char.{Char, code}
use Prim.Native.String.{◌++◌ as str_append}
use Prim.Native.String.append
use mathlib.Core.Path.{ap₂}
use text.Mathlib.TextEquality.{codes_equal}
use image_builder.Prelude.{
  ℕ, ◌≤◌, String, ◌≡◌, refl, sym, ap, ◌∙◌, ◌⊎◌, inl, inr, true, false, List, [], ◌∷◌, ◌++◌, ltb,
  ◌==◌, length, length-append, zero, suc, ◌/◌, ◌%◌, Bool-cases, arith,
}
use image_builder.Prelude.Result.{ok, ◌>>=◌}
use image_builder.Text.{concat, split, join}
use image_builder.Text.Filepath.{without_last}
use image_builder.Text.Splits.{
  lacks, split-cons, split-append, split_lacking, join-split, lacks-append,
}
use image_builder.Text.Decimal.{pos, negsuc, digit_char, digits, format, format_int, max_int}
use image_builder.Text.Decimal.RoundTrip.{atoi-format, code-digit_char}
use image_builder.Distro.{
  DistroId, ParseError, parsing_major_failed, parsing_minor_failed, dotted_version, version_string,
  id_string, last_part, atoi_or, parse_version, parse_id,
}

-- A version that `ParseID` returns: an int, and the minor version an int or none.
pub record IsVersion (id : DistroId) (major : ℕ) : Type 0 where
  pub is_major : id.major_version ≡ pos major
  pub major_fits : major ≤ max_int
  pub minor : (id.minor_version ≡ negsuc 0) ⊎ ((n : ℕ) × (id.minor_version ≡ pos n) × (n ≤ max_int))

split-version :
    (name version : String)
    → lacks b'-' version ≡ true
    → split b'-' (concat name (concat "-" version)) ≡ split b'-' name ++ version ∷ []
split-version name version h =
    ap (λ s. split b'-' (str_append name s))
      (append.cons "-" "" version ∙ ap (String.◌∷◌ "-") (append.nil version))
    ∙ split-append b'-' "-" name version refl
    ∙ ap (λ ps. split b'-' name ++ ps) (split_lacking b'-' version h)

without_last-append : (xs : List String) (x : String) → without_last (xs ++ x ∷ []) ≡ xs
unfolding without_last
without_last-append [] x = refl
without_last-append (y ∷ []) x = refl
without_last-append (y ∷ z ∷ xs) x = ap (◌∷◌ y) (without_last-append (z ∷ xs) x)

last_part-append : (xs : List String) (x : String) → last_part (xs ++ x ∷ []) ≡ x
unfolding last_part
last_part-append [] x = refl
last_part-append (y ∷ []) x = refl
last_part-append (y ∷ z ∷ xs) x = last_part-append (z ∷ xs) x

lacks-digits :
    (sep fuel n : ℕ) (out : String)
    → suc sep ≤ b'0'
    → lacks sep out ≡ true
    → lacks sep (digits fuel n out) ≡ true
unfolding digits lacks
lacks-digits sep zero n out low h = h
lacks-digits sep (suc fuel) n out low h = elim (Bool-cases (n == 0)) [
  | inl done ↦ rw done h
  | inr more ↦ rw more (
      lacks-digits sep fuel (n / 10) (String.◌∷◌ (digit_char (n % 10)) out) low
        (ground (arith, code-digit_char (n % 10) (omega arith))))
]

lacks-format : (sep n : ℕ) → suc sep ≤ b'0' → lacks sep (format n) ≡ true
unfolding format lacks
lacks-format sep n low = elim (Bool-cases (n == 0)) [
  | inl nothing ↦ rw nothing (ground arith)
  | inr more ↦ rw more (lacks-digits sep n n "" low refl)
]

atoi_or-format : (error : ParseError) (n : ℕ) → n ≤ max_int → atoi_or error (format n) ≡ ok (pos n)
unfolding atoi_or
atoi_or-format error n fits = rw (atoi-format n fits, atoi_or) refl

two_parts :
    (part : String) (others : List String) (version : String)
    → ltb (length ((part ∷ others) ++ version ∷ [])) 2 ≡ false
two_parts part others version = ground (arith, length-append others (version ∷ []))

dash : (d : Char) → (code d == b'-') ≡ true → d ≡ "-"
dash d here = codes_equal d "-" (ground arith)

-- Behind the last dash, which the version does not have, stands the version.
parse_id-parse_version :
    (name version : String)
    → lacks b'-' version ≡ true
    → parse_id (concat name (concat "-" version)) ≡ parse_version name (split b'.' version)
unfolding parse_id
parse_id-parse_version name version h =
    let (part, others, e) = split-cons b'-' name in
    let parts = split-version name version h in
    rw parts (
      rw (ap (λ ps. ltb (length (ps ++ version ∷ [])) 2) e ∙ two_parts part others version) (
        ap₂ parse_version
          (ap (join "-") (without_last-append (split b'-' name) version)
            ∙ join-split b'-' "-" name (λ d here. dash d here))
          (ap (split b'.') (last_part-append (split b'-' name) version))))

parse_major :
    (name : String) (major : ℕ)
    → major ≤ max_int
    → parse_id (concat name (concat "-" (dotted_version (pos major) (negsuc 0))))
      ≡ ok (record { name = name; major_version = pos major; minor_version = negsuc 0 })
unfolding dotted_version format_int parse_version
parse_major name major fits =
    parse_id-parse_version name (format major) (lacks-format b'-' major (omega arith))
    ∙ ap (parse_version name)
        (split_lacking b'.' (format major) (lacks-format b'.' major (omega arith)))
    ∙ ap
        (λ r. r >>= λ major.
          ok (record { name = name; major_version = major; minor_version = negsuc 0 }))
        (atoi_or-format parsing_major_failed major fits)

split-dotted :
    (major minor : ℕ)
    → split b'.' (concat (format major) (concat "." (format minor)))
      ≡ format major ∷ format minor ∷ []
split-dotted major minor =
    ap (λ s. split b'.' (str_append (format major) s))
      (append.cons "." "" (format minor) ∙ ap (String.◌∷◌ ".") (append.nil (format minor)))
    ∙ split-append b'.' "." (format major) (format minor) refl
    ∙ ap₂ (λ xs ys. xs ++ ys)
        (split_lacking b'.' (format major) (lacks-format b'.' major (omega arith)))
        (split_lacking b'.' (format minor) (lacks-format b'.' minor (omega arith)))

parse_major_minor :
    (name : String) (major minor : ℕ)
    → major ≤ max_int
    → minor ≤ max_int
    → parse_id (concat name (concat "-" (dotted_version (pos major) (pos minor))))
      ≡ ok (record { name = name; major_version = pos major; minor_version = pos minor })
unfolding dotted_version format_int parse_version
parse_major_minor name major minor fits fits' =
    parse_id-parse_version name (concat (format major) (concat "." (format minor))) (
      lacks-append b'-' (format major) (concat "." (format minor))
        (lacks-format b'-' major (omega arith))
        (lacks-append b'-' "." (format minor) (unfold lacks in refl)
          (lacks-format b'-' minor (omega arith))))
    ∙ ap (parse_version name) (split-dotted major minor)
    ∙ rw
        (
          atoi_or-format parsing_major_failed major fits,
          atoi_or-format parsing_minor_failed minor fits',
        )
        refl

-- `ParseID` reads the text of an identifier as that identifier, for every name, with or without dashes,
-- where the major version and, if there is one, the minor version are natural numbers that an int holds.
pub parse_id-id_string :
    (id : DistroId) (major : ℕ) → IsVersion id major → parse_id (id_string id) ≡ ok id
unfolding id_string version_string
parse_id-id_string id major v = elim v.minor [
  | inl missing ↦
      ap (λ version. parse_id (concat id.name (concat "-" version)))
        (ap₂ dotted_version v.is_major missing)
      ∙ parse_major id.name major v.major_fits
      ∙ ap₂ (λ M m. ok (record { name = id.name; major_version = M; minor_version = m }))
          (sym v.is_major) (sym missing)
  | inr (n, is, fits) ↦
      ap (λ version. parse_id (concat id.name (concat "-" version)))
        (ap₂ dotted_version v.is_major is)
      ∙ parse_major_minor id.name major n v.major_fits fits
      ∙ ap₂ (λ M m. ok (record { name = id.name; major_version = M; minor_version = m }))
          (sym v.is_major) (sym is)
]
