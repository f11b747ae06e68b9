-- ===== src/Text/Decimal/RoundTrip.antt =====
-- A number is read back from its decimal print.
use Prim.Native.Char.{Char, code}
use image_builder.Prelude.{
  ℕ, zero, suc, ◌+◌, ◌*◌, ◌/◌, ◌%◌, ◌≤◌, ◌<◌, String, ◌≡◌, refl, sym, ap, ◌∙◌, false, some, ◌==◌,
  arith, Bool-cases, inl, inr,
}
use image_builder.Text.Decimal.{
  pos, digit_char, digits, format, max_int, scan, scan_some, signed, atoi,
}

pub code-digit_char : (d : ℕ) → d < 10 → code (digit_char d) ≡ b'0' + d
unfolding digit_char
code-digit_char zero h = refl
code-digit_char (suc zero) h = refl
code-digit_char (suc (suc zero)) h = refl
code-digit_char (suc (suc (suc zero))) h = refl
code-digit_char (suc (suc (suc (suc zero)))) h = refl
code-digit_char (suc (suc (suc (suc (suc zero))))) h = refl
code-digit_char (suc (suc (suc (suc (suc (suc zero)))))) h = refl
code-digit_char (suc (suc (suc (suc (suc (suc (suc zero))))))) h = refl
code-digit_char (suc (suc (suc (suc (suc (suc (suc (suc zero)))))))) h = refl
code-digit_char (suc (suc (suc (suc (suc (suc (suc (suc (suc zero))))))))) h = refl
code-digit_char (suc (suc (suc (suc (suc (suc (suc (suc (suc (suc d)))))))))) h =
    absurd (omega arith)

-- A digit in front of a text, by its value.
scan-digit :
    (d : ℕ) (out : String) (n : ℕ)
    → d < 10
    → scan (String.◌∷◌ (digit_char d) out) n ≡ scan out (n * 10 + d)
unfolding scan
scan-digit d out n h = let is = code-digit_char d h in ground (arith, is)

-- Reading the digits of `n` gives `n`.
scan-digits : (fuel n : ℕ) (out : String) → n ≤ fuel → scan (digits fuel n out) 0 ≡ scan out n
unfolding digits
scan-digits zero n out h = ap (scan out) (omega arith)
scan-digits (suc fuel) n out h = elim (Bool-cases (n == 0)) [
  | inl done ↦ rw done (ap (scan out) (ground arith))
  | inr more ↦ rw more (
      scan-digits fuel (n / 10) (String.◌∷◌ (digit_char (n % 10)) out) (ground arith)
      ∙ scan-digit (n % 10) out (n / 10) (omega arith)
      ∙ ap (scan out) (omega arith))
]

-- Digits in front of a text: the first character is a digit.
pub record StartsWithDigit (s : String) : Type 0 where
  pub first : Char
  pub rest : String
  pub is : s ≡ String.◌∷◌ first rest
  pub low : b'0' ≤ code first
  pub high : code first ≤ b'9'

starts-digit : (d : ℕ) (out : String) → d < 10 → StartsWithDigit (String.◌∷◌ (digit_char d) out)
starts-digit d out h =
    let is = code-digit_char d h in
    record {
      first = digit_char d;
      rest = out;
      is = refl;
      low = omega (arith, is);
      high = omega (arith, is);
    }

digits-StartsWithDigit :
    (fuel n : ℕ) (out : String) → StartsWithDigit out → StartsWithDigit (digits fuel n out)
unfolding digits
digits-StartsWithDigit zero n out h = h
digits-StartsWithDigit (suc fuel) n out h = elim (Bool-cases (n == 0)) [
  | inl done ↦ rw done h
  | inr more ↦
      let is = code-digit_char (n % 10) (omega arith) in
      rw more (
        digits-StartsWithDigit fuel (n / 10) (String.◌∷◌ (digit_char (n % 10)) out) (record {
          first = digit_char (n % 10);
          rest = out;
          is = refl;
          low = omega (arith, is);
          high = omega (arith, is);
        }))
]

pub format-StartsWithDigit : (n : ℕ) → StartsWithDigit (format n)
unfolding format
format-StartsWithDigit zero = record {
  first = digit_char 0;
  rest = "";
  is = unfold digit_char in refl;
  low = unfold digit_char in omega arith;
  high = unfold digit_char in omega arith;
}
format-StartsWithDigit (suc m) = elim (Bool-cases (suc m == 0)) [
  | inl nothing ↦ absurd (ground arith)
  | inr more ↦ rw more (
      digits-StartsWithDigit m (suc m / 10) (String.◌∷◌ (digit_char (suc m % 10)) "")
        (starts-digit (suc m % 10) "" (omega arith)))
]

pub scan-format : (n : ℕ) → scan (format n) 0 ≡ some n
unfolding format scan
scan-format n = elim (Bool-cases (n == 0)) [
  | inl nothing ↦ rw nothing (ap some (ground arith))
  | inr more ↦ rw more (scan-digits n n "" (omega arith))
]

atoi-digits :
    (c : Char) (s : String) (n : ℕ)
    → b'0' ≤ code c
    → code c ≤ b'9'
    → scan (String.◌∷◌ c s) 0 ≡ some n
    → n ≤ max_int
    → atoi (String.◌∷◌ c s) ≡ some (pos n)
unfolding atoi scan_some signed
atoi-digits c s n low high is fits = ground (arith, is)

-- A number of an int is read back from its print.
pub atoi-format : (n : ℕ) → n ≤ max_int → atoi (format n) ≡ some (pos n)
atoi-format n fits =
    let starts = format-StartsWithDigit n in
    ap atoi starts.is
    ∙ atoi-digits starts.first starts.rest n starts.low starts.high
        (ap (λ s. scan s 0) (sym starts.is) ∙ scan-format n) fits

digits-zero : (fuel : ℕ) (out : String) → digits fuel 0 out ≡ out
unfolding digits
digits-zero zero out = refl
digits-zero (suc fuel) out = refl

one_digit : (n : ℕ) → n < 10 → n / 10 ≡ 0
one_digit n h = omega (arith, h)

mod_digit : (n : ℕ) → n < 10 → n % 10 ≡ n
mod_digit n h = omega (arith, h)

positive : (m : ℕ) → (suc m == 0) ≡ false
positive m = ground arith

-- A number of one digit is written as that digit.
pub format-digit : (n : ℕ) → n < 10 → format n ≡ String.◌∷◌ (digit_char n) String.[]
unfolding format digits
format-digit zero h = unfold digit_char in refl
format-digit (suc m) h =
    rw (positive m, one_digit (suc m) h)
      (digits-zero m (String.◌∷◌ (digit_char (suc m % 10)) "")
        ∙ ap (λ d. String.◌∷◌ (digit_char d) "") (mod_digit (suc m) h))
