-- ===== src/Word.antt =====
-- uint64 arithmetic as in Go: sums, products and differences wrap around at 2^64.
-- `datasizes.Size` is a uint64, and so are sector counts and offsets.
use image_builder.Prelude.{ℕ, ◌+◌, ◌-◌, ◌*◌, ◌%◌, ◌^◌, ◌≤◌, ◌<◌, ◌≡◌, arith}
use native.Mathlib.Nat.{mod-eq_of_lt}

abbrev pub u64_mod : ℕ
u64_mod = 2 ^ 64

unfoldable pub add64 : ℕ → ℕ → ℕ
add64 a b = (a + b) % u64_mod

unfoldable pub sub64 : ℕ → ℕ → ℕ
sub64 a b = (a + u64_mod - b) % u64_mod

unfoldable pub mul64 : ℕ → ℕ → ℕ
mul64 a b = a * b % u64_mod

-- Below the limit the operations are those of the natural numbers.
pub add64-eq : (a b : ℕ) → a + b < u64_mod → add64 a b ≡ a + b
unfolding add64
add64-eq a b h = omega arith

pub add64-le : (a b : ℕ) → add64 a b ≤ a + b
unfolding add64
add64-le a b = omega arith

pub sub64-eq : (a b : ℕ) → a < u64_mod → b ≤ a → sub64 a b ≡ a - b
unfolding sub64
sub64-eq a b h k = omega arith

pub mul64-eq : (a b : ℕ) → a * b < u64_mod → mul64 a b ≡ a * b
unfolding mul64
mul64-eq a b h = mod-eq_of_lt h
