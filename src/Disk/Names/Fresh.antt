-- ===== src/Disk/Names/Fresh.antt =====
-- `genUniqueString` returns a fresh name, or fails when every candidate is taken.
use image_builder.Prelude.{
  ℕ, zero, suc, ◌+◌, ◌≤◌, ◌<◌, ◌≡◌, refl, String, true, false, ◌⊎◌, inl, inr, List, arith,
  Bool-cases,
}
use image_builder.Prelude.Result.{Result, ok, err, panic}
use image_builder.Text.{contains}
use image_builder.Disk.Errors.{Error, name_collision}
use image_builder.Disk.Names.{numbered, try_numbers, gen_unique_string}

module _ (base : String) (existing : List String) where
  -- The outcome of the loop over the numbers from `i` on.
  abbrev Tried : ℕ → ℕ → Result Error String → Type 0
  Tried i left (ok s) =
      (contains existing s ≡ false) × ((k : ℕ) × (i ≤ k) × (k < i + left) × (s ≡ numbered base k))
  Tried i left (err e) =
      (e ≡ name_collision)
      × ((k : ℕ) → i ≤ k → k < i + left → contains existing (numbered base k) ≡ true)
  Tried i left panic = ⊥

  Tried-later :
      (i left : ℕ) (r : Result Error String)
      → contains existing (numbered base i) ≡ true
      → Tried (i + 1) left r
      → Tried i (suc left) r
  Tried-later i left (ok s) h t = (t.0, (t.1.0, omega (arith, t), omega (arith, t), t.1.3))
  Tried-later i left (err e) h t = (
    t.0,
    λ k from to. elim (cases k from) [
      | inl here ↦ rw here h
      | inr later ↦ t.1 k later (omega arith)
    ],
  )
    where
      cases : (k : ℕ) → i ≤ k → (k ≡ i) ⊎ (i + 1 ≤ k)
      cases k h = ground arith
  Tried-later i left panic h t = t

  try_numbers-Tried : (i left : ℕ) → Tried i left (try_numbers base existing i left)
  unfolding try_numbers
  try_numbers-Tried i zero = (refl, λ k from to. absurd (omega arith))
  try_numbers-Tried i (suc left) = elim (Bool-cases (contains existing (numbered base i))) [
    | inl taken ↦ rw taken (Tried-later i left _ taken (try_numbers-Tried (i + 1) left))
    | inr free ↦ rw free (free, (i, omega arith, omega arith, refl))
  ]

  -- What `genUniqueString` promises of its result.
  abbrev pub IsUnique : Result Error String → Type 0
  IsUnique (ok s) =
      (contains existing s ≡ false) × ((s ≡ base) ⊎ ((k : ℕ) × (k < 100) × (s ≡ numbered base k)))
  IsUnique (err e) =
      (e ≡ name_collision)
      × (contains existing base ≡ true)
      × ((k : ℕ) → k < 100 → contains existing (numbered base k) ≡ true)
  IsUnique panic = ⊥

  Tried-IsUnique :
      (r : Result Error String) → contains existing base ≡ true → Tried 0 100 r → IsUnique r
  Tried-IsUnique (ok s) h t = (t.0, inr (t.1.0, omega (arith, t), t.1.3))
  Tried-IsUnique (err e) h t = (t.0, h, λ k below. t.1 k (omega arith) (omega arith))
  Tried-IsUnique panic h t = t

  -- `genUniqueString` returns the base or the base with a number below 100, and the name that it
  -- returns is not among the existing ones. It fails exactly with the collision error, and then the
  -- base and all the hundred numbered names exist.
  pub gen_unique_string-IsUnique : IsUnique (gen_unique_string base existing)
  gen_unique_string-IsUnique = elim (Bool-cases (contains existing base)) [
    | inl taken ↦
        unfold gen_unique_string in rw taken (Tried-IsUnique _ taken (try_numbers-Tried 0 100))
    | inr free ↦ unfold gen_unique_string in rw free (free, inl refl)
  ]
