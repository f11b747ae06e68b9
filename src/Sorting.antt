-- ===== src/Sorting.antt =====
-- `slices.SortFunc` by a comparison, as an insertion sort: what Go does up to twelve elements. The
-- order of elements that compare as equal is that of the insertion sort.
use mathlib.Core.List.Perm
use mathlib.Core.Path.{subst}
use mathlib.Core.List.{Perm}
use Prim.Native.Char.{code}
use image_builder.Prelude.{
  String, ◌≡◌, refl, ap, Bool, true, false, ◌&&◌, ◌||◌, List, [], ◌∷◌, ltb, ◌==◌, arith, All,
  Bool-cases, inl, inr, if◌then◌else◌,
}

-- Go compares strings by their bytes, which for UTF-8 is by their code points.
unfoldable pub less : String → String → Bool
less s String.[] = false
less String.[] (String.◌∷◌ d t) = true
less (String.◌∷◌ c s) (String.◌∷◌ d t) = ltb (code c) (code d) || ((code c == code d) && less s t)

pub less_asymm : (s t : String) → less s t ≡ true → less t s ≡ false
unfolding less
less_asymm String.[] String.[] h = refl
less_asymm (String.◌∷◌ c s) String.[] h = cc
less_asymm String.[] (String.◌∷◌ d t) h = refl
less_asymm (String.◌∷◌ c s) (String.◌∷◌ d t) h = ground (arith, less_asymm s t)

module _ {ℓ} {A : Type ℓ} (before : A → A → Bool) where
  unfoldable pub insert_sorted : A → List A → List A
  insert_sorted x [] = x ∷ []
  insert_sorted x (y ∷ ys) =
      let rest = insert_sorted x ys in if before y x then y ∷ rest else x ∷ y ∷ ys

  unfoldable pub sort_by : List A → List A
  unfolding insert_sorted
  sort_by [] = []
  sort_by (x ∷ xs) = insert_sorted x (sort_by xs)

  -- No element comes before the one in front of it.
  abbrev pub IsOrdered : List A → Type 0
  IsOrdered [] = Unit
  IsOrdered (x ∷ []) = Unit
  IsOrdered (x ∷ y ∷ ys) = (before y x ≡ false) × IsOrdered (y ∷ ys)

  insert-perm : (x : A) (ys : List A) → Perm (insert_sorted x ys) (x ∷ ys)
  unfolding insert_sorted
  insert-perm x [] = Perm.refl (x ∷ [])
  insert-perm x (y ∷ ys) = elim (Bool-cases (before y x)) [
    | inl first ↦ rw first (Perm.trans (Perm.cons y (insert-perm x ys)) (Perm.swap x y ys))
    | inr later ↦ rw later (Perm.refl (x ∷ y ∷ ys))
  ]

  pub sort_by-perm : (xs : List A) → Perm (sort_by xs) xs
  unfolding sort_by
  sort_by-perm [] = Perm.refl []
  sort_by-perm (x ∷ xs) = Perm.trans (insert-perm x (sort_by xs)) (Perm.cons x (sort_by-perm xs))

  insert-All {κ} :
      (P : A → Type κ) (x : A) (ys : List A) → P x → All P ys → All P (insert_sorted x ys)
  unfolding insert_sorted
  insert-All P x [] px h = (px, tt)
  insert-All P x (y ∷ ys) px h = elim (Bool-cases (before y x)) [
    | inl first ↦ rw first (h.0, insert-All P x ys px h.1)
    | inr later ↦ rw later (px, h)
  ]

  pub sort_by-All {κ} : (P : A → Type κ) (xs : List A) → All P xs → All P (sort_by xs)
  unfolding sort_by
  sort_by-All P [] h = tt
  sort_by-All P (x ∷ xs) h = insert-All P x (sort_by xs) h.0 (sort_by-All P xs h.1)

  module _ (asymm : (x y : A) → before x y ≡ true → before y x ≡ false) where
    insert-IsOrdered : (x : A) (ys : List A) → IsOrdered ys → IsOrdered (insert_sorted x ys)
    unfolding insert_sorted
    insert-IsOrdered x [] h = tt
    insert-IsOrdered x (y ∷ []) h = elim (Bool-cases (before y x)) [
      | inl first ↦ rw first (asymm y x first, tt)
      | inr later ↦ rw later (later, tt)
    ]
    insert-IsOrdered x (y ∷ z ∷ zs) h = elim (Bool-cases (before y x)) [
      | inl first ↦ elim (Bool-cases (before z x)) [
        | inl second ↦ rw first (
            rw second (
              h.0,
              subst IsOrdered (ap (λ b. if b then z ∷ insert_sorted x zs else x ∷ z ∷ zs) second)
                  (insert-IsOrdered x (z ∷ zs) h.1),
            ))
        | inr later ↦ rw first (rw later (asymm y x first, (later, h.1)))
      ]
      | inr later ↦ rw later (later, h)
    ]

    pub sort_by-IsOrdered : (xs : List A) → IsOrdered (sort_by xs)
    unfolding sort_by
    sort_by-IsOrdered [] = tt
    sort_by-IsOrdered (x ∷ xs) = insert-IsOrdered x (sort_by xs) (sort_by-IsOrdered xs)
