-- ===== src/Dictionary.antt =====
-- Go's `map[string]V` as an association list with one entry to a key. Where the code ranges over a
-- map, the order of the entries is a parameter of the model.
use image_builder.Prelude.{
  String, ◌≡◌, ◌≢◌, refl, sym, ap, ◌∙◌, true, false, Option, none, some, List, [], ◌∷◌, str_eq,
  eq_iff, arith, Bool-cases, inl, inr, if◌then◌else◌,
}

pub false-apart : false ≢ true
false-apart h = cc

differs : (k j : String) → str_eq j k ≡ false → str_eq k j ≡ false
differs k j h = elim (Bool-cases (str_eq k j)) [
  | inl same ↦ absurd (false-apart (sym h ∙ (eq_iff j k).1 (sym ((eq_iff k j).0 same))))
  | inr other ↦ other
]

module _ {ℓ} {V : Type ℓ} where
  unfoldable pub lookup : String → List (String × V) → Option V
  lookup k [] = none
  lookup k ((j, v) ∷ m) = if str_eq j k then some v else lookup k m

  -- `m[k] = v`
  unfoldable pub insert : String → V → List (String × V) → List (String × V)
  insert k v [] = (k, v) ∷ []
  insert k v ((j, w) ∷ m) = if str_eq j k then (k, v) ∷ m else (j, w) ∷ insert k v m

  -- `delete(m, k)`
  unfoldable pub delete : String → List (String × V) → List (String × V)
  delete k [] = []
  delete k ((j, w) ∷ m) = let rest = delete k m in if str_eq j k then rest else (j, w) ∷ rest

  pub lookup-insert :
      (key sought : String) (value : V) (dict : List (String × V))
      → lookup sought (insert key value dict)
        ≡ (if str_eq key sought then some value else lookup sought dict)
  unfolding insert lookup
  lookup-insert key sought value [] = refl
  lookup-insert key sought value ((first, old) ∷ rest) =
      let below = lookup-insert key sought value rest in
      ground (arith, eq_iff first sought, eq_iff first key, eq_iff key sought, below)

  pub lookup-delete :
      (key sought : String) (dict : List (String × V))
      → lookup sought (delete key dict) ≡ (if str_eq key sought then none else lookup sought dict)
  unfolding delete lookup
  lookup-delete key sought [] = ground arith
  lookup-delete key sought ((first, old) ∷ rest) =
      let below = lookup-delete key sought rest in
      ground (arith, eq_iff first sought, eq_iff first key, eq_iff key sought, below)

  -- Each key has one entry.
  abbrev pub IsDistinct : List (String × V) → Type ℓ
  IsDistinct [] = Unit
  IsDistinct ((k, v) ∷ m) = (lookup k m ≡ none) × IsDistinct m

  pub insert-IsDistinct :
      (k : String) (v : V) (m : List (String × V)) → IsDistinct m → IsDistinct (insert k v m)
  unfolding insert lookup
  insert-IsDistinct k v [] h = (refl, tt)
  insert-IsDistinct k v ((j, w) ∷ m) h = elim (Bool-cases (str_eq j k)) [
    | inl same ↦ rw same (ap (λ i. lookup i m) (sym ((eq_iff j k).0 same)) ∙ h.0, h.1)
    | inr other ↦
        rw other (lookup-insert k j v m ∙ rw (differs k j other) h.0, insert-IsDistinct k v m h.1)
  ]

  pub delete-IsDistinct :
      (k : String) (m : List (String × V)) → IsDistinct m → IsDistinct (delete k m)
  unfolding delete lookup
  delete-IsDistinct k [] h = tt
  delete-IsDistinct k ((j, w) ∷ m) h = elim (Bool-cases (str_eq j k)) [
    | inl same ↦ rw same (delete-IsDistinct k m h.1)
    | inr other ↦
        rw other (lookup-delete k j m ∙ rw (differs k j other) h.0, delete-IsDistinct k m h.1)
  ]
