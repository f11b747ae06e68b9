-- ===== src/Text/Splits.antt =====
-- Splitting a text and joining it again.
use Prim.Native.Char.{Char, code}
use Prim.Native.String.{◌++◌ as str_append}
use Prim.Native.String.append
use image_builder.Prelude.{
  ℕ, String, ◌≡◌, refl, sym, ap, ◌∙◌, Bool, true, not, ◌&&◌, List, [], ◌∷◌, ◌++◌, ◌==◌, arith,
  Bool-cases, inl, inr,
}
use image_builder.Text.{in_first_part, split, join}

-- The separator is not in the text.
unfoldable pub lacks : ℕ → String → Bool
lacks sep String.[] = true
lacks sep (String.◌∷◌ c s) = not (code c == sep) && lacks sep s

pub split-cons :
    (sep : ℕ) (s : String)
    → (part : String) × (others : List String) × (split sep s ≡ part ∷ others)
unfolding split
split-cons sep String.[] = ("", [], refl)
split-cons sep (String.◌∷◌ c s) =
    let (part, others, e) = split-cons sep s in
    elim (Bool-cases (code c == sep)) [
      | inl here ↦ ("", split sep s, rw here refl)
      | inr other ↦ (String.◌∷◌ c part, others, rw other (ap (in_first_part c) e))
    ]

in_first_part-append :
    (c : Char) (xs ys : List String) (part : String) (others : List String)
    → xs ≡ part ∷ others
    → in_first_part c (xs ++ ys) ≡ in_first_part c xs ++ ys
unfolding in_first_part
in_first_part-append c [] ys part others e = cc
in_first_part-append c (x ∷ xs) ys part others e = refl

-- A separator between two texts splits between their parts.
pub split-append :
    (sep : ℕ) (c : Char) (s t : String)
    → (code c == sep) ≡ true
    → split sep (str_append s (String.◌∷◌ c t)) ≡ split sep s ++ split sep t
unfolding split
split-append sep c String.[] t h = ap (split sep) (append.nil (String.◌∷◌ c t)) ∙ rw h refl
split-append sep c (String.◌∷◌ d s) t h =
    let (part, others, e) = split-cons sep s in
    ap (split sep) (append.cons d s (String.◌∷◌ c t)) ∙ elim (Bool-cases (code d == sep)) [
      | inl here ↦ rw here (ap (◌∷◌ "") (split-append sep c s t h))
      | inr other ↦ rw other (
          ap (in_first_part d) (split-append sep c s t h)
          ∙ in_first_part-append d (split sep s) (split sep t) part others e)
    ]

pub split_lacking : (sep : ℕ) (s : String) → lacks sep s ≡ true → split sep s ≡ s ∷ []
unfolding split lacks
split_lacking sep String.[] h = refl
split_lacking sep (String.◌∷◌ c s) h = elim (Bool-cases (code c == sep)) [
  | inl here ↦ absurd (ground arith)
  | inr other ↦ rw other (ap (in_first_part c) (split_lacking sep s (ground arith)))
]

join-in_first_part :
    (sep : String) (c : Char) (xs : List String) (part : String) (others : List String)
    → xs ≡ part ∷ others
    → join sep (in_first_part c xs) ≡ String.◌∷◌ c (join sep xs)
unfolding join in_first_part
join-in_first_part sep c [] part others e = cc
join-in_first_part sep c (x ∷ []) part others e = refl
join-in_first_part sep c (x ∷ y ∷ xs) part others e = append.cons c x _

join-empty_first :
    (c : Char) (part : String) (others : List String)
    → join (String.◌∷◌ c "") ("" ∷ part ∷ others)
      ≡ String.◌∷◌ c (join (String.◌∷◌ c "") (part ∷ others))
unfolding join
join-empty_first c part others =
    append.nil _ ∙ append.cons c "" _ ∙ ap (String.◌∷◌ c) (append.nil _)

-- The parts of a text, joined by the separator, are the text.
pub join-split :
    (sep : ℕ) (c : Char) (s : String)
    → ((d : Char) → (code d == sep) ≡ true → d ≡ c)
    → join (String.◌∷◌ c "") (split sep s) ≡ s
unfolding split
join-split sep c String.[] h = unfold join in refl
join-split sep c (String.◌∷◌ d s) h =
    let (part, others, e) = split-cons sep s in
    elim (Bool-cases (code d == sep)) [
      | inl here ↦ rw here (
          ap (λ ps. join (String.◌∷◌ c "") ("" ∷ ps)) e
          ∙ join-empty_first c part others
          ∙ ap (λ ps. String.◌∷◌ c (join (String.◌∷◌ c "") ps)) (sym e)
          ∙ ap (String.◌∷◌ c) (join-split sep c s h)
          ∙ ap (λ x. String.◌∷◌ x s) (sym (h d here)))
      | inr other ↦ rw other (
          join-in_first_part (String.◌∷◌ c "") d (split sep s) part others e
          ∙ ap (String.◌∷◌ d) (join-split sep c s h))
    ]

pub lacks-append :
    (sep : ℕ) (s t : String)
    → lacks sep s ≡ true
    → lacks sep t ≡ true
    → lacks sep (str_append s t) ≡ true
unfolding lacks
lacks-append sep String.[] t h k = ap (lacks sep) (append.nil t) ∙ k
lacks-append sep (String.◌∷◌ c s) t h k =
    ap (lacks sep) (append.cons c s t) ∙ ground (arith, lacks-append sep s t)
