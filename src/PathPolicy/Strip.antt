-- ===== src/PathPolicy/Strip.antt =====
-- A name at the beginning of a path: what `match` compares, and what is left of the path.
use image_builder.Prelude.{
  ℕ, ◌≤◌, ◌<◌, ◌+◌, String, ◌≡◌, ◌≢◌, refl, sym, ap, ◌∙◌, Bool, true, false, Option, none, some,
  List, [], ◌∷◌, ltb, length, str_eq, eq_iff, if◌then◌else◌, arith, Bool-cases, inl, inr,
}
use image_builder.PathPolicy.Trie.{all_equal, matches, drop}

-- What follows the name on the path, if the path begins with it.
unfoldable pub strip : (name path : List String) → Option (List String)
strip [] path = some path
strip (n ∷ name) [] = none
strip (n ∷ name) (p ∷ path) = let rest = strip name path in if str_eq p n then rest else none

abbrev pub of_some : Option (List String) → List String
of_some none = []
of_some (some left) = left

abbrev is_some_path : Option (List String) → Bool
is_some_path none = false
is_some_path (some left) = true

false-apart : false ≢ true
false-apart h = cc

pub strip-same :
    (n : String) (name : List String) (p : String) (path left : List String)
    → strip (n ∷ name) (p ∷ path) ≡ some left
    → (p ≡ n) × (strip name path ≡ some left)
unfolding strip
strip-same n name p path left e = elim (Bool-cases (str_eq p n)) [
  | inl same ↦ ((eq_iff p n).0 same, sym (ap (λ b. if b then strip name path else none) same) ∙ e)
  | inr other ↦ absurd (
      false-apart (ap is_some_path (sym (ap (λ b. if b then strip name path else none) other) ∙ e)))
]

pub strip-equal :
    (n : String) (name : List String) (p : String) (path : List String)
    → p ≡ n
    → strip (n ∷ name) (p ∷ path) ≡ strip name path
unfolding strip
strip-equal n name p path same = ap (λ b. if b then strip name path else none) ((eq_iff p n).1 same)

pub length-strip :
    (name path left : List String)
    → strip name path ≡ some left
    → length path ≡ length name + length left
unfolding strip
length-strip [] path left e = omega (arith, ap (λ o. length (of_some o)) e)
length-strip (n ∷ name) [] left e = cc
length-strip (n ∷ name) (p ∷ path) left e = elim (Bool-cases (str_eq p n)) [
  | inl same ↦ omega (
    arith,
    length-strip name path left (sym (ap (λ b. if b then strip name path else none) same) ∙ e),
  )
  | inr other ↦ absurd (
      false-apart (ap is_some_path (sym (ap (λ b. if b then strip name path else none) other) ∙ e)))
]

pub all_equal-strip :
    (name path left : List String)
    → strip name path ≡ some left
    → (all_equal name path ≡ true) × (drop (length name) path ≡ left)
unfolding strip all_equal drop
all_equal-strip [] path left e = (refl, ap of_some e)
all_equal-strip (n ∷ name) [] left e = cc
all_equal-strip (n ∷ name) (p ∷ path) left e = elim (Bool-cases (str_eq p n)) [
  | inl same ↦ rw same (
      all_equal-strip name path left (sym (ap (λ b. if b then strip name path else none) same) ∙ e))
  | inr other ↦ absurd (
      false-apart (ap is_some_path (sym (ap (λ b. if b then strip name path else none) other) ∙ e)))
]

all_equal-none : (name path : List String) → strip name path ≡ none → all_equal name path ≡ false
unfolding strip all_equal
all_equal-none [] path e = cc
all_equal-none (n ∷ name) [] e = refl
all_equal-none (n ∷ name) (p ∷ path) e = elim (Bool-cases (str_eq p n)) [
  | inl same ↦
      rw same
        (all_equal-none name path (sym (ap (λ b. if b then strip name path else none) same) ∙ e))
  | inr other ↦ rw other refl
]

-- `match` and what it leaves.
pub matches-none : (name path : List String) → strip name path ≡ none → matches name path ≡ false
unfolding matches
matches-none name path e = elim (Bool-cases (ltb (length path) (length name))) [
  | inl short ↦ rw short refl
  | inr long ↦ rw long (all_equal-none name path e)
]

-- Stripping in two steps.
pub strip-strip :
    (name key path left : List String) (rest : List String)
    → strip name key ≡ some left
    → strip name path ≡ some rest
    → strip key path ≡ strip left rest
unfolding strip
strip-strip [] key path left rest e f =
    ap (λ o. strip (of_some o) path) e ∙ ap (λ o. strip left (of_some o)) f
strip-strip (n ∷ name) [] path left rest e f = cc
strip-strip (n ∷ name) (k ∷ key) [] left rest e f = cc
strip-strip (n ∷ name) (k ∷ key) (p ∷ path) left rest e f =
    let (k_is, stripped) = strip-same n name k key left e in
    let (p_is, rest_of) = strip-same n name p path rest f in
    strip-equal k key p path (p_is ∙ sym k_is)
    ∙ strip-strip name key path left rest stripped rest_of

-- A key that begins with the name is on no path that does not.
pub strip-none :
    (name key path left : List String)
    → strip name key ≡ some left
    → strip name path ≡ none
    → strip key path ≡ none
unfolding strip
strip-none [] key path left e f = cc
strip-none (n ∷ name) [] path left e f = cc
strip-none (n ∷ name) (k ∷ key) [] left e f = refl
strip-none (n ∷ name) (k ∷ key) (p ∷ path) left e f =
    let (k_is, stripped) = strip-same n name k key left e in
    elim (Bool-cases (str_eq p k)) [
      | inl same ↦ rw same (
          strip-none name key path left stripped
            (sym (strip-equal n name p path ((eq_iff p k).0 same ∙ k_is)) ∙ f))
      | inr other ↦ rw other refl
    ]

-- A key and a name on the same path, of which the key does not begin with the name: it is shorter.
pub strip-shorter :
    (name key path rest left : List String)
    → strip name key ≡ none
    → strip name path ≡ some rest
    → strip key path ≡ some left
    → length rest < length left
unfolding strip
strip-shorter [] key path rest left e f g = cc
strip-shorter (n ∷ name) [] path rest left e f g =
    omega (arith, length-strip (n ∷ name) path rest f, ap (λ o. length (of_some o)) g)
strip-shorter (n ∷ name) (k ∷ key) [] rest left e f g = cc
strip-shorter (n ∷ name) (k ∷ key) (p ∷ path) rest left e f g =
    let (p_is, rest_of) = strip-same n name p path rest f in
    let (same, left_of) = strip-same k key p path left g in
    strip-shorter name key path rest left (sym (strip-equal n name k key (sym same ∙ p_is)) ∙ e)
      rest_of left_of

true-apart : true ≢ false
true-apart h = cc

leb-not : (a b : ℕ) → b ≤ a → ltb a b ≡ false
leb-not a b h = ground arith

pub matches-some :
    (name path left : List String) → strip name path ≡ some left → matches name path ≡ true
unfolding matches
matches-some name path left e = elim (Bool-cases (ltb (length path) (length name))) [
  | inl short ↦ absurd (
      true-apart (
        sym short
        ∙ leb-not (length path) (length name) (omega (arith, length-strip name path left e))))
  | inr long ↦ rw long (all_equal-strip name path left e).0
]
