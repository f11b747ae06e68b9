-- ===== src/PathPolicy/Best.antt =====
-- The trie as a function of the path, and an entry put into the trie.
use image_builder.Prelude.{
  ◌≤◌, ◌<◌, String, ◌≡◌, refl, ap, ◌∙◌, none, some, List, [], ◌∷◌, length, arith, Option-cases, inl,
  inr, ◌⊎◌,
}
use image_builder.PathPolicy.Trie.{PathTrie, PathTries, trie, no_tries, tries, name_of}
use image_builder.PathPolicy.Strip.{strip, length-strip}

module _ {T : Type 0} where
  unfoldable mutual
    unfolding strip

    pub best : PathTrie T → List String → T × List String
    best (trie name paths payload) path = best_among paths payload path

    pub best_among : PathTries T → T → List String → T × List String
    best_among no_tries payload path = (payload, path)
    best_among (tries first others) payload path = elim (strip (name_of first) path) [
      | none ↦ best_among others payload path
      | some left ↦ best first left
    ]

  unfoldable mutual
    unfolding strip

    pub put : PathTrie T → List String → T → PathTrie T
    put (trie name paths payload) [] value = trie name paths value
    put (trie name paths payload) (k ∷ key) value =
        trie name (put_among paths (k ∷ key) value) payload

    pub put_among : PathTries T → List String → T → PathTries T
    put_among no_tries key value = tries (trie key no_tries value) no_tries
    put_among (tries first others) key value = elim (strip (name_of first) key) [
      | none ↦ tries first (put_among others key value)
      | some left ↦ tries (put first left value) others
    ]

  unfoldable mutual
    pub IsProper : PathTrie T → Type 0
    IsProper (trie name paths payload) = AreProper paths

    pub AreProper : PathTries T → Type 0
    AreProper no_tries = Unit
    AreProper (tries first others) =
        (0 < length (name_of first)) × IsProper first × AreProper others

  mutual
    unfolding best IsProper

    pub best-left : (t : PathTrie T) (path : List String) → length (best t path).1 ≤ length path
    best-left (trie name paths payload) path = best_among-left paths payload path

    best_among-left :
        (ts : PathTries T) (payload : T) (path : List String)
        → length (best_among ts payload path).1 ≤ length path
    best_among-left no_tries payload path = omega arith
    best_among-left (tries first others) payload path =
        elim (Option-cases (strip (name_of first) path)) [
          | inl other ↦ rw (other, best_among, length) (best_among-left others payload path)
          | inr (left, e) ↦
              rw (e, best_among, length)
                (omega (arith, best-left first left, length-strip (name_of first) path left e))
        ]

  pub best_among-others :
      (first : PathTrie T) (others : PathTries T) (payload : T) (path : List String)
      → strip (name_of first) path ≡ none
      → best_among (tries first others) payload path ≡ best_among others payload path
  unfolding best
  best_among-others first others payload path e =
      ap
        (λ o. elim o as (λ x. T × List String) [
          | none ↦ best_among others payload path
          | some left ↦ best first left
        ])
        e

  pub best_among-first :
      (first : PathTrie T) (others : PathTries T) (payload : T) (path left : List String)
      → strip (name_of first) path ≡ some left
      → best_among (tries first others) payload path ≡ best first left
  unfolding best
  best_among-first first others payload path left e =
      ap
        (λ o. elim o as (λ x. T × List String) [
          | none ↦ best_among others payload path
          | some left ↦ best first left
        ])
        e

  pub put_among-others :
      (first : PathTrie T) (others : PathTries T) (value : T) (key : List String)
      → strip (name_of first) key ≡ none
      → put_among (tries first others) key value ≡ tries first (put_among others key value)
  unfolding put
  put_among-others first others value key e =
      ap
        (λ o. elim o as (λ x. PathTries T) [
          | none ↦ tries first (put_among others key value)
          | some left ↦ tries (put first left value) others
        ])
        e

  pub put_among-first :
      (first : PathTrie T) (others : PathTries T) (value : T) (key left : List String)
      → strip (name_of first) key ≡ some left
      → put_among (tries first others) key value ≡ tries (put first left value) others
  unfolding put
  put_among-first first others value key left e =
      ap
        (λ o. elim o as (λ x. PathTries T) [
          | none ↦ tries first (put_among others key value)
          | some left ↦ tries (put first left value) others
        ])
        e

  pub name_of-put :
      (t : PathTrie T) (key : List String) (value : T) → name_of (put t key value) ≡ name_of t
  unfolding put
  name_of-put (trie name paths payload) [] value = refl
  name_of-put (trie name paths payload) (k ∷ key) value = refl

  -- Either nothing among the tries is on the path, or what is there takes something off it.
  abbrev pub Splits : PathTries T → List String → Type 0
  Splits ts path =
      ((payload : T) → best_among ts payload path ≡ (payload, path))
      ⊎ ((found : T × List String) × ((payload : T) → best_among ts payload path ≡ found)
          × (length found.1 < length path))

  pub best_among-Splits : (ts : PathTries T) (path : List String) → AreProper ts → Splits ts path
  unfolding best AreProper
  best_among-Splits no_tries path h = inl (λ payload. refl)
  best_among-Splits (tries first others) path h = elim (Option-cases (strip (name_of first) path)) [
    | inl other ↦ elim (best_among-Splits others path h.2) [
      | inl nothing ↦
          inl (λ payload. best_among-others first others payload path other ∙ nothing payload)
      | inr (found, is, shorter) ↦ inr (
        found,
        (λ payload. best_among-others first others payload path other ∙ is payload),
        shorter,
      )
    ]
    | inr (left, e) ↦ inr (
      best first left,
      (λ payload. best_among-first first others payload path left e),
      omega (arith, best-left first left, length-strip (name_of first) path left e, h.0),
    )
  ]
