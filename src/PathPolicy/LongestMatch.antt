-- ===== src/PathPolicy/LongestMatch.antt =====
-- The trie of paths finds the longest path that was entered.
use image_builder.Prelude.{
  ℕ, ◌≤◌, ◌<◌, String, ◌≡◌, refl, sym, ap, ◌∙◌, true, false, Option, none, some, List, [], ◌∷◌, leb,
  length, if◌then◌else◌, arith, Option-cases, inl, inr,
}
use image_builder.PathPolicy.Trie.{PathTrie, PathTries, trie, no_tries, tries, name_of}
use image_builder.PathPolicy.Strip.{
  strip, length-strip, strip-strip, strip-none, strip-shorter, of_some,
}
use image_builder.PathPolicy.Best.{
  best, best_among, put, put_among, best-left, IsProper, AreProper, best_among-Splits,
  best_among-others, best_among-first, put_among-others, put_among-first, name_of-put,
}

-- The value of a path that was entered, with what is left behind it, where it is the longest so far.
unfoldable pub choose {ℓ} :
    {T : Type ℓ} → Option (List String) → T → T × List String → T × List String
choose none value best = best
choose (some left) value best = if leb (length left) (length best.1) then (value, left) else best

pub ltb-not : (a b : ℕ) → b < a → leb a b ≡ false
ltb-not a b h = ground arith

pub leb-true : (a b : ℕ) → a ≤ b → leb a b ≡ true
leb-true a b h = ground arith

module _ {T : Type 0} where
  pub choose-none :
      (value : T) (o : Option (List String)) (b : T × List String) → o ≡ none → choose o value b ≡ b
  unfolding choose
  choose-none value o b e = rw e refl

  pub choose-longer :
      (value : T) (o : Option (List String)) (b : T × List String)
      → ((left : List String) → o ≡ some left → length b.1 < length left)
      → choose o value b ≡ b
  unfolding choose
  choose-longer value none b h = refl
  choose-longer value (some left) b h = rw (ltb-not (length left) (length b.1) (h left refl)) refl

  pub choose-whole :
      (value : T) (left : List String) (b : T × List String)
      → length left ≤ length b.1
      → choose (some left) value b ≡ (value, left)
  unfolding choose
  choose-whole value left b h = rw (leb-true (length left) (length b.1) h) refl

  mutual
    unfolding best put IsProper choose

    pub best-put :
        (t : PathTrie T) (key : List String) (value : T) (path : List String)
        → IsProper t
        → best (put t key value) path ≡ choose (strip key path) value (best t path)
    best-put (trie name paths payload) [] value path h = elim (best_among-Splits paths path h) [
      | inl nothing ↦
          nothing value
          ∙ sym (
              ap (choose (some path) value) (nothing payload)
              ∙ choose-whole value path (payload, path) (omega arith))
      | inr (found, is, shorter) ↦
          is value
          ∙ sym (
              ap (choose (some path) value) (is payload)
              ∙ choose-longer value (some path) found
                  (λ left e. omega (arith, ap (λ o. length (of_some o)) e, shorter)))
    ]
    best-put (trie name paths payload) (k ∷ key) value path h =
        best_among-put paths (k ∷ key) value payload path h

    best_among-put :
        (ts : PathTries T) (key : List String) (value payload : T) (path : List String)
        → AreProper ts
        → best_among (put_among ts key value) payload path
          ≡ choose (strip key path) value (best_among ts payload path)
    best_among-put no_tries key value payload path h = elim (Option-cases (strip key path)) [
      | inl other ↦
          ap
            (λ o. elim o as (λ x. T × List String) [
              | none ↦ (payload, path)
              | some left ↦ (value, left)
            ])
            other
          ∙ sym (ap (λ o. choose o value (payload, path)) other)
      | inr (left, e) ↦
          ap
            (λ o. elim o as (λ x. T × List String) [
              | none ↦ (payload, path)
              | some left ↦ (value, left)
            ])
            e
          ∙ sym (
              ap (λ o. choose o value (payload, path)) e
              ∙ choose-whole value left (payload, path)
                  (omega (arith, length-strip key path left e)))
    ]
    best_among-put (tries first others) key value payload path h =
        elim (Option-cases (strip (name_of first) key)) [
          | inl elsewhere ↦ elim (Option-cases (strip (name_of first) path)) [
            | inl other ↦
                ap (λ ts. best_among ts payload path)
                  (put_among-others first others value key elsewhere)
                ∙ best_among-others first (put_among others key value) payload path other
                ∙ best_among-put others key value payload path h.2
                ∙ sym (
                    ap (choose (strip key path) value)
                      (best_among-others first others payload path other))
            | inr (rest, on) ↦
                ap (λ ts. best_among ts payload path)
                  (put_among-others first others value key elsewhere)
                ∙ best_among-first first (put_among others key value) payload path rest on
                ∙ sym (
                    choose-longer value (strip key path) (best first rest) (λ left e. omega (
                      arith,
                      best-left first rest,
                      strip-shorter (name_of first) key path rest left elsewhere on e,
                    )))
                ∙ sym (
                    ap (choose (strip key path) value)
                      (best_among-first first others payload path rest on))
          ]
          | inr (left, inside) ↦ elim (Option-cases (strip (name_of first) path)) [
            | inl other ↦
                ap (λ ts. best_among ts payload path)
                  (put_among-first first others value key left inside)
                ∙ best_among-others (put first left value) others payload path
                    (ap (λ name. strip name path) (name_of-put first left value) ∙ other)
                ∙ sym (
                    choose-none value (strip key path) _
                      (strip-none (name_of first) key path left inside other))
                ∙ sym (
                    ap (choose (strip key path) value)
                      (best_among-others first others payload path other))
            | inr (rest, on) ↦
                ap (λ ts. best_among ts payload path)
                  (put_among-first first others value key left inside)
                ∙ best_among-first (put first left value) others payload path rest
                    (ap (λ name. strip name path) (name_of-put first left value) ∙ on)
                ∙ best-put first left value rest h.1
                ∙ ap (λ o. choose o value (best first rest))
                    (sym (strip-strip (name_of first) key path left rest inside on))
                ∙ sym (
                    ap (choose (strip key path) value)
                      (best_among-first first others payload path rest on))
          ]
        ]
