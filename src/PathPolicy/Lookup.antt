-- ===== src/PathPolicy/Lookup.antt =====
-- `Lookup` and the change of the node that it finds, as functions of the path.
use image_builder.Prelude.{
  ℕ, ◌<◌, String, ◌≡◌, refl, sym, ap, ◌∙◌, Bool, true, false, Option, none, some, List, [], ◌∷◌,
  ◌==◌, length, if◌then◌else◌, arith, Option-cases, inl, inr,
}
use image_builder.Prelude.Result.{Result, ok, ◌>>=◌}
use image_builder.PathPolicy.Trie.{
  PathTrie, PathTries, trie, no_tries, tries, matches, drop, name_of, payload_of, Found, or_here,
  in_first, in_others, here, get, get_among, get_unless_root, lookup, path_trie_split_path, append,
  add_entry,
}
use image_builder.PathPolicy.Strip.{strip, length-strip}
use image_builder.PathPolicy.Strip.{
  strip, length-strip, matches-none, matches-some, all_equal-strip,
}
use image_builder.PathPolicy.Best.{
  best, put, IsProper, AreProper, best_among-Splits, best_among-others, best_among-first,
  put_among-others, put_among-first,
}

-- What is found is the best for the path, and an entry added to it is put under the path.
pub record Agrees {T : Type 0} (t : PathTrie T) (path : List String) (f : Found T (PathTrie T))
    : Type 0 where
  pub found : (payload_of f.node, f.left) ≡ best t path
  pub replaced : (value : T) → f.replace (add_entry f.node f.left value) ≡ put t path value

abbrev paths_of : {T : Type 0} → PathTrie T → PathTries T
paths_of (trie name paths payload) = paths

module _ {T : Type 0} where
  best-nil : (t : PathTrie T) → IsProper t → best t [] ≡ (payload_of t, [])
  unfolding best IsProper
  best-nil (trie name paths payload) h = elim (best_among-Splits paths [] h) [
    | inl nothing ↦ nothing payload
    | inr (found, is, shorter) ↦ absurd (omega (arith, shorter))
  ]

  add_entry-put : (t : PathTrie T) (value : T) → add_entry t [] value ≡ put t [] value
  unfolding add_entry put
  add_entry-put (trie name paths payload) value = refl

  Agrees-here : (t : PathTrie T) → IsProper t → Agrees t [] (here t [])
  Agrees-here t h = record { found = sym (best-nil t h); replaced = λ value. add_entry-put t value }

  Agrees-others :
      (name : List String) (first : PathTrie T) (others : PathTries T) (payload : T) (p : String)
      (path : List String) (o : Option (Found T (PathTries T)))
      → strip (name_of first) (p ∷ path) ≡ none
      → Agrees (trie name others payload) (p ∷ path) (or_here name others payload (p ∷ path) o)
      → Agrees
          (trie name (tries first others) payload)
          (p ∷ path)
          (or_here name (tries first others) payload (p ∷ path) (in_others first o))
  unfolding best put add_entry append
  Agrees-others name first others payload p path none e a = record {
    found = a.found ∙ sym (best_among-others first others payload (p ∷ path) e);
    replaced = λ value.
        ap (λ t. trie name (tries first (paths_of t)) payload) (a.replaced value)
        ∙ ap (λ ts. trie name ts payload) (sym (put_among-others first others value (p ∷ path) e));
  }
  Agrees-others name first others payload p path (some f) e a = record {
    found = a.found ∙ sym (best_among-others first others payload (p ∷ path) e);
    replaced = λ value.
        ap (λ t. trie name (tries first (paths_of t)) payload) (a.replaced value)
        ∙ ap (λ ts. trie name ts payload) (sym (put_among-others first others value (p ∷ path) e));
  }

  Agrees-first :
      (name : List String) (first : PathTrie T) (others : PathTries T) (payload : T) (p : String)
      (path left : List String) (f : Found T (PathTrie T))
      → strip (name_of first) (p ∷ path) ≡ some left
      → Agrees first left f
      → Agrees
          (trie name (tries first others) payload)
          (p ∷ path)
          (or_here name (tries first others) payload (p ∷ path) (some (in_first others f)))
  unfolding best put
  Agrees-first name first others payload p path left f e a = record {
    found = a.found ∙ sym (best_among-first first others payload (p ∷ path) left e);
    replaced = λ value.
        ap (λ t. trie name (tries t others) payload) (a.replaced value)
        ∙ ap (λ ts. trie name ts payload)
            (sym (put_among-first first others value (p ∷ path) left e));
  }

eq-true : (a b : ℕ) → a ≡ b → (a == b) ≡ true
eq-true a b h = ground arith

eq-false : (a b : ℕ) → b < a → (a == b) ≡ false
eq-false a b h = ground arith

module _ {T : Type 0} {E : Type 0} where
  get_among-step :
      (first : PathTrie T) (others : PathTries T) (path : List String) (matched exact : Bool)
      (left : List String)
      → matches (name_of first) path ≡ matched
      → (length path == length (name_of first)) ≡ exact
      → drop (length (name_of first)) path ≡ left
      → get_among {E = E} (tries first others) path ≡ (
          if matched
          then if exact
            then ok (some (in_first others (here first [])))
            else (get first left >>= λ found. ok (some (in_first others found)))
          else (get_among others path >>= λ found. ok (in_others first found)))
  unfolding get
  get_among-step first others path false exact left m x d =
      ap
        (λ b. elim b as (λ x. Result E (Option (Found T (PathTries T)))) [
          | true ↦
              elim (length path == length (name_of first))
                as (λ x. Result E (Option (Found T (PathTries T)))) [
                  | true ↦ ok (some (in_first others (here first [])))
                  | false ↦ get first (drop (length (name_of first)) path) >>= λ found.
                      ok (some (in_first others found))
                ]
          | false ↦ get_among others path >>= λ found. ok (in_others first found)
        ])
        m
  get_among-step first others path true true left m x d =
      ap
        (λ b. elim b as (λ x. Result E (Option (Found T (PathTries T)))) [
          | true ↦
              elim (length path == length (name_of first))
                as (λ x. Result E (Option (Found T (PathTries T)))) [
                  | true ↦ ok (some (in_first others (here first [])))
                  | false ↦ get first (drop (length (name_of first)) path) >>= λ found.
                      ok (some (in_first others found))
                ]
          | false ↦ get_among others path >>= λ found. ok (in_others first found)
        ])
        m
      ∙ ap
          (λ b. elim b as (λ x. Result E (Option (Found T (PathTries T)))) [
            | true ↦ ok (some (in_first others (here first [])))
            | false ↦ get first (drop (length (name_of first)) path) >>= λ found.
                ok (some (in_first others found))
          ])
          x
  get_among-step first others path true false left m x d =
      ap
        (λ b. elim b as (λ x. Result E (Option (Found T (PathTries T)))) [
          | true ↦
              elim (length path == length (name_of first))
                as (λ x. Result E (Option (Found T (PathTries T)))) [
                  | true ↦ ok (some (in_first others (here first [])))
                  | false ↦ get first (drop (length (name_of first)) path) >>= λ found.
                      ok (some (in_first others found))
                ]
          | false ↦ get_among others path >>= λ found. ok (in_others first found)
        ])
        m
      ∙ ap
          (λ b. elim b as (λ x. Result E (Option (Found T (PathTries T)))) [
            | true ↦ ok (some (in_first others (here first [])))
            | false ↦ get first (drop (length (name_of first)) path) >>= λ found.
                ok (some (in_first others found))
          ])
          x
      ∙ ap (λ left. get first left >>= λ found. ok (some (in_first others found))) d

  mutual
    unfolding get IsProper best put add_entry append

    get-Agrees :
        (t : PathTrie T) (p : String) (path : List String)
        → IsProper t
        → (f : Found T (PathTrie T)) × (get {E = E} t (p ∷ path) ≡ ok f) × Agrees t (p ∷ path) f
    get-Agrees (trie name paths payload) p path h =
        let (o, e, a) = get_among-Agrees paths p path h in
        (
          or_here name paths payload (p ∷ path) o,
          ap (λ r. r >>= λ found. ok (or_here name paths payload (p ∷ path) found)) e,
          a name payload,
        )

    get_among-Agrees :
        (ts : PathTries T) (p : String) (path : List String)
        → AreProper ts
        → (o : Option (Found T (PathTries T))) × (get_among {E = E} ts (p ∷ path) ≡ ok o)
          × ((name : List String) (payload : T)
              → Agrees (trie name ts payload) (p ∷ path) (or_here name ts payload (p ∷ path) o))
    get_among-Agrees no_tries p path h =
        (none, refl, λ name payload. record { found = refl; replaced = λ value. refl })
    get_among-Agrees (tries first others) p path h =
        elim (Option-cases (strip (name_of first) (p ∷ path))) [
          | inl other ↦
              let (o, e, a) = get_among-Agrees others p path h.2 in
              (
                in_others first o,
                get_among-step first others (p ∷ path) false
                      (length (p ∷ path) == length (name_of first))
                      (drop (length (name_of first)) (p ∷ path))
                      (matches-none (name_of first) (p ∷ path) other) refl refl
                    ∙ ap (λ r. r >>= λ found. ok (in_others first found)) e,
                (λ name payload.
                    Agrees-others name first others payload p path o other (a name payload)),
              )
          | inr ([], e) ↦ (
            some (in_first others (here first [])),
            get_among-step first others (p ∷ path) true true []
                (matches-some (name_of first) (p ∷ path) [] e)
                (eq-true (length (p ∷ path)) (length (name_of first))
                  (omega (arith, length-strip (name_of first) (p ∷ path) [] e)))
                (all_equal-strip (name_of first) (p ∷ path) [] e).1,
            (λ name payload.
                Agrees-first name first others payload p path [] (here first []) e
                  (Agrees-here first h.1)),
          )
          | inr (l ∷ left, e) ↦
              let (f, found, a) = get-Agrees first l left h.1 in
              (
                some (in_first others f),
                get_among-step first others (p ∷ path) true false (l ∷ left)
                      (matches-some (name_of first) (p ∷ path) (l ∷ left) e)
                      (eq-false (length (p ∷ path)) (length (name_of first))
                        (omega (arith, length-strip (name_of first) (p ∷ path) (l ∷ left) e)))
                      (all_equal-strip (name_of first) (p ∷ path) (l ∷ left) e).1
                    ∙ ap (λ r. r >>= λ found. ok (some (in_first others found))) found,
                (λ name payload. Agrees-first name first others payload p path (l ∷ left) f e a),
              )
        ]

  get_unless_root-Agrees :
      (t : PathTrie T) (path : List String)
      → IsProper t
      → (f : Found T (PathTrie T)) × (get_unless_root {E = E} t path ≡ ok f) × Agrees t path f
  unfolding get_unless_root
  get_unless_root-Agrees t [] h = (here t [], refl, Agrees-here t h)
  get_unless_root-Agrees t (p ∷ path) h = get-Agrees t p path h

  -- `Lookup` at a root returns, without a panic.
  pub lookup-Agrees :
      (t : PathTrie T) (path : String)
      → IsProper t
      → name_of t ≡ []
      → (f : Found T (PathTrie T)) × (lookup {E = E} t path ≡ ok f)
        × Agrees t (path_trie_split_path path) f
  unfolding lookup
  lookup-Agrees (trie [] paths payload) path h e =
      get_unless_root-Agrees (trie [] paths payload) (path_trie_split_path path) h
  lookup-Agrees (trie (n ∷ name) paths payload) path h e = cc
