-- ===== src/PathPolicy/Checked.antt =====
-- The policies: `Check` decides by the longest path that was entered.
use mathlib.Core.Path.{subst}
use image_builder.Prelude.{
  String, ◌≡◌, ◌≢◌, refl, sym, ap, ◌∙◌, true, false, List, [], ◌∷◌, length, str_eq, eq_iff, arith,
  Bool-cases, Option-cases, inl, inr, ◌⊎◌,
}
use image_builder.Prelude.Result.{Result, ok, err, ◌>>=◌}
use image_builder.PathPolicy.Trie.{
  PathTrie, PathTries, trie, no_tries, tries, name_of, payload_of, Found, lookup,
  path_trie_split_path, add_entry, add_all, sort_entries, new_path_trie_from_map,
}
use image_builder.PathPolicy.{
  PathPolicy, PolicyError, not_absolute, not_canonical, not_allowed, no_policy, new_path_policies,
  decide, check_path,
}
use image_builder.Text.Filepath.{clean, starts_with_slash}
use image_builder.PathPolicy.Strip.{strip}
use image_builder.PathPolicy.Best.{
  best, put, put_among, IsProper, AreProper, put_among-others, put_among-first, name_of-put,
}
use image_builder.PathPolicy.LongestMatch.{choose, best-put}
use image_builder.PathPolicy.Lookup.{lookup-Agrees}

-- The value of the longest of the entries that the path begins with, the last one of those that are
-- as long, and what is left of the path behind it.
unfoldable pub longest :
    {T : Type 0} → List (String × T) → T × List String → List String → T × List String
longest [] so_far path = so_far
longest ((key, value) ∷ entries) so_far path =
    longest entries (choose (strip (path_trie_split_path key) path) value so_far) path

module _ {T : Type 0} where
  mutual
    unfolding put IsProper

    put-IsProper :
        (t : PathTrie T) (key : List String) (value : T) → IsProper t → IsProper (put t key value)
    put-IsProper (trie name paths payload) [] value h = h
    put-IsProper (trie name paths payload) (k ∷ key) value h =
        put_among-AreProper paths k key value h

    put_among-AreProper :
        (ts : PathTries T) (k : String) (key : List String) (value : T)
        → AreProper ts
        → AreProper (put_among ts (k ∷ key) value)
    put_among-AreProper no_tries k key value h = (omega arith, tt, tt)
    put_among-AreProper (tries first others) k key value h =
        elim (Option-cases (strip (name_of first) (k ∷ key))) [
          | inl other ↦
              subst AreProper (sym (put_among-others first others value (k ∷ key) other))
                (h.0, h.1, put_among-AreProper others k key value h.2)
          | inr (left, e) ↦
              subst AreProper (sym (put_among-first first others value (k ∷ key) left e)) (
                omega (arith, h.0, ap length (name_of-put first left value)),
                put-IsProper first left value h.1,
                h.2,
              )
        ]

module _ {T : Type 0} {E : Type 0} where
  add_all-longest :
      (entries : List (String × T)) (t : PathTrie T)
      → IsProper t
      → name_of t ≡ []
      → (t' : PathTrie T) × (add_all {E = E} t entries ≡ ok t')
        × IsProper t'
        × (name_of t' ≡ [])
        × ((path : List String) → best t' path ≡ longest entries (best t path) path)
  unfolding add_all longest
  add_all-longest [] t h root = (t, refl, h, root, λ path. refl)
  add_all-longest ((key, value) ∷ entries) t h root =
      let (f, e, a) = lookup-Agrees {E = E} t key h root in
      let t1 = put t (path_trie_split_path key) value in
      let (t', added, h', root', is) =
        add_all-longest entries t1 (put-IsProper t (path_trie_split_path key) value h)
          (name_of-put t (path_trie_split_path key) value ∙ root) in
      (
        t',
        ap
              (λ r. r >>= λ (found : Found T (PathTrie T)).
                add_all (found.replace (add_entry found.node found.left value)) entries)
              e
            ∙ ap (λ t. add_all t entries) (a.replaced value)
            ∙ added,
        h',
        root',
        (λ path.
            is path
            ∙ ap (λ b. longest entries b path)
                (best-put t (path_trie_split_path key) value path h)),
      )

  -- `newPathTrieFromMap` returns a trie, without a panic, and `Lookup` in it returns for every path the
  -- value of the longest entry that the path begins with, and the elements of the path behind it; where
  -- there is no such entry, the zero value and all elements.
  pub lookup-new_path_trie_from_map :
      (zero_value : T) (entries : List (String × T)) (path : String)
      → (t : PathTrie T) × (f : Found T (PathTrie T)) × (new_path_trie_from_map {E = E} zero_value
            entries
          ≡ ok t)
        × (lookup {E = E} t path ≡ ok f)
        × ((payload_of f.node, f.left)
            ≡ longest
                (sort_entries entries)
                (zero_value, path_trie_split_path path)
                (path_trie_split_path path))
  unfolding new_path_trie_from_map best IsProper
  lookup-new_path_trie_from_map zero_value entries path =
      let (t, made, h, root, is) =
        add_all-longest (sort_entries entries) (trie [] no_tries zero_value) tt refl in
      let (f, e, a) = lookup-Agrees {E = E} t path h root in
      (t, f, made, e, a.found ∙ is (path_trie_split_path path))

false-apart : false ≢ true
false-apart h = cc

absolute-set : (path : String) → starts_with_slash path ≡ true → str_eq path "" ≡ false
unfolding starts_with_slash
absolute-set path h = elim (Bool-cases (str_eq path "")) [
  | inl empty ↦ absurd (false-apart (ap starts_with_slash (sym ((eq_iff path "").0 empty)) ∙ h))
  | inr set ↦ set
]

exact_cases :
    (path : String) (policy : PathPolicy) (left : List String)
    → policy.deny ≡ false
    → policy.exact ≡ true
    → ((decide path policy left ≡ ok tt)
        × (policy.deny ≡ false)
        × ((policy.exact ≡ false) ⊎ (left ≡ [])))
      ⊎ ((decide path policy left ≡ err (not_allowed path))
          × ((policy.deny ≡ true) ⊎ ((policy.exact ≡ true) × (left ≢ []))))
unfolding decide
exact_cases path policy [] open_ exact = inl (rw (open_, exact) refl, open_, inr refl)
exact_cases path policy (x ∷ left) open_ exact = inr (rw (open_, exact) refl, inr (exact, λ h. cc))

decide-cases :
    (path : String) (policy : PathPolicy) (left : List String)
    → ((decide path policy left ≡ ok tt)
        × (policy.deny ≡ false)
        × ((policy.exact ≡ false) ⊎ (left ≡ [])))
      ⊎ ((decide path policy left ≡ err (not_allowed path))
          × ((policy.deny ≡ true) ⊎ ((policy.exact ≡ true) × (left ≢ []))))
unfolding decide
decide-cases path policy left = elim (Bool-cases policy.deny) [
  | inl denied ↦ rw denied (inr (refl, inl refl))
  | inr open_ ↦ elim (Bool-cases policy.exact) [
    | inr subpaths ↦ rw (open_, subpaths) (inl (refl, refl, inl refl))
    | inl exact ↦ exact_cases path policy left open_ exact
  ]
]

-- What `Check` returns, by what is found for the path: the policy of the longest entry that it begins
-- with, or `no_policy` without one, and the elements that are left behind it.
abbrev pub IsVerdict : String → PathPolicy × List String → Result PolicyError (Unit {0}) → Type 0
IsVerdict path found verdict =
    ((starts_with_slash path ≡ false) × (verdict ≡ err (not_absolute path)))
    ⊎ (((starts_with_slash path ≡ true)
          × (path ≢ clean path)
          × (verdict ≡ err (not_canonical path)))
        ⊎ (((starts_with_slash path ≡ true)
              × (path ≡ clean path)
              × (verdict ≡ ok tt)
              × (found.0.deny ≡ false)
              × ((found.0.exact ≡ false) ⊎ (found.1 ≡ [])))
            ⊎ ((starts_with_slash path ≡ true)
                × (path ≡ clean path)
                × (verdict ≡ err (not_allowed path))
                × ((found.0.deny ≡ true) ⊎ ((found.0.exact ≡ true) × (found.1 ≢ []))))))

canonical_cases :
    (path : String) (policy : PathPolicy) (left : List String)
    → starts_with_slash path ≡ true
    → path ≡ clean path
    → IsVerdict path (policy, left) (decide path policy left)
canonical_cases path policy left absolute canonical = elim (decide-cases path policy left) [
  | inl (allowed, not_denied, whole) ↦
      inr (inr (inl (absolute, canonical, allowed, not_denied, whole)))
  | inr (refused, why) ↦ inr (inr (inr (absolute, canonical, refused, why)))
]

past_guards :
    (t : PathTrie PathPolicy) (path : String) (f : Found PathPolicy (PathTrie PathPolicy))
    → lookup {E = PolicyError} t path ≡ ok f
    → starts_with_slash path ≡ true
    → str_eq path (clean path) ≡ true
    → check_path t path ≡ decide path (payload_of f.node) f.left
unfolding check_path
past_guards t path f found absolute canonical =
    rw (canonical, absolute-set path absolute, absolute)
      (ap (λ r. r >>= λ found. decide path (payload_of found.node) found.left) found)

check_path-cases :
    (t : PathTrie PathPolicy) (path : String) (f : Found PathPolicy (PathTrie PathPolicy))
    → lookup {E = PolicyError} t path ≡ ok f
    → IsVerdict path (payload_of f.node, f.left) (check_path t path)
unfolding check_path
check_path-cases t path f found = elim (Bool-cases (starts_with_slash path)) [
  | inr relative ↦ inl (relative, rw relative (ground arith))
  | inl absolute ↦ elim (Bool-cases (str_eq path (clean path))) [
    | inr other ↦ inr (
        inl (
          absolute,
          (λ h. absurd (false-apart (sym other ∙ (eq_iff path (clean path)).1 h))),
          rw (other, absolute-set path absolute, absolute) refl,
        ))
    | inl canonical ↦
        subst (IsVerdict path (payload_of f.node, f.left))
          (sym (past_guards t path f found absolute canonical))
          (canonical_cases path (payload_of f.node) f.left absolute
            ((eq_iff path (clean path)).0 canonical))
  ]
]

-- `NewPathPolicies` makes policies of the entries, and `Check` with them returns an error that says so
-- for a path that is not absolute, and for one that is not clean. Any other path it allows if the policy
-- of the longest entry that the path begins with does not deny it and, where that policy is exact, the
-- entry is the whole path, and also if there is no such entry; otherwise it returns the error that the
-- path is not allowed.
pub check_path-IsVerdict :
    (entries : List (String × PathPolicy)) (path : String)
    → (policies : PathTrie PathPolicy) × (new_path_policies entries ≡ ok policies)
      × IsVerdict path
          (longest
            (sort_entries entries)
            (no_policy, path_trie_split_path path)
            (path_trie_split_path path))
          (check_path policies path)
unfolding new_path_policies
check_path-IsVerdict entries path =
    let (t, f, made, e, is) =
      lookup-new_path_trie_from_map {E = PolicyError} no_policy entries path in
    (
      t,
      made,
      subst (λ found. IsVerdict path found (check_path t path)) is (check_path-cases t path f e),
    )
