-- ===== src/RpmCache/Shrinks.antt =====
-- What `shrink` of the repository cache achieves.
use image_builder.Prelude.{
  ◌+◌, ◌<◌, String, ◌≡◌, refl, sym, ap, ◌∙◌, Bool, true, false, none, some, List, [], ◌∷◌, str_eq,
  eq_iff, arith, leb, Bool-cases, Option-cases, inl, inr,
}
use image_builder.Text.{contains}
use image_builder.Word.{sub64, u64_mod, sub64-eq}
use image_builder.Dictionary.{lookup, delete, IsDistinct, lookup-delete, delete-IsDistinct}
use image_builder.RpmCache.{PathInfo, or_no_info, RpmCache, remove_paths, shrink_from, shrink}
use image_builder.RpmCache.Totals.{total, total-none, AreListed, IsSound}

delete-none :
    (id : String) (repos : List (String × PathInfo))
    → lookup id repos ≡ none
    → delete id repos ≡ repos
unfolding delete lookup
delete-none id [] h = refl
delete-none id ((id', info) ∷ repos) h = ground (arith, delete-none id repos)

total-same :
    (id : String) (info info' : PathInfo) (repos : List (String × PathInfo))
    → lookup id repos ≡ none
    → some info' ≡ some info
    → info'.size + total repos ≡ info.size + total (delete id repos)
total-same id info info' repos absent same =
    let sizes = ap (λ o. (or_no_info o).size) same in
    let rest = ap total (delete-none id repos absent) in omega (arith, sizes, rest)

total-delete :
    (id : String) (info : PathInfo) (repos : List (String × PathInfo))
    → IsDistinct repos
    → lookup id repos ≡ some info
    → total repos ≡ info.size + total (delete id repos)
unfolding total delete lookup
total-delete id info [] distinct h = cc
total-delete id info ((id', info') ∷ repos) distinct h = elim (Bool-cases (str_eq id' id)) [
  | inl same ↦ rw same (
      total-same id info info' repos
        (ap (λ k. lookup k repos) (sym ((eq_iff id' id).0 same)) ∙ distinct.0) (rw same at h))
  | inr other ↦ rw other (omega (arith, total-delete id info repos distinct.1 (rw other at h)))
]

-- The loop drops the repository in front of the list.
delete-AreListed :
    (id : String) (ids : List String) (repos : List (String × PathInfo))
    → AreListed (id ∷ ids) repos
    → AreListed ids (delete id repos)
unfolding contains
delete-AreListed id ids repos h id' out = ground (arith, lookup-delete id id' repos, h id', out)

-- A repository that is not in the cache is dropped from the list.
skip-AreListed :
    (id : String) (ids : List String) (repos : List (String × PathInfo))
    → lookup id repos ≡ none
    → AreListed (id ∷ ids) repos
    → AreListed ids repos
unfolding contains
skip-AreListed id ids repos new h id' out = ground (arith, h id', eq_iff id id', new, out)

-- What holds of the cache when the loop is in front of the rest of the list.
abbrev IsKept : List String → RpmCache → Type 0
IsKept ids r =
    (total r.repo_elements ≡ r.size)
    × (r.size < u64_mod)
    × IsDistinct r.repo_elements
    × AreListed r.repo_recency r.repo_elements
    × AreListed ids r.repo_elements

abbrev dropped : String → PathInfo → RpmCache → RpmCache
dropped id info r = record r {
  size = sub64 r.size info.size;
  repo_elements = delete id r.repo_elements;
}

dropped-IsKept :
    (id : String) (info : PathInfo) (ids : List String) (r : RpmCache)
    → IsKept (id ∷ ids) r
    → lookup id r.repo_elements ≡ some info
    → IsKept ids (dropped id info r)
dropped-IsKept id info ids r (sum, below, distinct, listed, rest) found =
    let less = total-delete id info r.repo_elements distinct found in
    let size = sub64-eq r.size info.size below (omega (arith, sum, less)) in
    (
      omega (arith, sum, less, size),
      omega (arith, below, size),
      delete-IsDistinct id r.repo_elements distinct,
      λ id' out. ground (arith, lookup-delete id id' r.repo_elements, listed id' out),
      delete-AreListed id ids r.repo_elements rest,
    )

shrink_from-IsSound :
    (removes : String → Bool) (ids : List String) (r : RpmCache)
    → IsKept ids r
    → IsSound (shrink_from removes ids r).cache
unfolding shrink_from
shrink_from-IsSound removes [] r h = (h.0, h.1, h.2, h.4)
shrink_from-IsSound removes (id ∷ ids) r h = elim (Bool-cases (leb r.max_size r.size)) [
  | inr small ↦ rw (small, shrink_from) (h.0, h.1, h.2, h.4)
  | inl large ↦ elim (Option-cases (lookup id r.repo_elements)) [
    | inl gone ↦
        rw (large, shrink_from)
          (rw gone (
            shrink_from-IsSound removes ids r
              (h.0, h.1, h.2, h.3, skip-AreListed id ids r.repo_elements gone h.4)))
    | inr (info, found) ↦ elim (Bool-cases (remove_paths removes info.paths).1) [
      | inl fails ↦ rw (large, shrink_from) (rw found (rw fails (h.0, h.1, h.2, h.3)))
      | inr works ↦
          rw (large, shrink_from)
            (rw found (
              rw works (
                shrink_from-IsSound removes ids (dropped id info r)
                  (dropped-IsKept id info ids r h found))))
    ]
  ]
]

shrink_from-size :
    (removes : String → Bool) (ids : List String) (r : RpmCache)
    → 0 < r.max_size
    → IsKept ids r
    → (shrink_from removes ids r).failed ≡ false
    → (shrink_from removes ids r).cache.size < r.max_size
unfolding shrink_from
shrink_from-size removes [] r positive h done = omega (arith, h.0, total-none r.repo_elements h.4)
shrink_from-size removes (id ∷ ids) r positive h done = elim (Bool-cases (leb r.max_size r.size)) [
  | inr small ↦ rw (small, shrink_from) (ground arith)
  | inl large ↦ elim (Option-cases (lookup id r.repo_elements)) [
    | inl gone ↦
        rw (large, shrink_from)
          (rw gone (
            shrink_from-size removes ids r positive
              (h.0, h.1, h.2, h.3, skip-AreListed id ids r.repo_elements gone h.4)
              (rw gone at (rw (large, shrink_from) at done))))
    | inr (info, found) ↦ elim (Bool-cases (remove_paths removes info.paths).1) [
      | inl fails ↦ cc (rw fails at (rw found at (rw (large, shrink_from) at done)))
      | inr works ↦
          rw (large, shrink_from)
            (rw found (
              rw works (
                shrink_from-size removes ids (dropped id info r) positive
                  (dropped-IsKept id info ids r h found)
                  (rw works at (rw found at (rw (large, shrink_from) at done))))))
    ]
  ]
]

remove_paths-all :
    (removes : String → Bool) (paths : List String)
    → ((path : String) → removes path ≡ true)
    → (remove_paths removes paths).1 ≡ false
unfolding remove_paths
remove_paths-all removes [] all = refl
remove_paths-all removes (path ∷ paths) all = rw (all path) (remove_paths-all removes paths all)

shrink_from-all :
    (removes : String → Bool) (ids : List String) (r : RpmCache)
    → ((path : String) → removes path ≡ true)
    → (shrink_from removes ids r).failed ≡ false
unfolding shrink_from
shrink_from-all removes [] r all = refl
shrink_from-all removes (id ∷ ids) r all = elim (Bool-cases (leb r.max_size r.size)) [
  | inr small ↦ rw (small, shrink_from) refl
  | inl large ↦ elim (Option-cases (lookup id r.repo_elements)) [
    | inl gone ↦ rw (large, shrink_from) (rw gone (shrink_from-all removes ids r all))
    | inr (info, found) ↦
        rw (large, shrink_from)
          (rw found (
            rw (remove_paths-all removes info.paths all)
              (shrink_from-all removes ids (dropped id info r) all)))
  ]
]

-- From a cache whose size is what its repositories have together, `shrink` makes a cache of which the
-- same holds, also where it stops at a path that cannot be removed.
pub shrink-IsSound :
    (removes : String → Bool) (r : RpmCache) → IsSound r → IsSound (shrink removes r).cache
unfolding shrink
shrink-IsSound removes r h = shrink_from-IsSound removes r.repo_recency r (h.0, h.1, h.2, h.3, h.3)

-- Where every path can be removed, `shrink` of a cache whose size is what its repositories have together
-- does not fail, and it leaves less than the greatest size, which is not 0.
pub shrink-size :
    (removes : String → Bool) (r : RpmCache)
    → ((path : String) → removes path ≡ true)
    → 0 < r.max_size
    → IsSound r
    → ((shrink removes r).failed ≡ false) × ((shrink removes r).cache.size < r.max_size)
unfolding shrink
shrink-size removes r all positive h =
    let done = shrink_from-all removes r.repo_recency r all in
    (done, shrink_from-size removes r.repo_recency r positive (h.0, h.1, h.2, h.3, h.3) done)
