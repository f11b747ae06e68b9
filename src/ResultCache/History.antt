-- ===== src/ResultCache/History.antt =====
-- The cache of solver results against the history of all that was stored.
use image_builder.Prelude.{
  ℕ, ◌-◌, ◌≤◌, String, ◌≡◌, refl, sym, ap, ◌∙◌, Option, none, some, List, [], ◌∷◌, str_eq, eq_iff,
  arith, ltb, leb, Bool-cases, inl, inr, if◌then◌else◌,
}
use image_builder.Dictionary.{lookup, lookup-insert, IsDistinct, insert-IsDistinct}
use image_builder.ResultCache.{
  Results, ResultCache, new_dnf_cache, without_expired, clean_cache, if_fresh, get, store,
}

-- A call that changes the cache, with the time at which it is made.
pub data Call (P : Type 0) : Type 0 where
  storing : (now : ℕ) → String → P → Call P
  cleaning : (now : ℕ) → Call P

module _ {P : Type 0} where
  -- The calls, the last one first, on a new cache.
  unfoldable pub run : ℕ → List (Call P) → ResultCache P
  unfolding new_dnf_cache store clean_cache
  run timeout [] = new_dnf_cache timeout
  run timeout (storing now hash pkgs ∷ calls) = store now (run timeout calls) hash pkgs
  run timeout (cleaning now ∷ calls) = clean_cache now (run timeout calls)

  -- What an ideal cache returns, which forgets nothing: the packages stored last under the hash, if that
  -- was less than the timeout ago.
  unfoldable pub latest : (timeout now : ℕ) → List (Call P) → String → Option P
  latest timeout now [] hash = none
  latest timeout now (storing then_ hash' pkgs ∷ calls) hash =
      if str_eq hash' hash
      then if leb timeout (now - then_) then none else some pkgs
      else latest timeout now calls hash
  latest timeout now (cleaning then_ ∷ calls) hash = latest timeout now calls hash

  -- The clock does not go back: no call is made after the time, and none before an earlier one.
  abbrev pub IsPast : ℕ → List (Call P) → Type 0
  IsPast now [] = Unit
  IsPast now (storing then_ hash pkgs ∷ calls) = (then_ ≤ now) × IsPast then_ calls
  IsPast now (cleaning then_ ∷ calls) = (then_ ≤ now) × IsPast then_ calls

  IsPast-mono : (a b : ℕ) (calls : List (Call P)) → a ≤ b → IsPast a calls → IsPast b calls
  IsPast-mono a b [] le h = tt
  IsPast-mono a b (storing then_ hash pkgs ∷ calls) le h = (omega (arith, h.0), h.1)
  IsPast-mono a b (cleaning then_ ∷ calls) le h = (omega (arith, h.0), h.1)

  timeout-run : (timeout : ℕ) (calls : List (Call P)) → (run timeout calls).timeout ≡ timeout
  unfolding run
  timeout-run timeout [] = refl
  timeout-run timeout (storing now hash pkgs ∷ calls) = timeout-run timeout calls
  timeout-run timeout (cleaning now ∷ calls) = timeout-run timeout calls

  without_expired-none :
      (timeout now : ℕ) (rs : List (String × Results P)) (hash : String)
      → lookup hash rs ≡ none
      → lookup hash (without_expired timeout now rs) ≡ none
  unfolding without_expired lookup
  without_expired-none timeout now [] hash h = refl
  without_expired-none timeout now ((hash', r) ∷ rs) hash h =
      ground (arith, without_expired-none timeout now rs hash)

  without_expired-IsDistinct :
      (timeout now : ℕ) (rs : List (String × Results P))
      → IsDistinct rs
      → IsDistinct (without_expired timeout now rs)
  unfolding without_expired
  without_expired-IsDistinct timeout now [] h = tt
  without_expired-IsDistinct timeout now ((hash, r) ∷ rs) h =
      elim (Bool-cases (ltb timeout (now - r.expire))) [
        | inl old ↦ rw old (without_expired-IsDistinct timeout now rs h.1)
        | inr new ↦ rw new (
          without_expired-none timeout now rs hash h.0,
          without_expired-IsDistinct timeout now rs h.1,
        )
      ]

  -- Cleaning takes away only what is no longer fresh.
  if_fresh-without_expired :
      (timeout now later : ℕ) (rs : List (String × Results P)) (hash : String)
      → IsDistinct rs
      → now ≤ later
      → if_fresh timeout later (lookup hash (without_expired timeout now rs))
        ≡ if_fresh timeout later (lookup hash rs)
  unfolding without_expired lookup if_fresh
  if_fresh-without_expired timeout now later [] hash h le = refl
  if_fresh-without_expired timeout now later ((hash', r) ∷ rs) hash h le =
      elim (Bool-cases (ltb timeout (now - r.expire))) [
        | inl old ↦ elim (Bool-cases (str_eq hash' hash)) [
          | inl same ↦ rw old (
              ap (if_fresh timeout later) (
                without_expired-none timeout now rs hash
                  (ap (λ k. lookup k rs) (sym ((eq_iff hash' hash).0 same)) ∙ h.0))
              ∙ rw same (ground arith))
          | inr other ↦
              rw old (rw other (if_fresh-without_expired timeout now later rs hash h.1 le))
        ]
        | inr new ↦ elim (Bool-cases (str_eq hash' hash)) [
          | inl same ↦ rw new (rw same refl)
          | inr other ↦
              rw new (rw other (if_fresh-without_expired timeout now later rs hash h.1 le))
        ]
      ]

  run-IsDistinct : (timeout : ℕ) (calls : List (Call P)) → IsDistinct (run timeout calls).results
  unfolding run
  run-IsDistinct timeout [] = tt
  run-IsDistinct timeout (storing now hash pkgs ∷ calls) =
      insert-IsDistinct hash _ _ (run-IsDistinct timeout calls)
  run-IsDistinct timeout (cleaning now ∷ calls) =
      without_expired-IsDistinct _ now _ (run-IsDistinct timeout calls)

  -- After any calls on a new cache, in the order of the clock, `Get` returns what the ideal cache does:
  -- the packages stored last under the hash, if that was less than the timeout ago. So cleaning is never
  -- seen, at whatever times it is done.
  pub get-run :
      (timeout now : ℕ) (calls : List (Call P)) (hash : String)
      → IsPast now calls
      → get now (run timeout calls) hash ≡ latest timeout now calls hash
  unfolding run get latest store clean_cache if_fresh
  get-run timeout now [] hash past = refl
  get-run timeout now (storing then_ hash' pkgs ∷ calls) hash past =
      elim (Bool-cases (str_eq hash' hash)) [
        | inl same ↦
            ap (if_fresh (run timeout calls).timeout now) (lookup-insert hash' hash _ _)
            ∙ rw same (
                ap (λ t. if leb t (now - then_) then none else some pkgs)
                  (timeout-run timeout calls))
        | inr other ↦
            ap (if_fresh (run timeout calls).timeout now) (lookup-insert hash' hash _ _)
            ∙ rw other (get-run timeout now calls hash (IsPast-mono then_ now calls past.0 past.1))
      ]
  get-run timeout now (cleaning then_ ∷ calls) hash past =
      if_fresh-without_expired (run timeout calls).timeout then_ now (run timeout calls).results
        hash (run-IsDistinct timeout calls) past.0
      ∙ get-run timeout now calls hash (IsPast-mono then_ now calls past.0 past.1)
