-- ===== src/ResultCache.antt =====
-- The cache of solver results, `dnfCache` of pkg/depsolvednf/cache.go. Times are natural numbers of one
-- clock, which a call reads once; the lock of the cache makes the calls a sequence.
pub mod History
mod Tests
use image_builder.Prelude.{
  ℕ, ◌-◌, String, Bool, true, false, Option, none, some, List, [], ◌∷◌, ltb, leb, if◌then◌else◌,
}
use image_builder.Dictionary.{lookup, insert}

-- `dnfResults`, with the packages of any type
pub record Results {ℓ} (P : Type ℓ) : Type ℓ where
  pub expire : ℕ
  pub pkgs : P

pub record ResultCache {ℓ} (P : Type ℓ) : Type ℓ where
  pub results : List (String × Results P)
  pub timeout : ℕ

module _ {ℓ} {P : Type ℓ} where
  -- `NewDNFCache`
  unfoldable pub new_dnf_cache : ℕ → ResultCache P
  new_dnf_cache timeout = record { results = []; timeout = timeout }

  unfoldable pub without_expired :
      (timeout now : ℕ) → List (String × Results P) → List (String × Results P)
  without_expired timeout now [] = []
  without_expired timeout now ((hash, result) ∷ results) =
      let rest = without_expired timeout now results in
      if ltb timeout (now - result.expire) then rest else (hash, result) ∷ rest

  -- `CleanCache`
  unfoldable pub clean_cache : ℕ → ResultCache P → ResultCache P
  unfolding without_expired
  clean_cache now c = record c { results = without_expired c.timeout now c.results }

  unfoldable pub if_fresh : (timeout now : ℕ) → Option (Results P) → Option P
  if_fresh timeout now none = none
  if_fresh timeout now (some result) =
      if leb timeout (now - result.expire) then none else some result.pkgs

  -- `Get`: the packages, if they are cached
  unfoldable pub get : ℕ → ResultCache P → String → Option P
  unfolding if_fresh lookup
  get now c hash = if_fresh c.timeout now (lookup hash c.results)

  -- `Store`
  unfoldable pub store : ℕ → ResultCache P → String → P → ResultCache P
  unfolding insert
  store now c hash pkgs = record c {
    results = insert hash (record { expire = now; pkgs = pkgs }) c.results;
  }
