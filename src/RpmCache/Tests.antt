-- ===== src/RpmCache/Tests.antt =====
-- A small repository cache.
use image_builder.Prelude.{
  none, ℕ, ◌<◌, String, ◌≡◌, refl, Bool, true, false, some, List, [], ◌∷◌, arith,
}
use image_builder.Word.{add64, sub64}
use image_builder.Sorting.{IsOrdered}
use image_builder.RpmCache.{RpmCache, CacheEntry, CacheDir, is_older, mtime_of, update_info, shrink}
use image_builder.Text.Decimal.{pos, negsuc}
use image_builder.RpmCache.Upkeep.{
  remove_all, remove_one, cleanup_old_cache_dirs, dir_size, touch_repo,
}
use image_builder.RpmCache.Totals.{IsSound, update_info-IsSound}
use image_builder.RpmCache.Shrinks.{shrink-IsSound, shrink-size}

abbrev first_id : String
first_id = "0123456789abcdef0123456789abcdef0123456789abcdef0123456789abcdef"

abbrev second_id : String
second_id = "fedcba9876543210fedcba9876543210fedcba9876543210fedcba9876543210"

abbrev entry : String → ℕ → ℕ → CacheEntry
entry name mtime size = record { name = name; mtime = some mtime; dir_size = some size }

-- The second repository is the older one.
abbrev dirs : List CacheDir
dirs = record { name = "f42"; entries = entry first_id 7 100 ∷ entry second_id 3 50 ∷ [] } ∷ []

abbrev empty_cache : RpmCache
empty_cache = record {
  root = "/cache";
  repo_elements = [];
  repo_recency = [];
  size = 0;
  max_size = 120;
}

abbrev removes_all : String → Bool
removes_all path = true

oldest_first : (update_info dirs empty_cache).repo_recency ≡ second_id ∷ first_id ∷ []
unfolding update_info mtime_of
oldest_first = refl

oldest_removed : (shrink removes_all (update_info dirs empty_cache)).cache.size ≡ 100
unfolding update_info shrink mtime_of add64 sub64
oldest_removed = refl

filled-IsSound : IsSound (update_info dirs empty_cache)
filled-IsSound = (update_info-IsSound dirs empty_cache (omega arith)).0

update_info-IsSound_example :
    IsSound (update_info dirs empty_cache)
    × IsOrdered
        (is_older (update_info dirs empty_cache).repo_elements)
        (update_info dirs empty_cache).repo_recency
update_info-IsSound_example = update_info-IsSound dirs empty_cache (omega arith)

shrink-IsSound_example : IsSound (shrink (λ path. false) (update_info dirs empty_cache)).cache
shrink-IsSound_example =
    shrink-IsSound (λ path. false) (update_info dirs empty_cache) filled-IsSound

shrink-size_example :
    ((shrink removes_all (update_info dirs empty_cache)).failed ≡ false)
    × ((shrink removes_all (update_info dirs empty_cache)).cache.size < 120)
unfolding update_info
shrink-size_example =
    shrink-size removes_all (update_info dirs empty_cache) (λ path. refl) (omega arith)
      filled-IsSound

old_removed :
    cleanup_old_cache_dirs "/cache" ("f42" ∷ []) (("f41", true) ∷ ("f42", true) ∷ ("x", false) ∷ [])
    ≡ remove_all "/cache/f41" ∷ remove_one "/cache/x" ∷ []
unfolding cleanup_old_cache_dirs
old_removed = refl

summed : dir_size (some (pos 4096) ∷ some (negsuc 0) ∷ some (pos 5) ∷ []) ≡ some 4101
unfolding dir_size add64
summed = refl

-- The second directory cannot be read.
partly_touched :
    touch_repo
      (λ pattern. some (λ name. true))
      removes_all
      "/cache"
      "id"
      (some (("f42", some ("id-solv" ∷ [])) ∷ ("f43", none) ∷ []))
    ≡ ("/cache/f42/id-solv" ∷ [], true)
unfolding touch_repo
partly_touched = refl
