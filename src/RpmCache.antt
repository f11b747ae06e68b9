-- ===== src/RpmCache.antt =====
-- The cache of repository data, `rpmCache` of pkg/depsolvednf/cache.go. What the code reads from the file
-- system is an argument: the listing of the root, and whether a path can be removed. The lock makes the
-- calls a sequence. Times are natural numbers, and 0 is Go's zero time. The names of the entries are
-- taken as ASCII texts, of which the code takes 64 bytes.
pub mod Totals
pub mod Shrinks
pub mod Upkeep
mod Tests
use image_builder.Prelude.{
  ℕ, zero, suc, ◌+◌, String, Bool, true, false, ◌&&◌, Option, none, some, List, [], ◌∷◌, ◌++◌, ltb,
  leb, str_eq, if◌then◌else◌,
}
use image_builder.Text.{slice_to, contains}
use image_builder.Text.Filepath.{starts_with_slash, clean, join_paths}
use image_builder.Word.{add64, sub64}
use image_builder.Dictionary.{lookup, insert, delete}
use image_builder.Sorting.{sort_by}

-- `pathInfo`
pub record PathInfo : Type 0 where
  pub paths : List String
  pub size : ℕ
  pub mtime : ℕ

pub record RpmCache : Type 0 where
  pub root : String
  pub repo_elements : List (String × PathInfo)
  pub repo_recency : List String
  pub size : ℕ
  pub max_size : ℕ

-- An entry of a directory: its name, the time of `entry.Info()` and the size of `dirSize`, each none
-- where the call fails.
pub record CacheEntry : Type 0 where
  pub name : String
  pub mtime : Option ℕ
  pub dir_size : Option ℕ

pub record CacheDir : Type 0 where
  pub name : String
  pub entries : List CacheEntry

-- The variables of `updateInfo`.
pub record Collected : Type 0 where
  pub repos : List (String × PathInfo)
  pub repo_ids : List String
  pub total : ℕ

abbrev pub no_info : PathInfo
no_info = record { paths = []; size = 0; mtime = 0 }

abbrev pub or_no_info : Option PathInfo → PathInfo
or_no_info none = no_info
or_no_info (some info) = info

-- A repository identifier is added where the map does not have it.
unfoldable pub with_id : Option PathInfo → String → List String → List String
with_id none id ids = ids ++ id ∷ []
with_id (some info) id ids = ids

unfoldable pub added_to : PathInfo → String → ℕ → ℕ → PathInfo
added_to info path size mtime = record {
  paths = info.paths ++ path ∷ [];
  size = add64 info.size size;
  mtime = if ltb info.mtime mtime then mtime else info.mtime;
}

-- The part of the loop behind the identifier. An entry whose size is not known is skipped when its
-- identifier has been added already.
unfoldable pub collect_sized : (id path : String) (mtime : ℕ) → Option ℕ → Collected → Collected
unfolding with_id added_to lookup insert
collect_sized id path mtime none c = record c {
  repo_ids = with_id (lookup id c.repos) id c.repo_ids;
}
collect_sized id path mtime (some size) c = record {
  repos = insert id (added_to (or_no_info (lookup id c.repos)) path size mtime) c.repos;
  repo_ids = with_id (lookup id c.repos) id c.repo_ids;
  total = add64 c.total size;
}

unfoldable pub collect_named : String → ℕ → CacheEntry → Option String → Collected → Collected
unfolding collect_sized join_paths
collect_named dir mtime entry none c = c
collect_named dir mtime entry (some id) c =
    collect_sized id (join_paths dir entry.name) mtime entry.dir_size c

-- One entry: the first 64 characters of its name are the identifier of the repository.
unfoldable pub collect_entry : String → CacheEntry → Collected → Collected
unfolding collect_named slice_to
collect_entry dir entry c = elim entry.mtime [
  | none ↦ c
  | some mtime ↦ collect_named dir mtime entry (slice_to 64 entry.name) c
]

unfoldable pub collect_entries : String → List CacheEntry → Collected → Collected
unfolding collect_entry
collect_entries dir [] c = c
collect_entries dir (entry ∷ entries) c = collect_entries dir entries (collect_entry dir entry c)

unfoldable pub collect_dirs : String → List CacheDir → Collected → Collected
unfolding collect_entries join_paths
collect_dirs root [] c = c
collect_dirs root (dir ∷ dirs) c =
    collect_dirs root dirs (collect_entries (join_paths root dir.name) dir.entries c)

unfoldable pub mtime_of : List (String × PathInfo) → String → ℕ
unfolding lookup
mtime_of repos id = (or_no_info (lookup id repos)).mtime

abbrev pub is_older : List (String × PathInfo) → String → String → Bool
is_older repos a b = ltb (mtime_of repos a) (mtime_of repos b)

abbrev pub nothing_collected : Collected
nothing_collected = record { repos = []; repo_ids = []; total = 0 }

-- `updateInfo`
unfoldable pub update_info : List CacheDir → RpmCache → RpmCache
unfolding collect_dirs sort_by
update_info dirs r =
    let c = collect_dirs r.root dirs nothing_collected in
    record r {
      repo_elements = c.repos;
      repo_recency = sort_by (is_older c.repos) c.repo_ids;
      size = c.total;
    }

-- `filepath.Abs`, with the working directory
unfoldable pub absolute : (cwd path : String) → String
unfolding starts_with_slash clean join_paths
absolute cwd path = if starts_with_slash path then clean path else join_paths cwd path

-- `newRPMCache`
unfoldable pub new_rpm_cache : (cwd path : String) → ℕ → List CacheDir → RpmCache
unfolding update_info absolute
new_rpm_cache cwd path max_size dirs = update_info dirs (record {
  root = absolute cwd path;
  repo_elements = [];
  repo_recency = [];
  size = 0;
  max_size = max_size;
})

-- What `shrink` does: the cache behind it, the paths that are removed, and whether it fails.
pub record Shrunk : Type 0 where
  pub cache : RpmCache
  pub removed : List String
  pub failed : Bool

-- The paths before the first one that cannot be removed.
unfoldable pub remove_paths : (String → Bool) → List String → List String × Bool
remove_paths removes [] = ([], false)
remove_paths removes (path ∷ paths) =
    let (removed, failed) = remove_paths removes paths in
    if removes path then (path ∷ removed, failed) else ([], true)

module _ (removes : String → Bool) where
  -- The loop of `shrink` over the rest of `repoRecency`, with all that was there kept in the cache until
  -- the loop ends, which a failure does without.
  unfoldable pub shrink_from : List String → RpmCache → Shrunk
  unfolding lookup delete remove_paths
  shrink_from [] r = record { cache = record r { repo_recency = [] }; removed = []; failed = false }
  shrink_from (id ∷ ids) r = elim (leb r.max_size r.size) [
    | false ↦ record { cache = record r { repo_recency = id ∷ ids }; removed = []; failed = false }
    | true ↦ elim (lookup id r.repo_elements) [
      | none ↦ shrink_from ids r
      | some info ↦ elim (remove_paths removes info.paths).1 [
        | true ↦ record { cache = r; removed = (remove_paths removes info.paths).0; failed = true }
        | false ↦
            let rest = shrink_from ids (record r {
              size = sub64 r.size info.size;
              repo_elements = delete id r.repo_elements;
            }) in
            record rest { removed = info.paths ++ rest.removed }
      ]
    ]
  ]

  unfoldable pub shrink : RpmCache → Shrunk
  unfolding shrink_from
  shrink r = shrink_from r.repo_recency r
