-- ===== src/RpmCache/Upkeep.antt =====
-- The functions of pkg/depsolvednf/cache.go that work on the files of the cache: `CleanupOldCacheDirs`,
-- `touchRepo` and `dirSize`. What they read is an argument, and what they do to the files is returned.
use image_builder.Prelude.{
  ℕ, String, Bool, true, false, Option, none, some, List, [], ◌∷◌, ◌++◌, if◌then◌else◌,
}
use image_builder.Text.{contains, concat}
use image_builder.Text.Decimal.{ℤ, pos, negsuc}
use image_builder.Text.Filepath.{join_paths}
use image_builder.Word.{add64}

-- `os.RemoveAll` or `os.Remove` of a path.
pub data Removal : Type 0 where
  remove_all : String → Removal
  remove_one : String → Removal

-- `CleanupOldCacheDirs`: the entries of the root are its names, with whether they are directories.
unfoldable pub cleanup_old_cache_dirs :
    (root : String) (distros : List String) → List (String × Bool) → List Removal
unfolding contains join_paths
cleanup_old_cache_dirs root distros [] = []
cleanup_old_cache_dirs root distros ((name, is_dir) ∷ entries) =
    let rest = cleanup_old_cache_dirs root distros entries in
    if contains distros name
    then rest
    else if is_dir
    then remove_all (join_paths root name) ∷ rest
    else remove_one (join_paths root name) ∷ rest

-- `dirSize`: `filepath.Walk` meets files and directories with their sizes, or an error, which is none.
unfoldable pub dir_size_from : ℕ → List (Option ℤ) → Option ℕ
unfolding add64
dir_size_from size [] = some size
dir_size_from size (none ∷ infos) = none
dir_size_from size (some (negsuc n) ∷ infos) = dir_size_from size infos
dir_size_from size (some (pos n) ∷ infos) = dir_size_from (add64 size n) infos

unfoldable pub dir_size : List (Option ℤ) → Option ℕ
unfolding dir_size_from
dir_size infos = dir_size_from 0 infos

-- The paths that are touched, and whether the function fails.
abbrev pub Touched : Type 0
Touched = List String × Bool

-- `compile` is `glob.Compile` of github.com/gobwas/glob, and `touches` whether `os.Chtimes` works.
module _ (compile : String → Option (String → Bool)) (touches : String → Bool) where
  unfoldable pub touch_entries : (String → Bool) → String → List String → Touched
  unfolding join_paths
  touch_entries matches dir [] = ([], false)
  touch_entries matches dir (name ∷ names) =
      let (touched, failed) = touch_entries matches dir names in
      let path = join_paths dir name in
      if matches name
      then (if touches path then (path ∷ touched, failed) else ([], true))
      else (touched, failed)

  -- The loop over the directories, each with its entries, or none where it cannot be read.
  unfoldable pub touch_dirs :
      (String → Bool) → String → List (String × Option (List String)) → Touched
  unfolding touch_entries join_paths
  touch_dirs matches root [] = ([], false)
  touch_dirs matches root ((name, none) ∷ dirs) = ([], true)
  touch_dirs matches root ((name, some entries) ∷ dirs) =
      let (touched, failed) = touch_entries matches (join_paths root name) entries in
      let (later, failed_later) = touch_dirs matches root dirs in
      if failed then (touched, true) else (touched ++ later, failed_later)

  -- `touchRepo`
  unfoldable pub touch_repo :
      (root repo_id : String) → Option (List (String × Option (List String))) → Touched
  unfolding touch_dirs
  touch_repo root repo_id dirs = elim (compile (concat repo_id "*")) [
    | none ↦ ([], true)
    | some matches ↦ elim dirs [ none ↦ ([], true) | some dirs ↦ touch_dirs matches root dirs ]
  ]
