-- ===== src/Disk/Directories/Kept.antt =====
-- `EnsureDirectorySizes` finds a mountable for every absolute directory, and moves none.
use image_builder.Prelude.{
  ℕ, String, ◌≡◌, refl, ap, ◌∙◌, sym, true, false, ◌⊎◌, inl, inr, Option, none, some, List, [], ◌∷◌,
  str_eq, Option-cases, All, or_else,
}
use image_builder.Prelude.Result.{ok, ◌>>=◌}
use image_builder.Text.Filepath.{clean_text, dir_elements, starts_with_slash}
use image_builder.Disk.Entities.{PartitionTable}
use image_builder.Disk.Paths.{
  EntityPath, Mountable, get_mountpoint, is_some, entity_path, contains_mountpoint, find_mountable,
  mountable_partitions,
}
use image_builder.Disk.Paths.Found.{find_mountable-eq-first, contains_mountpoint-eq}
use image_builder.Disk.Resize.{resize_entity_branch}
use image_builder.Disk.Resize.Shape.{entity_path-resize_entity_branch}
use image_builder.Disk.Directories.{
  find_above, find_directory_entity_path, MntSize, add_size, collect_sizes, resize_all,
  ensure_directory_sizes,
}

-- An absolute path that is no parent of itself, or the root.
abbrev pub IsProperDir : String → Type 0
IsProperDir dir =
    (starts_with_slash dir ≡ true)
    × ((str_eq dir (clean_text true (dir_elements dir)) ≡ false) ⊎ (dir ≡ "/"))

-- A path that is found is that of some mountpoint.
abbrev IsFound : PartitionTable → Option EntityPath → Type 0
IsFound pt found =
    (path : EntityPath) × (target : String) × (found ≡ some path)
    × (entity_path pt target ≡ some path)

none-apart : {path : EntityPath} → none ≡ some path → ⊥
none-apart h = cc

false-apart : false ≡ true → ⊥
false-apart h = cc

module _ (pt : PartitionTable) (root : EntityPath) (has_root : entity_path pt "/" ≡ some root) where
  IsFound-or_else :
      (target : String) (later : Option EntityPath)
      → (entity_path pt target ≡ none → IsFound pt later)
      → IsFound pt (or_else (entity_path pt target) later)
  IsFound-or_else target later h = elim (Option-cases (entity_path pt target)) [
    | inl absent ↦
        let (path, target', found, at) = h absent in
        (path, target', ap (λ o. or_else o later) absent ∙ found, at)
    | inr (path, found) ↦ (path, target, ap (λ o. or_else o later) found, found)
  ]

  find_above-IsFound : (stack : List String) → IsFound pt (find_above pt true stack)
  unfolding find_above
  find_above-IsFound [] = unfold clean_text in (root, "/", has_root, has_root)
  find_above-IsFound (top ∷ below) =
      IsFound-or_else (clean_text true (top ∷ below)) (find_above pt true below)
        (λ absent. find_above-IsFound below)

  find_directory-IsFound :
      (dir : String) → IsProperDir dir → IsFound pt (find_directory_entity_path pt dir)
  unfolding find_directory_entity_path
  find_directory-IsFound dir proper = rw proper.0 (
      IsFound-or_else dir _ (λ absent. elim proper.1 [
        | inl below ↦ rw below (find_above-IsFound (dir_elements dir))
        | inr is_root ↦ absurd (none-apart (sym absent ∙ ap (entity_path pt) is_root ∙ has_root))
      ]))

  find_mountable-at :
      (path : EntityPath) (target : String)
      → entity_path pt target ≡ some path
      → find_mountable pt target ≡ mountable_partitions pt.partitions path
  unfolding find_mountable
  find_mountable-at path target found = rw (found, find_mountable) refl

  -- A path that is found ends at a mountable.
  mountable-of :
      (path : EntityPath) (target : String)
      → entity_path pt target ≡ some path
      → (mnt : Mountable) × (mountable_partitions pt.partitions path ≡ some mnt)
  mountable-of path target found = elim (Option-cases (mountable_partitions pt.partitions path)) [
    | inl absent ↦ absurd (
        false-apart (
          sym (ap (is_some {A = Mountable}) absent)
          ∙ sym (ap (is_some {A = Mountable}) (find_mountable-at path target found))
          ∙ ap (is_some {A = Mountable}) (find_mountable-eq-first pt target)
          ∙ sym (contains_mountpoint-eq pt target)
          ∙ (unfold contains_mountpoint in ap (is_some {A = EntityPath}) found)))
    | inr (mnt, h) ↦ (mnt, h)
  ]

  collect_sizes-ok :
      (dirs : List (String × ℕ)) (sizes : List MntSize)
      → All (λ entry. IsProperDir entry.0) dirs
      → (sizes' : List MntSize) × (collect_sizes pt dirs sizes ≡ ok sizes')
  unfolding collect_sizes
  collect_sizes-ok [] sizes h = (sizes, refl)
  collect_sizes-ok ((dir, size) ∷ dirs) sizes h =
      let (path, target, found, at) = find_directory-IsFound dir h.0 in
      let (mnt, is) = mountable-of path target at in
      rw (found, is, collect_sizes)
        (collect_sizes-ok dirs (add_size (get_mountpoint mnt) path size sizes) h.1)

entity_path-resize_all :
    (pt : PartitionTable) (sizes : List MntSize) (target : String)
    → entity_path (resize_all pt sizes) target ≡ entity_path pt target
unfolding resize_all
entity_path-resize_all pt [] target = refl
entity_path-resize_all pt (es ∷ rest) target =
    entity_path-resize_all (resize_entity_branch pt es.ent_path es.new_size) rest target
    ∙ entity_path-resize_entity_branch pt es.ent_path es.new_size target

-- On a table with "/", `EnsureDirectorySizes` returns, without a panic, for absolute directories none
-- of which but the root is its own parent, in whatever order the second map is ranged over, and the
-- path of every mountpoint stays as it was.
pub ensure_directory_sizes-ok :
    (order : List MntSize → List MntSize) (pt : PartitionTable) (dirs : List (String × ℕ))
    (root : EntityPath)
    → entity_path pt "/" ≡ some root
    → All (λ entry. IsProperDir entry.0) dirs
    → (pt' : PartitionTable) × (ensure_directory_sizes order pt dirs ≡ ok pt')
      × ((target : String) → entity_path pt' target ≡ entity_path pt target)
unfolding ensure_directory_sizes
ensure_directory_sizes-ok order pt dirs root has_root proper =
    let (sizes, collected) = collect_sizes-ok pt root has_root dirs [] proper in
    (
      resize_all pt (order sizes),
      ap (λ r. r >>= λ sizes. ok (resize_all pt (order sizes))) collected,
      entity_path-resize_all pt (order sizes),
    )
