-- ===== src/Disk/Directories.antt =====
-- `findDirectoryEntityPath` and `EnsureDirectorySizes` of partition_table.go.
pub mod Kept
use image_builder.Prelude.{
  ℕ, String, Bool, Option, none, some, List, [], ◌∷◌, str_eq, if◌then◌else◌, or_else,
}
use image_builder.Prelude.Result.{Result, ok, err, panic, ◌>>=◌}
use image_builder.Text.Filepath.{clean_text, dir_elements, starts_with_slash}
use image_builder.Word.{add64}
use image_builder.Disk.Errors.{Error}
use image_builder.Disk.Entities.{PartitionTable}
use image_builder.Disk.Paths.{
  EntityPath, Mountable, get_mountpoint, entity_path, mountable_partitions,
}
use image_builder.Disk.Resize.{resize_entity_branch}

-- The search from a clean path on, whose `filepath.Dir` is the path without its last element. The
-- root and "." are their own parents, and end it.
unfoldable pub find_above : PartitionTable → Bool → List String → Option EntityPath
find_above pt rooted [] = entity_path pt (clean_text rooted [])
find_above pt rooted (top ∷ below) =
    let above = find_above pt rooted below in
    or_else (entity_path pt (clean_text rooted (top ∷ below))) above

unfoldable pub find_directory_entity_path : PartitionTable → String → Option EntityPath
unfolding find_above
find_directory_entity_path pt dir =
    let rooted = starts_with_slash dir in
    let parent = dir_elements dir in
    or_else (entity_path pt dir)
      (if str_eq dir (clean_text rooted parent) then none else find_above pt rooted parent)

-- `mntSize` with its key in the map.
pub record MntSize : Type 0 where
  pub mountpoint : String
  pub ent_path : EntityPath
  pub new_size : ℕ

-- `mntSizeMap[mountpoint].newSize += size`, with a new entry for a mountpoint that has none.
unfoldable pub add_size : String → EntityPath → ℕ → List MntSize → List MntSize
add_size mountpoint path size [] =
    record { mountpoint = mountpoint; ent_path = path; new_size = add64 0 size } ∷ []
add_size mountpoint path size (es ∷ rest) =
    let later = add_size mountpoint path size rest in
    if str_eq es.mountpoint mountpoint
    then record es { new_size = add64 es.new_size size } ∷ rest
    else es ∷ later

-- The loop over `dirSizeMap`, given as its entries in the order in which Go ranges over them.
unfoldable pub collect_sizes :
    PartitionTable → List (String × ℕ) → List MntSize → Result Error (List MntSize)
unfolding find_directory_entity_path add_size
collect_sizes pt [] sizes = ok sizes
collect_sizes pt ((dir, size) ∷ dirs) sizes = elim (find_directory_entity_path pt dir) [
  | none ↦ panic
  | some path ↦ elim (mountable_partitions pt.partitions path) [
    | none ↦ panic
    | some mnt ↦ collect_sizes pt dirs (add_size (get_mountpoint mnt) path size sizes)
  ]
]

unfoldable pub resize_all : PartitionTable → List MntSize → PartitionTable
resize_all pt [] = pt
resize_all pt (es ∷ rest) = resize_all (resize_entity_branch pt es.ent_path es.new_size) rest

-- The second loop ranges over `mntSizeMap` in an order of Go's own, `order` of the entries.
unfoldable pub ensure_directory_sizes :
    (order : List MntSize → List MntSize)
    → PartitionTable
    → List (String × ℕ)
    → Result Error PartitionTable
unfolding collect_sizes resize_all
ensure_directory_sizes order pt dirs =
    collect_sizes pt dirs [] >>= λ sizes. ok (resize_all pt (order sizes))
