-- ===== src/Disk/Customize.antt =====
-- `createFilesystem`, `clampFSSize` and `applyCustomization` of partition_table.go.
pub mod Mountpoints
pub mod Applied
use mathlib.Core.Option
use image_builder.Prelude.{
  ℕ, zero, suc, ◌*◌, String, Bool, true, false, Option, none, some, List, [], ◌∷◌, ◌++◌, str_eq,
  length, ltb, if◌then◌else◌,
}
use image_builder.Prelude.Result.{Result, ok, err, panic, ◌>>=◌, wrap}
use image_builder.Disk.Errors.{Error, creating_volume}
use image_builder.Disk.Entities.{Partition, PartitionTable}
use image_builder.Disk.Paths.{EntityPath, entity_path}
use image_builder.Disk.Resize.{align_entity_branch, resize_entity_branch}
use image_builder.Disk.Create.{next_child, create_in_payload, create_mountpoint}

-- The fields of `blueprint.FilesystemCustomization` that the code reads.
pub record FilesystemCustomization : Type 0 where
  pub mountpoint : String
  pub min_size : ℕ

unfoldable pub create_in_partitions :
    List Partition
    → EntityPath
    → String
    → String
    → Option (Result Error (List Partition × EntityPath))
unfolding create_in_payload
create_in_partitions (part ∷ parts) (zero ∷ j ∷ path) mountpoint fs_type =
    Option.map (λ r. r >>= λ (p', path'). ok (record part { payload = p' } ∷ parts, 0 ∷ 0 ∷ path'))
      (create_in_payload part.payload path mountpoint fs_type)
create_in_partitions (part ∷ parts) (suc i ∷ path) mountpoint fs_type =
    Option.map (λ r. r >>= λ (parts', path'). ok (part ∷ parts', next_child path'))
      (create_in_partitions parts (i ∷ path) mountpoint fs_type)
create_in_partitions _ _ mountpoint fs_type = none

-- The new volume, in the first mountpoint creator on the path of "/": a volume group or a Btrfs
-- volume, or else the table itself.
unfoldable pub create_volume :
    PartitionTable → EntityPath → String → String → Result Error (PartitionTable × EntityPath)
unfolding create_in_partitions
create_volume pt path mountpoint fs_type =
    elim (create_in_partitions pt.partitions path mountpoint fs_type) [
      | some r ↦ r >>= λ (parts, path'). ok (record pt { partitions = parts }, path')
      | none ↦
          create_mountpoint pt mountpoint fs_type 0 >>= λ pt'. ok (pt', length pt.partitions ∷ [])
    ]

unfoldable pub create_filesystem :
    PartitionTable → String → String → ℕ → Result Error PartitionTable
unfolding create_volume
create_filesystem pt mountpoint fs_type size = elim (entity_path pt "/") [
  | none ↦ panic
  | some path ↦ wrap creating_volume (create_volume pt path mountpoint fs_type) >>= λ (pt', path').
      ok (resize_entity_branch pt' path' (align_entity_branch pt' path' size))
]

-- At least 1 GiB, and 500 MiB for "/boot".
unfoldable pub clamp_fs_size : String → ℕ → ℕ
clamp_fs_size mountpoint size =
    let min_size : ℕ = if str_eq mountpoint "/boot" then 524288000 else 1073741824 in
    if ltb size min_size then min_size else size

-- One round of the loop of `applyCustomization`, given the path of the mountpoint: the table, and
-- the mountpoints left over.
unfoldable pub apply_at :
    PartitionTable
    → List FilesystemCustomization
    → FilesystemCustomization
    → String
    → Bool
    → Option EntityPath
    → Result Error (PartitionTable × List FilesystemCustomization)
apply_at pt left mnt fs_type create (some path) =
    let size = clamp_fs_size mnt.mountpoint mnt.min_size in
    ok (resize_entity_branch pt path (align_entity_branch pt path size), left)
apply_at pt left mnt fs_type create none =
    let size = clamp_fs_size mnt.mountpoint mnt.min_size in
    if create
    then (create_filesystem pt mnt.mountpoint fs_type size >>= λ pt'. ok (pt', left))
    else ok (pt, left ++ mnt ∷ [])

unfoldable pub apply_from :
    PartitionTable
    → List FilesystemCustomization
    → List FilesystemCustomization
    → String
    → Bool
    → Result Error (PartitionTable × List FilesystemCustomization)
apply_from pt left [] fs_type create = ok (pt, left)
apply_from pt left (mnt ∷ mountpoints) fs_type create =
    apply_at pt left mnt fs_type create (entity_path pt mnt.mountpoint) >>= λ (pt', left').
    apply_from pt' left' mountpoints fs_type create

unfoldable pub apply_customization :
    PartitionTable
    → List FilesystemCustomization
    → String
    → Bool
    → Result Error (PartitionTable × List FilesystemCustomization)
apply_customization pt mountpoints fs_type create = apply_from pt [] mountpoints fs_type create
