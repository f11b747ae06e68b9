-- ===== src/Disk/Resize.antt =====
-- `alignEntityBranch`, `resizeEntityBranch`, `GetMountpointSize` and `EnsureDirectorySizes` of
-- partition_table.go. The code walks a slice of pointers from the mountable up. Here the path goes
-- down by child indices, and each entity does on the way back up what the code does for it: it takes
-- the size that came up from below, and passes its own up, or `none` where the code returns.
-- A path that leads nowhere, which the code never has, changes nothing.
pub mod Shape
pub mod Erased
pub mod Passes
pub mod Ends
pub mod Fits
pub mod Grown
use mathlib.Core.Option
use image_builder.Prelude.{
  ℕ, zero, suc, ◌==◌, String, Option, none, some, List, [], ◌∷◌, ltb, or_else, get_elem?,
  if◌then◌else◌,
}
use image_builder.Prelude.Result.{Result, ok, err}
use image_builder.Word.{add64}
use image_builder.Disk.Errors.{Error, cannot_find_mountpoint}
use image_builder.Disk.Align.{align_extent, align_up}
use image_builder.Disk.Entities.{
  BtrfsSubvolume, Btrfs, Payload, btrfs, volume_group, luks, LogicalVolumes, no_volumes, volume,
  Partition, PartitionTable,
}
use image_builder.Disk.Paths.{EntityPath, entity_path}
use image_builder.Disk.Sizes.{
  sum64, volume_sizes, subvolume_sizes, partition_sizes, vg_metadata_size, luks_metadata_size,
  btrfs_metadata_size, at_least, ensure_size,
}

-- `AlignUp` of the payloads that implement `MountpointCreator`.
unfoldable pub align_up_payload : Payload → ℕ → ℕ
align_up_payload (volume_group n d lvs) size = align_extent size
align_up_payload _ size = size

unfoldable mutual
  pub align_payload : Payload → EntityPath → ℕ → ℕ
  align_payload (volume_group n d lvs) (i ∷ path) size =
      align_extent (align_volumes lvs i path size)
  align_payload (luks header p) (i ∷ path) size = align_payload p path size
  align_payload p _ size = align_up_payload p size

  pub align_volumes : LogicalVolumes → ℕ → EntityPath → ℕ → ℕ
  align_volumes no_volumes i path size = size
  align_volumes (volume n s p lvs) zero [] size = size
  align_volumes (volume n s p lvs) zero (j ∷ path) size = align_payload p path size
  align_volumes (volume n s p lvs) (suc i) path size = align_volumes lvs i path size

unfoldable pub align_partitions : List Partition → EntityPath → ℕ → ℕ
unfolding align_payload align_up_payload
align_partitions [] path size = size
align_partitions (part ∷ parts) (zero ∷ j ∷ path) size = align_payload part.payload path size
align_partitions (part ∷ parts) (suc i ∷ path) size = align_partitions parts (i ∷ path) size
align_partitions (part ∷ parts) _ size = size

-- `alignEntityBranch`: the table is the last entity of the branch.
unfoldable pub align_entity_branch : PartitionTable → EntityPath → ℕ → ℕ
unfolding align_partitions
align_entity_branch pt path size = align_up pt (align_partitions pt.partitions path size)

-- The size of a container's children, or the size for the branch where it has no sizeable children.
unfoldable pub container_size : ℕ → ℕ → ℕ
container_size sum size = if sum == 0 then size else sum

-- What a payload, which is never `Sizeable`, passes up.
unfoldable pub resize_container : Payload → ℕ → ℕ
unfolding container_size at_least
resize_container (btrfs b) size =
    at_least
      (add64 (container_size (sum64 0 (subvolume_sizes b.subvolumes)) size) btrfs_metadata_size)
      size
resize_container (volume_group n d lvs) size =
    at_least (add64 (container_size (sum64 0 (volume_sizes lvs)) size) vg_metadata_size) size
resize_container (luks header p) size =
    at_least (add64 (container_size 0 size) luks_metadata_size) size
resize_container _ size = size

unfoldable pub resize_subvolumes : List BtrfsSubvolume → ℕ → ℕ → List BtrfsSubvolume × Option ℕ
resize_subvolumes [] i size = ([], none)
resize_subvolumes (sv ∷ svs) zero size =
    if ltb sv.size size then (record sv { size = size } ∷ svs, some size) else (sv ∷ svs, none)
resize_subvolumes (sv ∷ svs) (suc i) size =
    let (svs', up) = resize_subvolumes svs i size in (sv ∷ svs', up)

-- `EnsureSize` of a logical volume, which rounds up to the extent.
unfoldable pub ensure_volume :
    String → ℕ → Payload → LogicalVolumes → Option ℕ → LogicalVolumes × Option ℕ
ensure_volume n s p lvs none = (volume n s p lvs, none)
ensure_volume n s p lvs (some size) =
    if ltb s size then (volume n (align_extent size) p lvs, some size) else (volume n s p lvs, none)

unfoldable mutual
  pub resize_payload : Payload → EntityPath → ℕ → Payload × Option ℕ
  resize_payload (btrfs b) (i ∷ path) size =
      let (svs, up) = resize_subvolumes b.subvolumes i size in
      let b' : Btrfs = record b { subvolumes = svs } in
      (btrfs b', Option.map (resize_container (btrfs b')) up)
  resize_payload (volume_group n d lvs) (i ∷ path) size =
      let (lvs', up) = resize_volumes lvs i path size in
      (volume_group n d lvs', Option.map (resize_container (volume_group n d lvs')) up)
  resize_payload (luks header p) (i ∷ path) size =
      let (p', up) = resize_payload p path size in
      (luks header p', Option.map (resize_container (luks header p')) up)
  resize_payload p _ size = (p, some (resize_container p size))

  pub resize_volumes : LogicalVolumes → ℕ → EntityPath → ℕ → LogicalVolumes × Option ℕ
  resize_volumes no_volumes i path size = (no_volumes, none)
  resize_volumes (volume n s p lvs) zero [] size = ensure_volume n s p lvs (some size)
  resize_volumes (volume n s p lvs) zero (j ∷ path) size =
      let (p', up) = resize_payload p path size in ensure_volume n s p' lvs up
  resize_volumes (volume n s p lvs) (suc i) path size =
      let (lvs', up) = resize_volumes lvs i path size in (volume n s p lvs', up)

-- `EnsureSize` of a partition.
unfoldable pub ensure_partition : Partition → Option ℕ → Partition × Option ℕ
ensure_partition part none = (part, none)
ensure_partition part (some size) =
    if ltb part.size size then (record part { size = size }, some size) else (part, none)

unfoldable pub resize_partition : Partition → EntityPath → ℕ → Partition × Option ℕ
unfolding resize_payload resize_container resize_subvolumes ensure_volume ensure_partition
resize_partition part [] size = ensure_partition part (some size)
resize_partition part (j ∷ path) size =
    let (p, up) = resize_payload part.payload path size in
    ensure_partition (record part { payload = p }) up

unfoldable pub resize_partitions : List Partition → EntityPath → ℕ → List Partition × Option ℕ
unfolding resize_partition
resize_partitions (part ∷ parts) (zero ∷ path) size =
    let (part', up) = resize_partition part path size in (part' ∷ parts, up)
resize_partitions (part ∷ parts) (suc i ∷ path) size =
    let (parts', up) = resize_partitions parts (i ∷ path) size in (part ∷ parts', up)
resize_partitions parts _ size = (parts, none)

unfoldable pub resize_table : PartitionTable → Option ℕ → PartitionTable
unfolding container_size at_least ensure_size
resize_table pt none = pt
resize_table pt (some size) =
    ensure_size pt (at_least (container_size (sum64 0 (partition_sizes pt.partitions)) size) size)

-- `resizeEntityBranch`
unfoldable pub resize_entity_branch : PartitionTable → EntityPath → ℕ → PartitionTable
unfolding resize_partitions resize_table
resize_entity_branch pt path size =
    let (parts, up) = resize_partitions pt.partitions path size in
    resize_table (record pt { partitions = parts }) up

-- The size of the first sizeable entity of a path below a payload, counted from the mountable up.
unfoldable mutual
  pub sized_payload : Payload → EntityPath → Option ℕ
  sized_payload (btrfs b) (i ∷ path) =
      Option.map (λ (sv : BtrfsSubvolume). sv.size) (get_elem? b.subvolumes i)
  sized_payload (volume_group n d lvs) (i ∷ path) = sized_volumes lvs i path
  sized_payload (luks header p) (i ∷ path) = sized_payload p path
  sized_payload _ _ = none

  pub sized_volumes : LogicalVolumes → ℕ → EntityPath → Option ℕ
  sized_volumes no_volumes i path = none
  sized_volumes (volume n size p lvs) zero [] = some size
  sized_volumes (volume n size p lvs) zero (j ∷ path) = or_else (sized_payload p path) (some size)
  sized_volumes (volume n size p lvs) (suc i) path = sized_volumes lvs i path

unfoldable pub sized_partitions : List Partition → EntityPath → Option ℕ
unfolding sized_payload
sized_partitions (part ∷ parts) (zero ∷ []) = some part.size
sized_partitions (part ∷ parts) (zero ∷ j ∷ path) =
    or_else (sized_payload part.payload path) (some part.size)
sized_partitions (part ∷ parts) (suc i ∷ path) = sized_partitions parts (i ∷ path)
sized_partitions _ _ = none

-- `GetMountpointSize`. The last entity of a path is the table, which is sizeable, so that the panic
-- at the function's end is never reached.
unfoldable pub get_mountpoint_size : PartitionTable → String → Result Error ℕ
unfolding sized_partitions
get_mountpoint_size pt mountpoint = elim (entity_path pt mountpoint) [
  | none ↦ err cannot_find_mountpoint
  | some path ↦ elim (sized_partitions pt.partitions path) [ none ↦ ok pt.size | some s ↦ ok s ]
]
