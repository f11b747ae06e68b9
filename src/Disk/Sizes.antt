-- ===== src/Disk/Sizes.antt =====
-- The sizes of containers: `MetadataSize`, `minSize` and `fitTo` of btrfs.go, lvm.go, luks.go and
-- partition.go, over sums that wrap around at 2^64 as the code's do.
pub mod Totals
use image_builder.Prelude.{ℕ, ◌*◌, ◌==◌, Option, none, some, List, [], ◌∷◌, map, ltb, if◌then◌else◌}
use image_builder.Word.{add64}
use image_builder.Disk.Align.{mib, align_extent}
use image_builder.Disk.Entities.{
  Payload, no_payload, filesystem, swap, raw, btrfs, volume_group, luks, LogicalVolumes, no_volumes,
  volume, BtrfsSubvolume, Btrfs, Partition, PartitionTable,
}

-- `for _, x := range xs { sum += x }`
unfoldable pub sum64 : ℕ → List ℕ → ℕ
sum64 sum [] = sum
sum64 sum (x ∷ xs) = sum64 (add64 sum x) xs

abbrev pub volume_sizes : LogicalVolumes → List ℕ
volume_sizes no_volumes = []
volume_sizes (volume n size p lvs) = size ∷ volume_sizes lvs

abbrev pub subvolume_sizes : List BtrfsSubvolume → List ℕ
subvolume_sizes svs = map (λ (sv : BtrfsSubvolume). sv.size) svs

abbrev pub partition_sizes : List Partition → List ℕ
partition_sizes parts = map (λ (part : Partition). part.size) parts

-- `LVMVolumeGroup.MetadataSize`
abbrev pub vg_metadata_size : ℕ
vg_metadata_size = 1 * mib

-- `LUKSContainer.MetadataSize`
abbrev pub luks_metadata_size : ℕ
luks_metadata_size = 16 * mib

-- `Btrfs.MetadataSize`
abbrev pub btrfs_metadata_size : ℕ
btrfs_metadata_size = 0

-- `if a > size { size = a }`
unfoldable pub at_least : ℕ → ℕ → ℕ
at_least a size = if ltb size a then a else size

-- `minSize` of the payloads that implement `VolumeContainer`, `none` for the others.
unfoldable pub min_size : Payload → ℕ → Option ℕ
min_size (btrfs b) size =
    some (at_least (add64 (sum64 0 (subvolume_sizes b.subvolumes)) btrfs_metadata_size) size)
min_size (volume_group n d lvs) size =
    some (align_extent (at_least (add64 (sum64 0 (volume_sizes lvs)) vg_metadata_size) size))
min_size (luks header p) size = elim (min_size p size) [
  | none ↦ some luks_metadata_size
  | some m ↦ some (add64 luks_metadata_size m)
]
min_size no_payload size = none
min_size (filesystem fs) size = none
min_size (swap s) size = none
min_size (raw r) size = none

-- The size that `fitTo` gives a partition.
unfoldable pub fitted_size : Payload → ℕ → ℕ
unfolding min_size at_least
fitted_size p size = elim (min_size p size) [ none ↦ size | some m ↦ at_least m size ]

unfoldable pub fit_to : Partition → ℕ → Partition
unfolding fitted_size
fit_to part size = record part { size = fitted_size part.payload size }

-- `EnsureSize` of a partition: the new partition, and whether the size changed is `ltb part.size s`.
unfoldable pub ensure_size : PartitionTable → ℕ → PartitionTable
ensure_size pt s = if ltb pt.size s then record pt { size = s } else pt
