-- ===== src/Disk/Tests.antt =====
-- Partition tables to try the model of pkg/disk on, and the theorems at them.
mod Sizing
mod Operations
use mathlib.Core.List.Perm
use mathlib.Core.List.{Perm}
use image_builder.Prelude.{
  ℕ, ◌+◌, ◌≤◌, ◌<◌, ◌%◌, String, ◌≡◌, refl, Bool, true, false, not, ◌&&◌, ◌||◌, Option, none, some,
  List, [], ◌∷◌, arith, All, inl, inr, length, ◌⊎◌,
}
use image_builder.Prelude.Result.{Result, ok, err, panic, IfOk}
use image_builder.Text.{contains}
use image_builder.Word.{u64_mod}
use image_builder.Disk.Entities.{
  Filesystem, no_mkfs_options, Swap, BtrfsSubvolume, Btrfs, LuksHeader, Payload, no_payload,
  filesystem, swap, btrfs, volume_group, luks, LogicalVolumes, no_volumes, volume, Partition,
  pt_none, pt_dos, pt_gpt, PartitionTablePolicy, PartitionTable,
}
use image_builder.Disk.Align.{grain_size, align_up, align_extent, gib, lvm_default_extent_size}
use image_builder.Disk.Align.Rounding.{IsRoundedUp, align_up-IsRoundedUp, align_extent-IsRoundedUp}
use image_builder.Disk.Paths.{
  entity_path, contains_mountpoint, find_mountable, for_each_mountable, is_some,
}
use image_builder.Disk.Paths.Found.{first_with, find_mountable-eq-first, contains_mountpoint-eq}
use image_builder.Disk.Sizes.{fitted_size}
use image_builder.Disk.Sizes.Totals.{total, need, fitted_size_bounds}
use image_builder.Disk.Create.{new_filesystem}

abbrev pub policy : PartitionTablePolicy
policy = record { ensure_xbootldr = true; grow_root_to_fill_disk = none }

abbrev pub partition_of : ℕ → Payload → Partition
partition_of size payload = record {
  start = 0;
  size = size;
  type = "";
  bootable = false;
  uuid = "";
  label = "";
  payload = payload;
  attrs = [];
}

abbrev pub table_of : List Partition → PartitionTable
table_of partitions = record {
  size = 0;
  uuid = "";
  type = pt_gpt;
  partitions = partitions;
  grain_size = 0;
  sector_size = 0;
  extra_padding = 0;
  start_offset = 0;
  absolute_start_offset = false;
  policy = some policy;
}

abbrev pub boot_partition : Partition
boot_partition = partition_of gib (filesystem (new_filesystem "ext4" "/boot"))

abbrev pub root_partition : Partition
root_partition = partition_of 2147483648 (filesystem (new_filesystem "xfs" "/"))

-- "/boot" and "/" on plain partitions.
abbrev pub plain_table : PartitionTable
plain_table = table_of (boot_partition ∷ root_partition ∷ [])

abbrev pub root_volumes : LogicalVolumes
root_volumes = volume "rootlv" gib (filesystem (new_filesystem "xfs" "/")) no_volumes

-- "/boot" on a plain partition, and "/" on a logical volume.
abbrev pub lvm_table : PartitionTable
lvm_table =
    table_of (boot_partition ∷ partition_of 2147483648 (volume_group "rootvg" "" root_volumes) ∷ [])

align_up-IsRoundedUp_example :
    IsRoundedUp (grain_size plain_table) 1000000 (align_up plain_table 1000000)
align_up-IsRoundedUp_example =
    align_up-IsRoundedUp plain_table 1000000 (unfold grain_size in omega arith)

align_extent-IsRoundedUp_example :
    IsRoundedUp lvm_default_extent_size 1000000 (align_extent 1000000)
align_extent-IsRoundedUp_example = align_extent-IsRoundedUp 1000000 (omega arith)

find_mountable-eq-first_example :
    find_mountable lvm_table "/" ≡ first_with "/" (for_each_mountable lvm_table)
find_mountable-eq-first_example = find_mountable-eq-first lvm_table "/"

contains_mountpoint-eq_example :
    contains_mountpoint lvm_table "/var"
    ≡ is_some (first_with "/var" (for_each_mountable lvm_table))
contains_mountpoint-eq_example = contains_mountpoint-eq lvm_table "/var"

fitted_size_bounds_example :
    (need (volume_group "rootvg" "" root_volumes)
      ≤ fitted_size (volume_group "rootvg" "" root_volumes) 5)
    × (5 ≤ fitted_size (volume_group "rootvg" "" root_volumes) 5)
    × (fitted_size (volume_group "rootvg" "" root_volumes) 5
        ≤ need (volume_group "rootvg" "" root_volumes) + 5 + lvm_default_extent_size)
unfolding total
fitted_size_bounds_example =
    fitted_size_bounds (volume_group "rootvg" "" root_volumes) 5 (omega arith)
