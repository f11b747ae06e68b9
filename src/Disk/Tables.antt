-- ===== src/Disk/Tables.antt =====
-- `NewPartitionTable` of partition_table.go, which puts the operations together. What Go leaves open is
-- an argument: the random numbers and the order in which a map is ranged over.
pub mod Customized
use image_builder.Prelude.{
  ℕ, String, Bool, true, false, not, ◌&&◌, ◌||◌, Option, none, some, List, [], ◌∷◌, str_eq, length,
  ltb, ◌==◌, if◌then◌else◌,
}
use image_builder.Prelude.Result.{Result, ok, err, panic, ◌>>=◌, wrap}
use image_builder.Disk.Errors.{
  Error, unsupported_mode_for_lvm, unsupported_mode, validation, invalid_table_type,
  invalid_partition_type, too_many_dos_partitions, generating_table,
}
use image_builder.Disk.Align.{gib}
use image_builder.Disk.Entities.{
  PartitionTableType, pt_none, pt_dos, pt_gpt, PartitionTablePolicy, PartitionTable,
}
use image_builder.Disk.Types.{Arch, arch_unset, fs_none, partition_table_type_name}
use image_builder.Disk.Clone.{clone_table}
use image_builder.Disk.Features.{features}
use image_builder.Disk.Customize.{FilesystemCustomization, apply_customization}
use image_builder.Disk.Modes.{ensure_lvm, ensure_btrfs}
use image_builder.Disk.Directories.{MntSize, ensure_directory_sizes}
use image_builder.Disk.Layout.{relayout}
use image_builder.Disk.Identify.{Random, generate_uuids}
use image_builder.Disk.Custom.{
  boot_none, PartitionCustomization, DiskCustomization, CustomPartitionTableOptions,
  add_partitions_for_boot_mode,
}
use image_builder.Disk.Custom.Partitions.{
  add_plain_partition, add_lvm_partition, add_btrfs_partition,
}
use image_builder.Disk.Custom.Boot.{maybe_add_boot_partition, ensure_root_filesystem}

abbrev pub default_policy : PartitionTablePolicy
default_policy = record { ensure_xbootldr = true; grow_root_to_fill_disk = none }

unfoldable pub with_policy : PartitionTable → Option PartitionTablePolicy → PartitionTable
with_policy pt (some policy) = pt
with_policy pt none = record pt { policy = some default_policy }

-- The values of `partition.PartitioningMode`.
abbrev raw_mode : String
raw_mode = "raw"

abbrev lvm_mode : String
lvm_mode = "lvm"

abbrev auto_lvm_mode : String
auto_lvm_mode = "auto-lvm"

abbrev btrfs_mode : String
btrfs_mode = "btrfs"

unfoldable pub is_empty : List FilesystemCustomization → Bool
is_empty [] = true
is_empty (mnt ∷ rest) = false

-- The switch over the mode, with the default filesystem that it leaves.
unfoldable pub apply_mode :
    PartitionTable
    → String
    → List FilesystemCustomization
    → Arch
    → String
    → Result Error (PartitionTable × String)
unfolding is_empty
apply_mode pt mode new_mountpoints architecture default_fs =
    if str_eq mode lvm_mode
    then (ensure_lvm pt default_fs >>= λ pt'. ok (pt', default_fs))
    else if str_eq mode raw_mode
    then ok (pt, default_fs)
    else if str_eq mode "" || str_eq mode auto_lvm_mode
    then (if not (is_empty new_mountpoints)
        then (ensure_lvm pt default_fs >>= λ pt'. ok (pt', default_fs))
        else ok (pt, default_fs))
    else if str_eq mode btrfs_mode
    then (ensure_btrfs pt "btrfs" architecture >>= λ pt'. ok (pt', "btrfs"))
    else err unsupported_mode

abbrev default_required_sizes : List (String × ℕ)
default_required_sizes = ("/", gib) ∷ ("/usr", 2147483648) ∷ []

-- `requiredSizes`, the defaults where it is nil.
unfoldable pub sizes_or_default : Option (List (String × ℕ)) → List (String × ℕ)
sizes_or_default none = default_required_sizes
sizes_or_default (some sizes) = sizes

module _ {R : Type 0} (random : Random R) (order : List MntSize → List MntSize) where
  unfoldable pub ensure_sizes_if_any :
      PartitionTable → List (String × ℕ) → Result Error PartitionTable
  ensure_sizes_if_any pt [] = ok pt
  ensure_sizes_if_any pt sizes = ensure_directory_sizes order pt sizes

  unfoldable pub new_partition_table :
      PartitionTable
      → List FilesystemCustomization
      → ℕ
      → String
      → Arch
      → Option (List (String × ℕ))
      → String
      → R
      → Result Error (PartitionTable × R)
  unfolding with_policy apply_mode sizes_or_default ensure_sizes_if_any
  new_partition_table base mountpoints image_size mode architecture required_sizes default_fs r =
      clone_table base >>= λ cloned.
      let new_pt = with_policy cloned cloned.policy in
      let fs = if str_eq default_fs "" then "xfs" else default_fs in
      if (features base).lvm && (str_eq mode raw_mode || str_eq mode btrfs_mode)
      then err unsupported_mode_for_lvm
      else (apply_customization new_pt mountpoints fs false >>= λ (pt1, new_mountpoints).
          apply_mode pt1 mode new_mountpoints architecture fs >>= λ (pt2, fs').
          apply_customization pt2 new_mountpoints fs' true >>= λ (pt3, left).
          ensure_sizes_if_any pt3 (sizes_or_default required_sizes) >>= λ pt4.
          relayout pt4 image_size >>= λ (pt5, end). ok (generate_uuids random pt5 r))
