-- ===== src/Disk/Custom/Boot.antt =====
-- `needsBoot`, `maybeAddBootPartition` and `EnsureRootFilesystem` of partition_table.go.
pub mod Needed
use mathlib.Core.Option
use image_builder.Prelude.{
  ℕ, String, Bool, true, false, not, ◌&&◌, ◌||◌, Option, none, some, List, [], ◌∷◌, ◌++◌, str_eq,
  if◌then◌else◌,
}
use image_builder.Prelude.Result.{Result, ok, err, panic, ◌>>=◌, wrap}
use image_builder.Disk.Errors.{Error, no_filesystem_type, creating_root}
use image_builder.Disk.Entities.{
  BtrfsSubvolume, Btrfs, LogicalVolumes, Payload, no_payload, filesystem, swap, raw, btrfs,
  volume_group, luks, Partition, PartitionTable,
}
use image_builder.Disk.Paths.{
  Mountable, of_filesystem, of_subvolume, get_mountpoint, for_each_mountable,
}
use image_builder.Disk.Names.{gen_unique_string}
use image_builder.Disk.Types.{
  Arch, FsType, fs_none, fs_ext4, fs_xfs, fs_type_name, partition_type_id,
}
use image_builder.Disk.Create.{create_logical_volume}
use image_builder.Disk.Modes.{ensures_xbootldr}
use image_builder.Disk.Custom.{
  LvCustomization, SubvolumeCustomization, PartitionCustomization, append_partition,
  empty_partition, plain_filesystem, is_plain, spec_label, add_boot_partition,
}
use image_builder.Disk.Custom.Partitions.{new_subvolume}

-- The flags of the loop in `needsBoot`.
pub record BootNeeds : Type 0 where
  pub found_btrfs_or_lvm : Bool
  pub has_plain_root : Bool
  pub has_plain_boot : Bool
  pub root_needs_boot : Bool
  pub has_btrfs_root_with_boot : Bool

unfoldable pub lvs_have : String → List LvCustomization → Bool
lvs_have mountpoint [] = false
lvs_have mountpoint (lv ∷ lvs) = str_eq lv.mountpoint mountpoint || lvs_have mountpoint lvs

unfoldable pub subvolumes_have : String → List SubvolumeCustomization → Bool
subvolumes_have mountpoint [] = false
subvolumes_have mountpoint (sv ∷ svs) =
    str_eq sv.mountpoint mountpoint || subvolumes_have mountpoint svs

-- One round of the loop.
unfoldable pub visit_customization : PartitionCustomization → BootNeeds → BootNeeds
unfolding lvs_have subvolumes_have
visit_customization part needs =
    if is_plain part
    then (if str_eq part.mountpoint "/"
        then record needs { has_plain_root = true }
        else if str_eq part.mountpoint "/boot"
        then record needs { has_plain_boot = true }
        else needs)
    else if str_eq part.type "lvm"
    then record needs {
      found_btrfs_or_lvm = true;
      root_needs_boot = needs.root_needs_boot || lvs_have "/" part.logical_volumes;
    }
    else if str_eq part.type "btrfs"
    then (let has_root = subvolumes_have "/" part.subvolumes in
        let has_boot = subvolumes_have "/boot" part.subvolumes in
        record needs {
          found_btrfs_or_lvm = true;
          has_btrfs_root_with_boot = needs.has_btrfs_root_with_boot || has_root && has_boot;
          root_needs_boot = needs.root_needs_boot || has_root && not has_boot;
        })
    else needs

unfoldable pub boot_needs : List PartitionCustomization → BootNeeds → BootNeeds
unfolding visit_customization
boot_needs [] needs = needs
boot_needs (part ∷ parts) needs = boot_needs parts (visit_customization part needs)

unfoldable pub decide_boot : BootNeeds → Bool
decide_boot needs =
    if needs.has_plain_root || (needs.has_plain_boot || needs.has_btrfs_root_with_boot)
    then false
    else if needs.root_needs_boot
    then true
    else needs.found_btrfs_or_lvm

abbrev pub no_needs : BootNeeds
no_needs = record {
  found_btrfs_or_lvm = false;
  has_plain_root = false;
  has_plain_boot = false;
  root_needs_boot = false;
  has_btrfs_root_with_boot = false;
}

-- `needsBoot` of the partitions of the customizations
unfoldable pub needs_boot : List PartitionCustomization → Bool
unfolding boot_needs decide_boot
needs_boot parts = decide_boot (boot_needs parts no_needs)

unfoldable pub boot_fs_type_of : FsType → FsType
boot_fs_type_of fs_ext4 = fs_ext4
boot_fs_type_of fs_xfs = fs_xfs
boot_fs_type_of _ = fs_xfs

-- `maybeAddBootPartition`
unfoldable pub maybe_add_boot_partition :
    PartitionTable → List PartitionCustomization → FsType → Result Error PartitionTable
unfolding needs_boot boot_fs_type_of
maybe_add_boot_partition pt parts default_fs_type = ensures_xbootldr pt.policy >>= λ ensures.
    if not ensures
    then ok pt
    else if needs_boot parts
    then add_boot_partition pt (boot_fs_type_of default_fs_type)
    else ok pt

-- The labels, and the names of the subvolumes, of the mountables other than "/".
unfoldable pub other_labels : List Mountable → List String
other_labels [] = []
other_labels (mnt ∷ rest) =
    let labels = other_labels rest in
    if str_eq (get_mountpoint mnt) "/" then labels else spec_label mnt ∷ labels

unfoldable pub other_subvolume_names : List Mountable → List String
other_subvolume_names [] = []
other_subvolume_names (of_filesystem fs ∷ rest) = other_subvolume_names rest
other_subvolume_names (of_subvolume sv ∷ rest) =
    let names = other_subvolume_names rest in
    if str_eq sv.mountpoint "/" then names else sv.name ∷ names

unfoldable pub has_root_mountable : List Mountable → Bool
has_root_mountable [] = false
has_root_mountable (mnt ∷ rest) = str_eq (get_mountpoint mnt) "/" || has_root_mountable rest

-- A root volume in a volume group, whose name is generated.
unfoldable pub add_root_volume : LogicalVolumes → List String → FsType → Result Error LogicalVolumes
add_root_volume lvs labels fs_none = err (creating_root no_filesystem_type)
add_root_volume lvs labels fs_type =
    wrap creating_root (gen_unique_string "root" labels) >>= λ label. wrap creating_root (
      create_logical_volume lvs "" 0
        (filesystem (plain_filesystem (fs_type_name fs_type) label "/")))

unfoldable pub add_root_subvolume : Btrfs → List String → Result Error Btrfs
unfolding new_subvolume
add_root_subvolume b subvol_names =
    wrap creating_root (gen_unique_string "root" subvol_names) >>= λ name.
    ok (record b { subvolumes = b.subvolumes ++ new_subvolume name "/" ∷ [] })

-- The root in the first volume group or Btrfs volume on a plain partition; `none` without one.
unfoldable pub root_in_partitions :
    List Partition
    → (labels subvol_names : List String) → FsType
    → Option (Result Error (List Partition))
unfolding add_root_volume add_root_subvolume
root_in_partitions [] labels subvol_names fs_type = none
root_in_partitions (part ∷ parts) labels subvol_names fs_type =
    let later = root_in_partitions parts labels subvol_names fs_type in
    elim part.payload [
      | volume_group n d lvs ↦ some (
          add_root_volume lvs labels fs_type >>= λ lvs'.
          ok (record part { payload = volume_group n d lvs' } ∷ parts))
      | btrfs b ↦ some (
          add_root_subvolume b subvol_names >>= λ b'.
          ok (record part { payload = btrfs b' } ∷ parts))
      | _ ↦ Option.map (λ r. r >>= λ parts'. ok (part ∷ parts')) later
    ]

-- A plain root partition at the end of the table.
unfoldable pub add_root_partition :
    PartitionTable → List String → FsType → Arch → Result Error PartitionTable
add_root_partition pt labels fs_none architecture = err (creating_root no_filesystem_type)
add_root_partition pt labels fs_type architecture =
    wrap creating_root (gen_unique_string "root" labels) >>= λ label.
    wrap creating_root (partition_type_id pt.type "root" architecture) >>= λ part_type. ok (
      append_partition pt (record empty_partition {
        type = part_type;
        payload = filesystem (plain_filesystem (fs_type_name fs_type) label "/");
      }))

-- `EnsureRootFilesystem`
unfoldable pub ensure_root_filesystem : PartitionTable → FsType → Arch → Result Error PartitionTable
unfolding other_labels other_subvolume_names has_root_mountable root_in_partitions
    add_root_partition
ensure_root_filesystem pt fs_type architecture =
    let mountables = for_each_mountable pt in
    let labels = other_labels mountables in
    if has_root_mountable mountables
    then ok pt
    else elim (root_in_partitions pt.partitions labels (other_subvolume_names mountables) fs_type) [
      | some r ↦ r >>= λ parts. ok (record pt { partitions = parts })
      | none ↦ add_root_partition pt labels fs_type architecture
    ]
