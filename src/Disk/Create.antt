-- ===== src/Disk/Create.antt =====
-- New volumes and mountpoints: `CreateLogicalVolume` and `CreateMountpoint` of lvm.go, those of
-- btrfs.go and partition_table.go, and `createFilesystem`. Each returns the changed container; the
-- entity that the code returns a pointer to is the last of its children.
pub mod Contains
pub mod Nested
use mathlib.Core.Option
use image_builder.Prelude.{
  ℕ, zero, suc, String, Bool, false, Option, none, some, List, [], ◌∷◌, ◌++◌, ◌==◌, str_eq, length,
  if◌then◌else◌,
}
use image_builder.Prelude.Result.{Result, ok, err, panic, ◌>>=◌, wrap}
use image_builder.Disk.Errors.{
  Error, btrfs_under_lvm, only_btrfs_mountpoints, volume_without_name, maximum_partitions,
  creating_volume,
}
use image_builder.Disk.Align.{align_extent}
use image_builder.Disk.Entities.{
  Filesystem, no_mkfs_options, BtrfsSubvolume, Btrfs, Payload, no_payload, filesystem, swap, raw,
  btrfs, volume_group, luks, LogicalVolumes, no_volumes, volume, Partition, PartitionTable, pt_gpt,
}
use image_builder.Disk.Paths.{EntityPath, entity_path}
use image_builder.Disk.Names.{gen_lv_name}
use image_builder.Disk.Types.{xbootldr_partition_guid, filesystem_data_guid}
use image_builder.Disk.Resize.{align_entity_branch, resize_entity_branch}

-- A filesystem as the code creates it for a mountpoint.
abbrev pub new_filesystem : String → String → Filesystem
new_filesystem fs_type mountpoint = record {
  type = fs_type;
  uuid = "";
  label = "";
  mountpoint = mountpoint;
  fstab_options = "defaults";
  fstab_freq = 0;
  fstab_pass_no = 0;
  mkfs_options = no_mkfs_options;
}

-- `vg.LogicalVolumes = append(vg.LogicalVolumes, lv)`
unfoldable pub append_volume : LogicalVolumes → String → ℕ → Payload → LogicalVolumes
append_volume no_volumes n s p = volume n s p no_volumes
append_volume (volume n' s' p' lvs) n s p = volume n' s' p' (append_volume lvs n s p)

unfoldable pub count_volumes : LogicalVolumes → ℕ
count_volumes no_volumes = 0
count_volumes (volume n s p lvs) = suc (count_volumes lvs)

-- What a volume is named after where no name is given.
unfoldable pub volume_base : Payload → Result Error String
volume_base (filesystem fs) = ok fs.mountpoint
volume_base (swap s) = ok "swap"
volume_base _ = err volume_without_name

unfoldable pub volume_name : LogicalVolumes → String → Payload → Result Error String
unfolding volume_base
volume_name lvs name payload =
    if str_eq name "" then (do base ← volume_base payload; gen_lv_name lvs base) else ok name

unfoldable pub create_logical_volume :
    LogicalVolumes → String → ℕ → Payload → Result Error LogicalVolumes
unfolding volume_name
create_logical_volume lvs name size payload = do
  name' ← volume_name lvs name payload
  ok (append_volume lvs name' (align_extent size) payload)

-- `CreateMountpoint` of a volume group
unfoldable pub create_mountpoint_volume :
    LogicalVolumes → String → String → ℕ → Result Error LogicalVolumes
unfolding create_logical_volume
create_mountpoint_volume lvs mountpoint fs_type size =
    if str_eq fs_type "btrfs"
    then err btrfs_under_lvm
    else create_logical_volume lvs "" size (filesystem (new_filesystem fs_type mountpoint))

abbrev pub default_btrfs_compression : String
default_btrfs_compression = "zstd:1"

-- `CreateMountpoint` of a Btrfs volume
unfoldable pub create_mountpoint_subvolume : Btrfs → String → String → ℕ → Result Error Btrfs
create_mountpoint_subvolume b mountpoint fs_type size =
    if str_eq fs_type "btrfs"
    then (let sv : BtrfsSubvolume = record {
      name = if str_eq mountpoint "/" then "root" else mountpoint;
      size = size;
      mountpoint = mountpoint;
      group_id = 0;
      compress = default_btrfs_compression;
      read_only = false;
      uuid = b.uuid;
    } in
        ok (record b { subvolumes = b.subvolumes ++ sv ∷ [] }))
    else err only_btrfs_mountpoints

unfoldable pub max_partitions : PartitionTable → ℕ
max_partitions pt = elim pt.type [ pt_gpt ↦ 128 | _ ↦ 4 ]

-- `CreateMountpoint` of a partition table
unfoldable pub create_mountpoint :
    PartitionTable → String → String → ℕ → Result Error PartitionTable
unfolding max_partitions
create_mountpoint pt mountpoint fs_type size =
    let part : Partition = record {
      start = 0;
      size = size;
      type = elim pt.type [
        | pt_gpt ↦
            if str_eq mountpoint "/boot" then xbootldr_partition_guid else filesystem_data_guid
        | _ ↦ ""
      ];
      bootable = false;
      uuid = "";
      label = "";
      payload = filesystem (new_filesystem fs_type mountpoint);
      attrs = [];
    } in
    if length pt.partitions == max_partitions pt
    then err maximum_partitions
    else ok (record pt { partitions = pt.partitions ++ part ∷ [] })

-- The path of a later child of a container, where the path of its first child is given.
unfoldable pub next_child : EntityPath → EntityPath
next_child [] = []
next_child (i ∷ path) = suc i ∷ path

-- The search of `createFilesystem` for the first `MountpointCreator` on the path of "/", and the
-- new volume in it: the changed payload with the path to the volume, or `none` where the payload and
-- all below it on the path create no mountpoints.
unfoldable mutual
  pub create_in_payload :
      Payload → EntityPath → String → String → Option (Result Error (Payload × EntityPath))
  create_in_payload (btrfs b) path mountpoint fs_type = some (
      create_mountpoint_subvolume b mountpoint fs_type 0 >>= λ b'.
      ok (btrfs b', length b.subvolumes ∷ []))
  create_in_payload (volume_group n d lvs) (i ∷ path) mountpoint fs_type =
      elim (create_in_volumes lvs i path mountpoint fs_type) [
        | some r ↦ some (r >>= λ (lvs', path'). ok (volume_group n d lvs', path'))
        | none ↦ some (
            create_mountpoint_volume lvs mountpoint fs_type 0 >>= λ lvs'.
            ok (volume_group n d lvs', count_volumes lvs ∷ []))
      ]
  create_in_payload (luks header p) (i ∷ path) mountpoint fs_type =
      Option.map (λ r. r >>= λ (p', path'). ok (luks header p', 0 ∷ path'))
        (create_in_payload p path mountpoint fs_type)
  create_in_payload _ path mountpoint fs_type = none

  pub create_in_volumes :
      LogicalVolumes
      → ℕ
      → EntityPath
      → String
      → String
      → Option (Result Error (LogicalVolumes × EntityPath))
  create_in_volumes (volume n s p lvs) zero (j ∷ path) mountpoint fs_type =
      Option.map (λ r. r >>= λ (p', path'). ok (volume n s p' lvs, 0 ∷ 0 ∷ path'))
        (create_in_payload p path mountpoint fs_type)
  create_in_volumes (volume n s p lvs) (suc i) path mountpoint fs_type =
      Option.map (λ r. r >>= λ (lvs', path'). ok (volume n s p lvs', next_child path'))
        (create_in_volumes lvs i path mountpoint fs_type)
  create_in_volumes _ i path mountpoint fs_type = none
