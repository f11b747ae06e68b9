-- ===== src/Disk/Custom/Partitions.antt =====
-- `addPlainPartition`, `addLVMPartition` and `addBtrfsPartition` of partition_table.go.
use image_builder.Prelude.{String, false, List, [], ◌∷◌, str_eq, map, if◌then◌else◌}
use image_builder.Prelude.Result.{Result, ok, err, ◌>>=◌, wrap}
use image_builder.Disk.Errors.{Error, no_filesystem_type, creating_partition}
use image_builder.Disk.Entities.{
  Swap, BtrfsSubvolume, Btrfs, Payload, no_payload, filesystem, swap, btrfs, volume_group,
  LogicalVolumes, no_volumes, Partition, PartitionTable,
}
use image_builder.Disk.Names.{gen_unique_string}
use image_builder.Disk.Types.{Arch, arch_unset, FsType, fs_none, fs_type_name, partition_type_id}
use image_builder.Disk.Create.{create_logical_volume}
use image_builder.Disk.Custom.{
  LvCustomization, SubvolumeCustomization, PartitionCustomization, CustomPartitionTableOptions,
  append_partition, plain_filesystem, esp_fstab_options,
}

unfoldable pub default_fs_type_name : FsType → Result Error String
default_fs_type_name fs_none = err no_filesystem_type
default_fs_type_name t = ok (fs_type_name t)

-- `getfstype`
unfoldable pub get_fs_type : CustomPartitionTableOptions → String → Result Error String
unfolding default_fs_type_name
get_fs_type options fs_type =
    if str_eq fs_type "" then default_fs_type_name options.default_fs_type else ok fs_type

-- The type name of a plain partition without a type of its own.
unfoldable pub plain_type_name : (mountpoint fs_type : String) → String
plain_type_name mountpoint fs_type =
    if str_eq mountpoint "/"
    then "root"
    else if str_eq mountpoint "/usr"
    then "usr"
    else if str_eq mountpoint "/boot"
    then "boot"
    else if str_eq mountpoint "/boot/efi"
    then "esp"
    else if str_eq fs_type "none"
    then "data"
    else if str_eq fs_type "swap"
    then "swap"
    else "data"

-- The type that is given, or else the one that the name stands for.
unfoldable pub part_type_or :
    PartitionTable → (part_type name : String) → Arch → Result Error String
part_type_or pt part_type name architecture =
    if str_eq part_type ""
    then wrap creating_partition (partition_type_id pt.type name architecture)
    else ok part_type

abbrev swap_with : String → Swap
swap_with label = record { uuid = ""; label = label; fstab_options = "defaults" }

unfoldable pub plain_payload_of : PartitionCustomization → String → Payload
plain_payload_of partition fs_type =
    if str_eq fs_type "none"
    then no_payload
    else if str_eq fs_type "swap"
    then swap (swap_with partition.label)
    else filesystem (record (plain_filesystem fs_type partition.label partition.mountpoint) {
      fstab_options =
          if str_eq partition.mountpoint "/boot/efi" then esp_fstab_options else "defaults";
    })

-- The new partition of a customization, with the given type and payload.
abbrev pub partition_with : PartitionCustomization → String → Payload → Partition
partition_with partition type payload = record {
  start = 0;
  size = partition.min_size;
  type = type;
  bootable = false;
  uuid = partition.part_uuid;
  label = partition.part_label;
  payload = payload;
  attrs = [];
}

unfoldable pub add_plain_partition :
    PartitionTable
    → PartitionCustomization
    → CustomPartitionTableOptions
    → Result Error PartitionTable
unfolding get_fs_type part_type_or plain_type_name plain_payload_of
add_plain_partition pt partition options =
    wrap creating_partition (get_fs_type options partition.fs_type) >>= λ fs_type.
    part_type_or pt partition.part_type (plain_type_name partition.mountpoint fs_type)
      options.architecture
    >>= λ part_type. ok (
        append_partition pt
          (partition_with partition part_type (plain_payload_of partition fs_type)))

-- The names of the volume groups on plain partitions.
unfoldable pub group_names : List Partition → List String
group_names [] = []
group_names (part ∷ parts) = elim part.payload [
  | volume_group name d lvs ↦ name ∷ group_names parts
  | _ ↦ group_names parts
]

-- The name that is given, or else "vg" with a number: the base counts as taken.
unfoldable pub vg_name : PartitionTable → String → Result Error String
unfolding group_names
vg_name pt name =
    if str_eq name ""
    then wrap creating_partition (gen_unique_string "vg" ("vg" ∷ group_names pt.partitions))
    else ok name

unfoldable pub lv_payload : LvCustomization → String → Payload
lv_payload lv fs_type =
    if str_eq fs_type "swap"
    then swap (swap_with lv.label)
    else filesystem (plain_filesystem fs_type lv.label lv.mountpoint)

unfoldable pub add_logical_volumes :
    LogicalVolumes
    → List LvCustomization
    → CustomPartitionTableOptions
    → Result Error LogicalVolumes
unfolding get_fs_type lv_payload
add_logical_volumes lvs [] options = ok lvs
add_logical_volumes lvs (lv ∷ rest) options =
    wrap creating_partition (get_fs_type options lv.fs_type) >>= λ fs_type.
    wrap creating_partition (create_logical_volume lvs lv.name lv.min_size (lv_payload lv fs_type))
    >>= λ lvs'. add_logical_volumes lvs' rest options

unfoldable pub add_lvm_partition :
    PartitionTable
    → PartitionCustomization
    → CustomPartitionTableOptions
    → Result Error PartitionTable
unfolding vg_name add_logical_volumes part_type_or
add_lvm_partition pt partition options = vg_name pt partition.name >>= λ name.
    add_logical_volumes no_volumes partition.logical_volumes options >>= λ lvs.
    part_type_or pt partition.part_type "lvm" options.architecture >>= λ part_type. ok (
      append_partition pt
        (partition_with partition part_type (volume_group name "created via lvm2 and osbuild" lvs)))

unfoldable pub new_subvolume : (name mountpoint : String) → BtrfsSubvolume
new_subvolume name mountpoint = record {
  name = name;
  size = 0;
  mountpoint = mountpoint;
  group_id = 0;
  compress = "";
  read_only = false;
  uuid = "";
}

unfoldable pub add_btrfs_partition :
    PartitionTable → PartitionCustomization → Result Error PartitionTable
unfolding new_subvolume part_type_or
add_btrfs_partition pt partition =
    let b : Btrfs = record {
      uuid = "";
      label = "";
      mountpoint = "";
      subvolumes =
          map (λ (sv : SubvolumeCustomization). new_subvolume sv.name sv.mountpoint)
            partition.subvolumes;
    } in
    part_type_or pt partition.part_type "data" arch_unset >>= λ part_type.
    ok (append_partition pt (partition_with partition part_type (btrfs b)))
