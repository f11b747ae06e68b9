-- ===== src/Disk/Custom.antt =====
-- The partitions of `NewCustomPartitionTable`: those that booting needs, and those of the
-- customizations. The structures of github.com/osbuild/blueprint have the fields that the code reads.
pub mod Partitions
pub mod Boot
use mathlib.Core.Option
use image_builder.Prelude.{
  ℕ, ◌*◌, String, Bool, true, false, not, ◌&&◌, ◌||◌, Option, none, some, List, [], ◌∷◌, ◌++◌, ◌==◌,
  str_eq, map, if◌then◌else◌,
}
use image_builder.Prelude.Result.{Result, ok, err, panic, ◌>>=◌, wrap}
use image_builder.Disk.Errors.{
  Error, no_filesystem_type, unknown_boot_mode, unsupported_architecture, creating_partition,
}
use image_builder.Disk.Align.{mib}
use image_builder.Disk.Entities.{
  Filesystem, no_mkfs_options, Swap, BtrfsSubvolume, Btrfs, Payload, no_payload, filesystem, swap,
  raw, btrfs, volume_group, luks, LogicalVolumes, no_volumes, volume, Partition, PartitionTableType,
  PartitionTablePolicy, PartitionTable,
}
use image_builder.Disk.Paths.{
  Mountable, of_filesystem, of_subvolume, get_mountpoint, for_each_mountable,
}
use image_builder.Disk.Names.{gen_unique_string}
use image_builder.Disk.Types.{
  Arch, arch_unset, arch_arm, arch_aarch64, arch_ppc64le, arch_s390x, arch_x86_64, arch_riscv64,
  FsType, fs_none, fs_vfat, fs_ext4, fs_xfs, fs_btrfs, fs_type_name, partition_type_id,
}
use image_builder.Disk.Create.{create_logical_volume}
use image_builder.Disk.Modes.{default_boot_partition_size, ensures_xbootldr}

-- `platform.BootMode`
pub data BootMode : Type 0 where
  boot_none boot_legacy boot_uefi boot_hybrid : BootMode

pub record LvCustomization : Type 0 where
  pub name : String
  pub min_size : ℕ
  pub mountpoint : String
  pub label : String
  pub fs_type : String

pub record SubvolumeCustomization : Type 0 where
  pub name : String
  pub mountpoint : String

pub record PartitionCustomization : Type 0 where
  pub type : String
  pub part_type : String
  pub part_uuid : String
  pub part_label : String
  pub min_size : ℕ
  pub mountpoint : String
  pub label : String
  pub fs_type : String
  pub name : String
  pub logical_volumes : List LvCustomization
  pub subvolumes : List SubvolumeCustomization

pub record DiskCustomization : Type 0 where
  pub type : String
  pub min_size : ℕ
  pub partitions : List PartitionCustomization
  pub start_offset : ℕ
  pub sector_size : ℕ

pub record CustomPartitionTableOptions : Type 0 where
  pub partition_table_type : PartitionTableType
  pub boot_mode : BootMode
  pub default_fs_type : FsType
  pub architecture : Arch
  pub esp_size : ℕ
  pub required_min_sizes : List (String × ℕ)

-- A partition with nothing set, Go's zero value.
abbrev pub empty_partition : Partition
empty_partition = record {
  start = 0;
  size = 0;
  type = "";
  bootable = false;
  uuid = "";
  label = "";
  payload = no_payload;
  attrs = [];
}

abbrev pub plain_filesystem : (type label mountpoint : String) → Filesystem
plain_filesystem type label mountpoint = record {
  type = type;
  uuid = "";
  label = label;
  mountpoint = mountpoint;
  fstab_options = "defaults";
  fstab_freq = 0;
  fstab_pass_no = 0;
  mkfs_options = no_mkfs_options;
}

abbrev pub append_partition : PartitionTable → Partition → PartitionTable
append_partition pt part = record pt { partitions = pt.partitions ++ part ∷ [] }

-- `GetFSSpec().Label`
unfoldable pub spec_label : Mountable → String
spec_label (of_filesystem fs) = fs.label
spec_label (of_subvolume sv) = sv.name

unfoldable pub add_boot_partition : PartitionTable → FsType → Result Error PartitionTable
unfolding spec_label
add_boot_partition pt fs_none = err (creating_partition no_filesystem_type)
add_boot_partition pt boot_fs_type =
    let labels = map spec_label (for_each_mountable pt) in
    wrap creating_partition (gen_unique_string "boot" labels) >>= λ boot_label.
    wrap creating_partition (partition_type_id pt.type "boot" arch_unset) >>= λ part_type. ok (
      append_partition pt (record empty_partition {
        type = part_type;
        size = default_boot_partition_size;
        payload = filesystem (plain_filesystem (fs_type_name boot_fs_type) boot_label "/boot");
      }))

unfoldable pub is_plain : PartitionCustomization → Bool
is_plain part = str_eq part.type "plain" || str_eq part.type ""

-- `hasESP`, of the partitions of the customizations
unfoldable pub has_esp : List PartitionCustomization → Bool
unfolding is_plain
has_esp [] = false
has_esp (part ∷ parts) = is_plain part && str_eq part.mountpoint "/boot/efi" || has_esp parts

abbrev default_esp_size : ℕ
default_esp_size = 200 * mib

abbrev pub esp_fstab_options : String
esp_fstab_options = "defaults,uid=0,gid=0,umask=077,shortname=winnt"

unfoldable pub mk_ppc_prep_boot : PartitionTableType → Result Error Partition
mk_ppc_prep_boot type =
    wrap creating_partition (partition_type_id type "ppc_prep" arch_unset) >>= λ part_type.
    ok (record empty_partition { size = 4 * mib; bootable = true; type = part_type })

unfoldable pub mk_bios_boot : PartitionTableType → Result Error Partition
mk_bios_boot type =
    wrap creating_partition (partition_type_id type "bios" arch_unset) >>= λ part_type.
    ok (record empty_partition {
      size = 1 * mib;
      bootable = true;
      type = part_type;
      uuid = "FAC7F1FB-3E8D-4137-A512-961DE09A5549";
    })

unfoldable pub mk_esp : ℕ → PartitionTableType → Result Error Partition
mk_esp size type =
    wrap creating_partition (partition_type_id type "esp" arch_unset) >>= λ part_type.
    ok (record empty_partition {
      size = size;
      type = part_type;
      uuid = "68B2905B-DF3E-4FB3-80FA-49D1E773AA33";
      payload = filesystem (record {
        type = "vfat";
        uuid = "7B77-95E7";
        label = "ESP";
        mountpoint = "/boot/efi";
        fstab_options = esp_fstab_options;
        fstab_freq = 0;
        fstab_pass_no = 2;
        mkfs_options = no_mkfs_options;
      });
    })

-- `pt.Partitions = append(pt.Partitions, part)` of a partition that is made.
unfoldable pub append_made : PartitionTable → Result Error Partition → Result Error PartitionTable
append_made pt made = made >>= λ part. ok (append_partition pt part)

unfoldable pub add_esp_if_needed :
    PartitionTable → List PartitionCustomization → ℕ → Result Error PartitionTable
unfolding has_esp mk_esp append_made
add_esp_if_needed pt parts esp_size =
    if not (has_esp parts) then append_made pt (mk_esp esp_size pt.type) else ok pt

unfoldable pub add_for_x86_64 :
    PartitionTable → List PartitionCustomization → BootMode → ℕ → Result Error PartitionTable
unfolding mk_bios_boot append_made add_esp_if_needed
add_for_x86_64 pt parts boot_legacy esp_size = append_made pt (mk_bios_boot pt.type)
add_for_x86_64 pt parts boot_uefi esp_size = add_esp_if_needed pt parts esp_size
add_for_x86_64 pt parts boot_hybrid esp_size =
    append_made pt (mk_bios_boot pt.type) >>= λ pt'. add_esp_if_needed pt' parts esp_size
add_for_x86_64 pt parts boot_none esp_size = err unknown_boot_mode

unfoldable pub add_for_arch :
    PartitionTable → List PartitionCustomization → Arch → BootMode → ℕ → Result Error PartitionTable
unfolding mk_ppc_prep_boot append_made add_esp_if_needed add_for_x86_64
add_for_arch pt parts arch_ppc64le mode esp_size = append_made pt (mk_ppc_prep_boot pt.type)
add_for_arch pt parts arch_s390x mode esp_size = ok pt
add_for_arch pt parts arch_aarch64 mode esp_size = add_esp_if_needed pt parts esp_size
add_for_arch pt parts arch_riscv64 mode esp_size = add_esp_if_needed pt parts esp_size
add_for_arch pt parts arch_x86_64 mode esp_size = add_for_x86_64 pt parts mode esp_size
add_for_arch pt parts _ mode esp_size = err unsupported_architecture

-- `addPartitionsForBootMode`
unfoldable pub add_partitions_for_boot_mode :
    PartitionTable → List PartitionCustomization → Arch → BootMode → ℕ → Result Error PartitionTable
unfolding add_for_arch
add_partitions_for_boot_mode pt parts architecture boot_none esp_size = ok pt
add_partitions_for_boot_mode pt parts architecture mode esp_size =
    add_for_arch pt parts architecture mode (if esp_size == 0 then default_esp_size else esp_size)
