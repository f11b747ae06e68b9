-- ===== src/Disk/Modes.antt =====
-- `ensureLVM` and `ensureBtrfs` of partition_table.go, which convert the root partition.
pub mod Plain
pub mod Converted
pub mod Ensured
pub mod Returned
use image_builder.Prelude.{
  ℕ, zero, suc, String, Bool, true, false, not, ◌&&◌, Option, none, some, List, [], ◌∷◌, ◌==◌,
  str_eq, get_elem?, modify, if◌then◌else◌,
}
use image_builder.Prelude.Result.{Result, ok, err, panic, ◌>>=◌, wrap}
use image_builder.Text.{split_comma, contains}
use image_builder.Disk.Errors.{
  Error, lvm_without_boot, unsupported_parent_lvm, unsupported_parent_btrfs, no_root_mountpoint,
  creating_boot, converting_to_btrfs,
}
use image_builder.Disk.Align.{gib}
use image_builder.Disk.Entities.{
  BtrfsSubvolume, Btrfs, Payload, no_payload, filesystem, swap, raw, btrfs, volume_group, luks,
  LogicalVolumes, no_volumes, volume, Partition, PartitionTableType, pt_gpt, PartitionTablePolicy,
  PartitionTable,
}
use image_builder.Disk.Paths.{EntityPath, entity_path}
use image_builder.Disk.Types.{Arch, lvm_partition_guid, lvm_partition_dos_id, partition_type_id}
use image_builder.Disk.Create.{create_logical_volume, create_mountpoint, default_btrfs_compression}

abbrev pub default_boot_partition_size : ℕ
default_boot_partition_size = gib

-- The type of the entity that holds a mountable: the second of the entities of `entityPath`. A
-- partition is told by its index.
pub data Parent : Type 0 where
  in_partition : ℕ → Parent
  in_volume in_btrfs in_luks : Parent

-- The parent at the end of a path below a payload, which is held by the given one.
unfoldable mutual
  pub parent_below : Payload → EntityPath → Parent → Parent
  parent_below (btrfs b) (i ∷ path) above = in_btrfs
  parent_below (volume_group n d lvs) (i ∷ path) above = parent_among lvs i path above
  parent_below (luks header p) (i ∷ path) above = parent_below p path in_luks
  parent_below p path above = above

  pub parent_among : LogicalVolumes → ℕ → EntityPath → Parent → Parent
  parent_among (volume n s p lvs) zero (j ∷ path) above = parent_below p path in_volume
  parent_among (volume n s p lvs) (suc i) path above = parent_among lvs i path above
  parent_among lvs i path above = above

unfoldable pub parent_in : Option Partition → ℕ → EntityPath → Option Parent
unfolding parent_below
parent_in none i path = none
parent_in (some part) i path = some (parent_below part.payload path (in_partition i))

-- `rootPath[1]`
unfoldable pub parent_at : PartitionTable → EntityPath → Option Parent
unfolding parent_in
parent_at pt (i ∷ j ∷ path) = parent_in (get_elem? pt.partitions i) i path
parent_at pt _ = none

-- `pt.Policy.EnsureXBOOTLDR`, a panic without a policy.
unfoldable pub ensures_xbootldr : Option PartitionTablePolicy → Result Error Bool
ensures_xbootldr none = panic
ensures_xbootldr (some policy) = ok policy.ensure_xbootldr

abbrev new_vg_description : String
new_vg_description = "created via lvm2 and osbuild"

-- The partition with its payload moved to a new logical volume.
unfoldable pub wrap_in_volume : PartitionTableType → Partition → Result Error Partition
wrap_in_volume type part = elim (create_logical_volume no_volumes "rootlv" part.size part.payload) [
  | ok lvs ↦ ok (record part {
    payload = volume_group "rootvg" new_vg_description lvs;
    size = 0;
    type = elim type [ pt_gpt ↦ lvm_partition_guid | _ ↦ lvm_partition_dos_id ];
  })
  | err _ ↦ panic
  | panic ↦ panic
]

-- Replaces the partition of an index by what is made of it.
unfoldable pub convert_at :
    (Partition → Result Error Partition) → List Partition → ℕ → Result Error (List Partition)
convert_at f [] i = panic
convert_at f (part ∷ parts) zero = f part >>= λ part'. ok (part' ∷ parts)
convert_at f (part ∷ parts) (suc i) = convert_at f parts i >>= λ parts'. ok (part ∷ parts')

unfoldable pub convert_to_lvm : PartitionTable → Option Parent → Result Error PartitionTable
unfolding convert_at wrap_in_volume
convert_to_lvm pt none = panic
convert_to_lvm pt (some in_volume) = ok pt
convert_to_lvm pt (some (in_partition i)) =
    convert_at (wrap_in_volume pt.type) pt.partitions i >>= λ parts.
    ok (record pt { partitions = parts })
convert_to_lvm pt (some _) = err unsupported_parent_lvm

-- The rest of `ensureLVM`, where "/boot" exists.
unfoldable pub root_to_lvm : PartitionTable → Result Error PartitionTable
unfolding convert_to_lvm parent_at
root_to_lvm pt = elim (entity_path pt "/") [
  | none ↦ panic
  | some path ↦ convert_to_lvm pt (parent_at pt path)
]

unfoldable pub ensure_boot_for_lvm :
    PartitionTable → String → Option EntityPath → Result Error PartitionTable
unfolding ensures_xbootldr
ensure_boot_for_lvm pt default_fs (some boot) = ok pt
ensure_boot_for_lvm pt default_fs none = ensures_xbootldr pt.policy >>= λ ensures.
    if not ensures
    then err lvm_without_boot
    else create_mountpoint pt "/boot" default_fs default_boot_partition_size

unfoldable pub ensure_lvm : PartitionTable → String → Result Error PartitionTable
unfolding root_to_lvm ensure_boot_for_lvm
ensure_lvm pt default_fs = elim (entity_path pt "/") [
  | none ↦ panic
  | some root ↦
      ensure_boot_for_lvm pt default_fs (entity_path pt "/boot") >>= λ pt'. root_to_lvm pt'
]

-- `FSTabOptions.ReadOnly`
unfoldable pub is_read_only : String → Bool
unfolding split_comma contains
is_read_only mnt_ops =
    let opts = split_comma mnt_ops in contains opts "ro" && not (contains opts "rw")

-- `GetFSTabOptions().ReadOnly()` of the payload of a plain partition that is mountable.
unfoldable pub read_only_payload : Payload → Bool
unfolding is_read_only
read_only_payload (filesystem fs) = is_read_only fs.fstab_options
read_only_payload _ = false

-- The partition with a new Btrfs volume in place of its payload, of the given type.
unfoldable pub btrfs_partition : Partition → String → Partition
unfolding read_only_payload
btrfs_partition part id =
    let sv : BtrfsSubvolume = record {
      name = "root";
      size = part.size;
      mountpoint = "/";
      group_id = 0;
      compress = default_btrfs_compression;
      read_only = read_only_payload part.payload;
      uuid = "";
    } in
    let b : Btrfs = record { uuid = ""; label = "root"; mountpoint = ""; subvolumes = sv ∷ [] } in
    record part { payload = btrfs b; size = 0; type = id }

unfoldable pub wrap_in_btrfs : PartitionTableType → Arch → Partition → Result Error Partition
unfolding btrfs_partition
wrap_in_btrfs type architecture part =
    wrap converting_to_btrfs (partition_type_id type "root" architecture) >>= λ id.
    ok (btrfs_partition part id)

unfoldable pub convert_to_btrfs :
    PartitionTable → Arch → Option Parent → Result Error PartitionTable
unfolding convert_at wrap_in_btrfs
convert_to_btrfs pt architecture none = panic
convert_to_btrfs pt architecture (some in_btrfs) = ok pt
convert_to_btrfs pt architecture (some (in_partition i)) =
    convert_at (wrap_in_btrfs pt.type architecture) pt.partitions i >>= λ parts.
    ok (record pt { partitions = parts })
convert_to_btrfs pt architecture (some _) = err unsupported_parent_btrfs

unfoldable pub root_to_btrfs : PartitionTable → Arch → Result Error PartitionTable
unfolding convert_to_btrfs parent_at
root_to_btrfs pt architecture = elim (entity_path pt "/") [
  | none ↦ panic
  | some path ↦ convert_to_btrfs pt architecture (parent_at pt path)
]

-- `bootPath == nil && pt.Policy.EnsureXBOOTLDR`: without the policy no "/boot" is created.
unfoldable pub ensure_boot_for_btrfs :
    PartitionTable → String → Option EntityPath → Result Error PartitionTable
unfolding ensures_xbootldr
ensure_boot_for_btrfs pt default_fs (some boot) = ok pt
ensure_boot_for_btrfs pt default_fs none = ensures_xbootldr pt.policy >>= λ ensures.
    if ensures
    then wrap creating_boot (create_mountpoint pt "/boot" default_fs default_boot_partition_size)
    else ok pt

unfoldable pub ensure_btrfs : PartitionTable → String → Arch → Result Error PartitionTable
unfolding root_to_btrfs ensure_boot_for_btrfs
ensure_btrfs pt default_fs architecture = elim (entity_path pt "/") [
  | none ↦ err no_root_mountpoint
  | some root ↦ ensure_boot_for_btrfs pt default_fs (entity_path pt "/boot") >>= λ pt'.
      root_to_btrfs pt' architecture
]
