-- ===== src/Disk/Tests/Operations.antt =====
-- The theorems on the operations of pkg/disk at the tables of the tests.
use image_builder.Prelude.{
  ℕ, ◌≤◌, String, ◌≡◌, refl, true, false, not, ◌&&◌, ◌||◌, none, some, List, [], ◌∷◌, arith, length,
}
use image_builder.Prelude.Result.{ok, IfOk}
use image_builder.Text.{contains}
use image_builder.Disk.Entities.{BtrfsSubvolume, btrfs, pt_dos, PartitionTable}
use image_builder.Disk.Paths.{entity_path}
use image_builder.Disk.Types.{
  arch_x86_64, partition_type_id, arch_name, go_arch, arch_from_string, fs_xfs,
}
use image_builder.Disk.Types.RoundTrips.{arch_from_string-arch_name}
use image_builder.Disk.Names.{gen_unique_string}
use image_builder.Disk.Names.Fresh.{IsUnique, gen_unique_string-IsUnique}
use image_builder.Disk.Clone.{clone_table}
use image_builder.Disk.Clone.Copies.{is_set, writable_table, clone_table-eq}
use image_builder.Disk.Features.{get_build_packages}
use image_builder.Disk.Features.Flags.{
  has_payload_in, is_volume_group, is_btrfs, is_filesystem, is_luks,
}
use image_builder.Disk.Features.Packages.{contains-get_build_packages}
use image_builder.Disk.Customize.{FilesystemCustomization, create_filesystem, apply_customization}
use image_builder.Disk.Customize.Mountpoints.{AddsTable, create_filesystem-adds}
use image_builder.Disk.Customize.Applied.{
  AddsAll, missing, apply_customization-creates, apply_customization-collects,
}
use image_builder.Disk.Modes.{parent_at, in_volume, in_btrfs, ensure_lvm, ensure_btrfs}
use image_builder.Disk.Modes.Ensured.{
  IsEnsured, adds_boot, ensure_lvm-IsEnsured, ensure_btrfs-IsEnsured,
}
use image_builder.Disk.Modes.Returned.{IsPlain, Returns, ensure_lvm-Returns, ensure_btrfs-Returns}
use image_builder.Disk.Identify.{Random, generate_uuids}
use image_builder.Disk.Identify.Kept.{HasUuids, share_in_partitions, generate_uuids-set}
use image_builder.Disk.Identify.Identified.{IsIdentifiedTable, generate_uuids-IsIdentifiedTable}
use image_builder.Disk.Custom.{
  boot_legacy, PartitionCustomization, DiskCustomization, CustomPartitionTableOptions,
}
use image_builder.Disk.Custom.Boot.{needs_boot}
use image_builder.Disk.Custom.Boot.Needed.{
  any, is_plain_at, has_root_and_boot, is_volume, needs_boot-eq,
}
use image_builder.Disk.Tables.Customized.{Validators, new_custom_partition_table}
use image_builder.Disk.Tables.Customized.Limit.{new_custom_partition_table-limit}
use image_builder.Disk.Tests.{plain_table, lvm_table, table_of, partition_of}

arch_from_string-arch_name_example :
    (arch_from_string (arch_name arch_x86_64) ≡ ok arch_x86_64)
    × (s : String) × (go_arch arch_x86_64 ≡ ok s)
    × (arch_from_string s ≡ ok arch_x86_64)
arch_from_string-arch_name_example = arch_from_string-arch_name arch_x86_64 (λ h. cc)

gen_unique_string-IsUnique_example :
    IsUnique "root" ("root" ∷ "root00" ∷ []) (gen_unique_string "root" ("root" ∷ "root00" ∷ []))
gen_unique_string-IsUnique_example = gen_unique_string-IsUnique "root" ("root" ∷ "root00" ∷ [])

abbrev read_only_subvolume : BtrfsSubvolume
read_only_subvolume = record {
  name = "root";
  size = 5;
  mountpoint = "/";
  group_id = 0;
  compress = "";
  read_only = true;
  uuid = "";
}

-- "/" on a read-only subvolume.
abbrev btrfs_table : PartitionTable
btrfs_table = table_of (
    partition_of 5 (
      btrfs
        (record { uuid = ""; label = ""; mountpoint = ""; subvolumes = read_only_subvolume ∷ [] }))
    ∷ [])

clone_table-eq_example : clone_table btrfs_table ≡ ok (writable_table btrfs_table)
clone_table-eq_example = clone_table-eq btrfs_table (unfold is_set in refl)

contains-get_build_packages_example :
    (contains (get_build_packages lvm_table) "lvm2"
      ≡ has_payload_in is_volume_group lvm_table.partitions)
    × (contains (get_build_packages lvm_table) "btrfs-progs"
        ≡ has_payload_in is_btrfs lvm_table.partitions)
    × (contains (get_build_packages lvm_table) "xfsprogs"
        ≡ has_payload_in (is_filesystem "xfs") lvm_table.partitions)
    × (contains (get_build_packages lvm_table) "dosfstools"
        ≡ has_payload_in (is_filesystem "vfat") lvm_table.partitions)
    × (contains (get_build_packages lvm_table) "e2fsprogs"
        ≡ has_payload_in (is_filesystem "ext4") lvm_table.partitions)
    × (contains (get_build_packages lvm_table) "cryptsetup"
        ≡ has_payload_in is_luks lvm_table.partitions)
    × (contains (get_build_packages lvm_table) "clevis"
        ≡ has_payload_in is_luks lvm_table.partitions)
    × (contains (get_build_packages lvm_table) "clevis-luks"
        ≡ has_payload_in is_luks lvm_table.partitions)
contains-get_build_packages_example = contains-get_build_packages lvm_table

create_filesystem-adds_example :
    IfOk (AddsTable "/var" lvm_table) (create_filesystem lvm_table "/var" "xfs" 1000000)
create_filesystem-adds_example = create_filesystem-adds lvm_table "/var" "xfs" 1000000

abbrev customized : List FilesystemCustomization
customized =
    record { mountpoint = "/var"; min_size = 2000000000 }
    ∷ record { mountpoint = "/"; min_size = 3000000000 }
    ∷ []

apply_customization-creates_example :
    IfOk
      (λ new. AddsAll lvm_table customized new.0 × (new.1 ≡ []))
      (apply_customization lvm_table customized "xfs" true)
apply_customization-creates_example = apply_customization-creates lvm_table customized "xfs"

apply_customization-collects_example :
    (pt' : PartitionTable) × (apply_customization lvm_table customized "xfs" false
      ≡ ok (pt', missing lvm_table customized))
    × ((target : String) → entity_path pt' target ≡ entity_path lvm_table target)
apply_customization-collects_example = apply_customization-collects lvm_table customized "xfs"

ensure_lvm-IsEnsured_example :
    IfOk (IsEnsured in_volume true plain_table) (ensure_lvm plain_table "xfs")
ensure_lvm-IsEnsured_example = ensure_lvm-IsEnsured plain_table "xfs"

ensure_btrfs-IsEnsured_example :
    IfOk
      (IsEnsured in_btrfs (adds_boot plain_table.policy) plain_table)
      (ensure_btrfs plain_table "btrfs" arch_x86_64)
ensure_btrfs-IsEnsured_example = ensure_btrfs-IsEnsured plain_table "btrfs" arch_x86_64

plain_table-IsPlain : IsPlain plain_table
unfolding entity_path parent_at
plain_table-IsPlain = record {
  root = 1 ∷ 0 ∷ [];
  boot = 0 ∷ 0 ∷ [];
  partition = 1;
  has_root = refl;
  has_boot = refl;
  on_partition = refl;
}

ensure_lvm-Returns_example :
    Returns (IsEnsured in_volume true plain_table) (ensure_lvm plain_table "xfs")
ensure_lvm-Returns_example = ensure_lvm-Returns plain_table "xfs" plain_table-IsPlain

abbrev linux_root_id : String
linux_root_id = "4F68BCE3-E8CD-4DB1-96E7-FBCAF984B709"

root_type_id : partition_type_id plain_table.type "root" arch_x86_64 ≡ ok linux_root_id
unfolding partition_type_id
root_type_id = refl

ensure_btrfs-Returns_example :
    Returns
      (IsEnsured in_btrfs (adds_boot plain_table.policy) plain_table)
      (ensure_btrfs plain_table "btrfs" arch_x86_64)
ensure_btrfs-Returns_example =
    ensure_btrfs-Returns plain_table "btrfs" arch_x86_64 linux_root_id plain_table-IsPlain
      root_type_id

-- A source of zeros that counts the calls.
abbrev zeros : ℕ → List ℕ
zeros ℕ.zero = []
zeros (ℕ.suc n) = 0 ∷ zeros n

abbrev counting : Random ℕ
counting = record {
  read = λ n r. (zeros n, ℕ.suc r);
  uuid_string = λ id. "00000000-0000-4000-8000-000000000000";
}

zeros-length : (n : ℕ) → length (zeros n) ≡ n
zeros-length ℕ.zero = refl
zeros-length (ℕ.suc n) = omega (arith, zeros-length n)

generate_uuids-IsIdentifiedTable_example : IsIdentifiedTable (generate_uuids counting lvm_table 0).0
generate_uuids-IsIdentifiedTable_example =
    generate_uuids-IsIdentifiedTable counting (λ n r. zeros-length n) (λ id. refl) lvm_table 0

identified : (pt : PartitionTable) → IsIdentifiedTable (generate_uuids counting pt 0).0
identified pt = generate_uuids-IsIdentifiedTable counting (λ n r. zeros-length n) (λ id. refl) pt 0

-- A Btrfs volume whose subvolume has a UUID of its own.
abbrev identified_table : PartitionTable
identified_table =
    record (table_of (
      record (partition_of 5 (
        btrfs (record {
          uuid = "v";
          label = "";
          mountpoint = "";
          subvolumes = record read_only_subvolume { uuid = "s" } ∷ [];
        }))) { uuid = "p" }
      ∷ [])) { uuid = "t" }

generate_uuids-set_example :
    generate_uuids counting identified_table 7
    ≡ (record identified_table { partitions = share_in_partitions identified_table.partitions }, 7)
unfolding HasUuids
generate_uuids-set_example =
    generate_uuids-set counting identified_table 7 (refl, (refl, tt), (refl, tt))

abbrev lvm_customization : PartitionCustomization
lvm_customization = record {
  type = "lvm";
  part_type = "";
  part_uuid = "";
  part_label = "";
  min_size = 1000000000;
  mountpoint = "";
  label = "";
  fs_type = "";
  name = "";
  logical_volumes =
      record { name = ""; min_size = 1000000000; mountpoint = "/"; label = ""; fs_type = "xfs" }
      ∷ [];
  subvolumes = [];
}

needs_boot-eq_example : needs_boot (lvm_customization ∷ []) ≡ (
    not (
      any (is_plain_at "/") (lvm_customization ∷ [])
      || (any (is_plain_at "/boot") (lvm_customization ∷ [])
          || any has_root_and_boot (lvm_customization ∷ [])))
    && any is_volume (lvm_customization ∷ []))
needs_boot-eq_example = needs_boot-eq (lvm_customization ∷ [])

abbrev accept_all : Validators
accept_all = record {
  validate = λ d. true;
  validate_partition_type_id = λ p t. true;
  validate_partition_id = λ p t. true;
  validate_partition_label = λ p t. true;
}

abbrev dos_customizations : DiskCustomization
dos_customizations = record {
  type = "dos";
  min_size = 0;
  partitions = lvm_customization ∷ [];
  start_offset = 0;
  sector_size = 0;
}

abbrev x86_64_options : CustomPartitionTableOptions
x86_64_options = record {
  partition_table_type = pt_dos;
  boot_mode = boot_legacy;
  default_fs_type = fs_xfs;
  architecture = arch_x86_64;
  esp_size = 0;
  required_min_sizes = [];
}

new_custom_partition_table-limit_example :
    IfOk
      (λ new. new.0.type ≡ pt_dos → length new.0.partitions ≤ 4)
      (new_custom_partition_table counting
        (λ l. l)
        accept_all
        (some dos_customizations)
        (some x86_64_options)
        none
        0)
new_custom_partition_table-limit_example =
    new_custom_partition_table-limit counting (λ l. l) accept_all (some dos_customizations)
      (some x86_64_options) none 0
