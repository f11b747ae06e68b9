-- ===== src/Osbuild/Tests.antt =====
-- Runs of the model of pkg/osbuild, and the theorems at the tables of Disk/Tests.
mod Ranges
use image_builder.Prelude.{
  ℕ, String, ◌≡◌, ◌≢◌, refl, ap, ◌∙◌, Bool, true, false, Option, none, some, List, [], ◌∷◌, ◌++◌,
  str_eq, eq_iff, arith, All, map, Bool-cases, inl, inr, ◌⊎◌, if◌then◌else◌,
}
use mathlib.Core.List.Perm
use mathlib.Core.List.{Perm}
use image_builder.Prelude.Result.{ok, err, panic, IfOk}
use image_builder.Dictionary.{lookup}
use image_builder.Sorting.{IsOrdered}
use image_builder.Disk.Align.{gib}
use image_builder.Disk.Create.{new_filesystem}
use image_builder.Disk.Entities.{Payload, filesystem, volume_group, Partition, PartitionTable}
use image_builder.Osbuild.Generate.{gen_device_creation_stages}
use image_builder.Osbuild.Generate.Decided.{all_created}
use image_builder.Osbuild.Stages.{Stage}
use image_builder.Osbuild.Generate.Created.{IsPrepared, gen_device_creation_stages-IsPrepared}
use image_builder.Disk.Paths.{contains_mountpoint, find_mountable}
use image_builder.Disk.Walks.{
  Entity, of_table, of_partition, of_payload, of_volume, Visit, for_each_entity,
  for_each_mountable_path, for_each_fstab_entity,
}
use image_builder.Disk.Tests.{boot_partition, partition_of, root_volumes, lvm_table}
use image_builder.Osbuild.Devices.{
  LoopbackDeviceOptions, Device, loopback, lvm2_lv, Devices, path_escape, get_devices,
}
use image_builder.Osbuild.Mounts.{
  MountError, no_root_mount, Mount, plain_mount, gen_osbuild_mount, Gathered,
  gen_mounts_devices_from_pt,
}
use image_builder.Osbuild.Mounts.Returned.{IsMounted, gen_mounts_devices_from_pt-IsMounted}
use image_builder.Osbuild.Mounts.Consistent.{IsPlanned, gen_mounts_devices_from_pt-ok}
use image_builder.Osbuild.Fstab.{
  FstabEntry, FstabError, subvolume_unnamed, by_key, new_fstab_stage_options,
}
use image_builder.Osbuild.Fstab.Entries.{
  all_named, comes_before, line_for, new_fstab_stage_options_lem,
}
use image_builder.Osbuild.KernelOptions.{mount_units, gen_image_kernel_options}
use image_builder.Osbuild.KernelOptions.Listed.{listed_options, gen_image_kernel_options-eq}
use image_builder.Osbuild.Tests.Ranges.{in_order, in_order-RangesOver}

escaped : path_escape "/var/log-a/" ≡ "var-log\\x2da"
unfolding path_escape
escaped = refl

gen_mounts_devices_from_pt-IsMounted_example :
    IfOk (IsMounted "disk.img" lvm_table) (gen_mounts_devices_from_pt in_order "disk.img" lvm_table)
gen_mounts_devices_from_pt-IsMounted_example =
    gen_mounts_devices_from_pt-IsMounted in_order in_order-RangesOver "disk.img" lvm_table

new_fstab_stage_options_lem_example :
    ((all_named (for_each_fstab_entity lvm_table) ≡ true)
      × (entries : List FstabEntry) × (new_fstab_stage_options lvm_table ≡ ok entries)
      × IsOrdered comes_before entries
      × Perm entries (map line_for (for_each_fstab_entity lvm_table)))
    ⊎ ((all_named (for_each_fstab_entity lvm_table) ≡ false)
        × (new_fstab_stage_options lvm_table ≡ err subvolume_unnamed))
unfolding for_each_fstab_entity
new_fstab_stage_options_lem_example =
    new_fstab_stage_options_lem lvm_table (omega arith, (omega arith, tt))

gen_image_kernel_options-eq_example :
    gen_image_kernel_options lvm_table mount_units
    ≡ listed_options lvm_table mount_units (find_mountable lvm_table "/")
gen_image_kernel_options-eq_example = gen_image_kernel_options-eq lvm_table mount_units

abbrev partition_device : ℕ → Device
partition_device size =
    loopback
      (record { filename = "disk.img"; start = 0; size = size; sector_size = none; lock = false })

abbrev root_devices : Devices
root_devices = ("rootvg", partition_device 4194304) ∷ ("-", lvm2_lv "rootvg" "rootlv") ∷ []

-- The devices of both mountables of the table.
abbrev all_devices : Devices
all_devices = ("boot", partition_device 2097152) ∷ root_devices

none-apart : {device : Device} → none ≢ some device
none-apart h = cc

root_devices-agree :
    (name : String) (device : Device)
    → lookup name root_devices ≡ some device
    → lookup name all_devices ≡ some device
unfolding lookup
root_devices-agree name device there = elim (Bool-cases (str_eq "boot" name)) [
  | inl same ↦
      absurd (none-apart (ap (λ n. lookup n root_devices) ((eq_iff "boot" name).0 same) ∙ there))
  | inr other ↦ rw other there
]

lvm_table-IsPlanned :
    All
      (IsPlanned all_devices in_order in_order-RangesOver "disk.img")
      (for_each_mountable_path lvm_table)
unfolding for_each_mountable_path get_devices gen_osbuild_mount lookup
lvm_table-IsPlanned = (
  record {
    found = (("boot", partition_device 2097152) ∷ [], "boot");
    mount = plain_mount "org.osbuild.ext4" "boot" "boot" "/boot";
    has_devices = refl;
    has_mount = refl;
    agrees = λ name device there. ground (arith, there);
  },
  (
    record {
      found = (root_devices, "-");
      mount = plain_mount "org.osbuild.xfs" "-" "-" "/";
      has_devices = refl;
      has_mount = refl;
      agrees = root_devices-agree;
    },
    tt,
  ),
)

gen_mounts_devices_from_pt-ok_example :
    ((contains_mountpoint lvm_table "/" ≡ true)
      × (st : Gathered) × (gen_mounts_devices_from_pt in_order "disk.img" lvm_table ≡ ok st)
      × IsMounted "disk.img" lvm_table st)
    ⊎ ((contains_mountpoint lvm_table "/" ≡ false)
        × (gen_mounts_devices_from_pt in_order "disk.img" lvm_table ≡ err no_root_mount))
gen_mounts_devices_from_pt-ok_example =
    gen_mounts_devices_from_pt-ok all_devices in_order in_order-RangesOver "disk.img" lvm_table
      lvm_table-IsPlanned

abbrev group : Payload
group = volume_group "rootvg" "" root_volumes

abbrev group_partition : Partition
group_partition = partition_of 2147483648 group

-- What is visited in front of the logical volume.
abbrev before_volume : List (Visit Entity)
before_volume =
    (of_table lvm_table, of_table lvm_table ∷ [])
    ∷ (of_partition boot_partition, of_table lvm_table ∷ of_partition boot_partition ∷ [])
    ∷ (
      of_payload boot_partition.payload,
      of_table lvm_table ∷ of_partition boot_partition ∷ of_payload boot_partition.payload ∷ [],
    )
    ∷ (of_partition group_partition, of_table lvm_table ∷ of_partition group_partition ∷ [])
    ∷ (of_payload group, of_table lvm_table ∷ of_partition group_partition ∷ of_payload group ∷ [])
    ∷ []

abbrev root_payload : Payload
root_payload = filesystem (new_filesystem "xfs" "/")

abbrev volume_path : List Entity
volume_path =
    of_table lvm_table
    ∷ of_partition group_partition
    ∷ of_payload group
    ∷ of_volume "rootlv" gib root_payload
    ∷ []

abbrev volume_visit : Visit Entity
volume_visit = (of_volume "rootlv" gib root_payload, volume_path)

abbrev after_volume : List (Visit Entity)
after_volume = (of_payload root_payload, volume_path ++ of_payload root_payload ∷ []) ∷ []

gen_device_creation_stages-IsPrepared_example :
    ((all_created (for_each_entity lvm_table) ≡ true)
      × (stages : List Stage) × (gen_device_creation_stages {E = MountError} lvm_table "disk.img"
          ≡ ok stages)
      × IsPrepared MountError "disk.img" before_volume after_volume volume_visit stages)
    ⊎ ((all_created (for_each_entity lvm_table) ≡ false)
        × (gen_device_creation_stages {E = MountError} lvm_table "disk.img" ≡ panic))
unfolding for_each_entity
gen_device_creation_stages-IsPrepared_example =
    gen_device_creation_stages-IsPrepared MountError "disk.img" lvm_table before_volume after_volume
      volume_visit refl
