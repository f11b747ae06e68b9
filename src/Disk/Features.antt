-- ===== src/Disk/Features.antt =====
-- `features` and `GetBuildPackages` of partition_table.go.
pub mod Flags
pub mod Packages
use image_builder.Prelude.{String, Bool, true, false, List, [], ◌∷◌, ◌++◌, str_eq, if◌then◌else◌}
use image_builder.Disk.Entities.{
  Filesystem, Payload, no_payload, filesystem, swap, raw, btrfs, volume_group, luks, LogicalVolumes,
  no_volumes, volume, Partition, PartitionTable,
}

-- `partitionTableFeatures`
pub record PartitionTableFeatures : Type 0 where
  pub lvm : Bool
  pub btrfs : Bool
  pub xfs : Bool
  pub fat : Bool
  pub ext4 : Bool
  pub luks : Bool
  pub swap : Bool
  pub raw : Bool

abbrev pub no_features : PartitionTableFeatures
no_features = record {
  lvm = false;
  btrfs = false;
  xfs = false;
  fat = false;
  ext4 = false;
  luks = false;
  swap = false;
  raw = false;
}

-- The flag of a filesystem type.
unfoldable pub visit_fs_type : String → PartitionTableFeatures → PartitionTableFeatures
visit_fs_type type features =
    if str_eq type "vfat"
    then record features { fat = true }
    else if str_eq type "btrfs"
    then record features { btrfs = true }
    else if str_eq type "xfs"
    then record features { xfs = true }
    else if str_eq type "ext4"
    then record features { ext4 = true }
    else features

-- `introspectPT` on a payload and on the entities below it, in the order of `ForEachEntity`.
-- A logical volume and a subvolume set the flag that their container has set.
unfoldable mutual
  unfolding visit_fs_type

  pub visit_payload : Payload → PartitionTableFeatures → PartitionTableFeatures
  visit_payload no_payload features = features
  visit_payload (filesystem fs) features = visit_fs_type fs.type features
  visit_payload (swap s) features = record features { swap = true }
  visit_payload (raw r) features = record features { raw = true }
  visit_payload (btrfs b) features = record features { btrfs = true }
  visit_payload (volume_group n d lvs) features = visit_volumes lvs (record features { lvm = true })
  visit_payload (luks header p) features = visit_payload p (record features { luks = true })

  pub visit_volumes : LogicalVolumes → PartitionTableFeatures → PartitionTableFeatures
  visit_volumes no_volumes features = features
  visit_volumes (volume n s p lvs) features =
      visit_volumes lvs (visit_payload p (record features { lvm = true }))

unfoldable pub visit_partitions : List Partition → PartitionTableFeatures → PartitionTableFeatures
unfolding visit_payload
visit_partitions [] features = features
visit_partitions (part ∷ parts) features =
    visit_partitions parts (visit_payload part.payload features)

unfoldable pub features : PartitionTable → PartitionTableFeatures
unfolding visit_partitions
features pt = visit_partitions pt.partitions no_features

unfoldable pub packages_for : PartitionTableFeatures → List String
packages_for f =
    (if f.lvm then "lvm2" ∷ [] else [])
    ++ ((if f.btrfs then "btrfs-progs" ∷ [] else [])
        ++ ((if f.xfs then "xfsprogs" ∷ [] else [])
            ++ ((if f.fat then "dosfstools" ∷ [] else [])
                ++ ((if f.ext4 then "e2fsprogs" ∷ [] else [])
                    ++ (if f.luks then "clevis" ∷ "clevis-luks" ∷ "cryptsetup" ∷ [] else [])))))

unfoldable pub get_build_packages : PartitionTable → List String
unfolding features packages_for
get_build_packages pt = packages_for (features pt)
