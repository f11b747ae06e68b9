-- ===== src/Osbuild/Generate.antt =====
-- The stages that write a partition table: `GenDeviceCreationStages` and `GenDeviceFinishStages` of
-- pkg/osbuild/device.go, and `GenFsStages` of mkfs_stage.go.
pub mod Decided
pub mod Created
use image_builder.Prelude.{
  String, true, false, none, some, List, [], ◌∷◌, ◌++◌, map, ◌==◌, str_eq, if◌then◌else◌, drop_last,
}
use image_builder.Prelude.Result.{Result, ok, panic, ◌>>=◌}
use image_builder.Text.{concat, trim_left_slash, replace_all}
use image_builder.Text.Decimal.{format}
use image_builder.Text.Filepath.{join_paths}
use image_builder.Dictionary.{lookup, insert, delete}
use image_builder.Disk.Entities.{
  MkfsOptions, Filesystem, BtrfsSubvolume, LuksHeader, filesystem, swap, raw, btrfs, volume_group,
  luks, LogicalVolumes, no_volumes, volume, PartitionTable,
}
use image_builder.Disk.Paths.{is_some}
use image_builder.Disk.Walks.{Entity, of_payload, Visit, for_each_entity}
use image_builder.Osbuild.Devices.{unset, Devices, get_devices}
use image_builder.Osbuild.Stages.{
  StageVolume, clevis_luks_bind, luks2_remove_key, mkfs_xfs, mkfs_fat, mkfs_ext4, mkfs_btrfs,
  btrfs_subvol, mkswap, write_device, Stage, stage_on, new_luks2_create_stage,
  new_lvm2_create_stage, new_lvm2_metadata_stage,
}

-- The last device of a path is named "device", as in `getDevicesForFsStage`.
unfoldable pub rename_last : Devices × String → Devices
unfolding lookup insert delete
rename_last (devices, last) =
    insert "device" (elim (lookup last devices) [ none ↦ unset | some device ↦ device ])
      (delete last devices)

unfoldable pub stage_volumes : LogicalVolumes → List StageVolume
unfolding format
stage_volumes no_volumes = []
stage_volumes (volume name size p lvs) =
    record { name = name; size = concat (format size) "B" } ∷ stage_volumes lvs

unfoldable pub clevis_stages : LuksHeader → Devices → List Stage
clevis_stages header devices = elim header.clevis [
  | none ↦ []
  | some clevis ↦
      stage_on (clevis_luks_bind header.passphrase clevis.pin clevis.policy) devices ∷ []
]

unfoldable pub subvolume_name : BtrfsSubvolume → String
unfolding trim_left_slash
subvolume_name sv = concat "/" (trim_left_slash sv.name)

module _ {ℓ} {E : Type ℓ} where
  -- The devices of a path, the last one named "device".
  unfoldable pub stage_devices : String → List Entity → Result E Devices
  unfolding get_devices rename_last
  stage_devices filename path = get_devices filename true path >>= λ found. ok (rename_last found)

  -- The stages that a callback of `ForEachEntity` appends, one entity after the other.
  unfoldable pub gather :
      (Visit Entity → Result E (List Stage)) → List (Visit Entity) → Result E (List Stage)
  gather gen [] = ok []
  gather gen (visit ∷ visits) =
      gen visit >>= λ stages. gather gen visits >>= λ others. ok (stages ++ others)

  -- `genStages` of `GenDeviceCreationStages`
  unfoldable pub creation_stages : String → Visit Entity → Result E (List Stage)
  unfolding stage_devices new_luks2_create_stage new_lvm2_create_stage stage_volumes clevis_stages
  creation_stages filename (of_payload (luks header p), path) =
      stage_devices filename (drop_last path) >>= λ devices.
      new_luks2_create_stage
        (record {
          passphrase = header.passphrase;
          uuid = header.uuid;
          cipher = header.cipher;
          label = header.label;
          subsystem = header.subsystem;
          sector_size = header.sector_size;
          pbkdf_method = "argon2id";
          pbkdf = header.pbkdf;
        })
        devices
      >>= λ stage. ok (stage ∷ clevis_stages header devices)
  creation_stages filename (of_payload (volume_group name d lvs), path) =
      stage_devices filename (drop_last path) >>= λ devices.
      new_lvm2_create_stage (stage_volumes lvs) devices >>= λ stage. ok (stage ∷ [])
  creation_stages filename visit = ok []

  unfoldable pub gen_device_creation_stages : PartitionTable → String → Result E (List Stage)
  unfolding gather creation_stages for_each_entity
  gen_device_creation_stages pt filename = gather (creation_stages filename) (for_each_entity pt)

  -- `genStages` of `GenDeviceFinishStages`: the stages for `stages`, and those for `removeKeyStages`.
  unfoldable pub metadata_stages : String → Visit Entity → Result E (List Stage)
  unfolding stage_devices new_lvm2_metadata_stage
  metadata_stages filename (of_payload (volume_group name d lvs), path) =
      stage_devices filename (drop_last path) >>= λ devices.
      new_lvm2_metadata_stage name devices >>= λ stage. ok (stage ∷ [])
  metadata_stages filename visit = ok []

  unfoldable pub remove_key_stages : String → Visit Entity → Result E (List Stage)
  unfolding stage_devices
  remove_key_stages filename (of_payload (luks header p), path) =
      stage_devices filename (drop_last path) >>= λ devices. elim header.clevis [
        | none ↦ ok []
        | some clevis ↦
            if clevis.remove_passphrase
            then ok (stage_on (luks2_remove_key header.passphrase) devices ∷ [])
            else ok []
      ]
  remove_key_stages filename visit = ok []

  -- `GenDeviceFinishStages`. Its one walk fills both lists; here there is a walk for each, which gives
  -- the same lists and panics for the same tables.
  unfoldable pub gen_device_finish_stages : PartitionTable → String → Result E (List Stage)
  unfolding gather metadata_stages remove_key_stages for_each_entity
  gen_device_finish_stages pt filename =
      gather (metadata_stages filename) (for_each_entity pt) >>= λ stages.
      gather (remove_key_stages filename) (for_each_entity pt) >>= λ keys. ok (stages ++ keys)

  -- Options that no stage has handled make `GenFsStages` panic.
  unfoldable pub handled : MkfsOptions → Stage → Result E Stage
  handled o stage =
      if is_some o.geometry
      then panic
      else if o.verity
      then panic
      else if o.agcount == 0
      then ok stage
      else panic

  -- The stage for a filesystem, by its type. A stage takes the options that it handles.
  unfoldable pub mkfs_stage : Filesystem → Devices → Result E Stage
  unfolding handled replace_all
  mkfs_stage fs devices =
      let o = fs.mkfs_options in
      if str_eq fs.type "xfs"
      then handled (record o { agcount = 0 })
          (stage_on (mkfs_xfs fs.uuid fs.label o.agcount) devices)
      else if str_eq fs.type "vfat"
      then handled (record o { geometry = none })
          (stage_on (mkfs_fat (replace_all b'-' "" fs.uuid) fs.label o.geometry) devices)
      else if str_eq fs.type "ext4"
      then handled (record o { verity = false })
          (stage_on (mkfs_ext4 fs.uuid fs.label o.verity) devices)
      else panic

  -- `genStage` of `GenFsStages`
  unfoldable pub fs_stages : (filename pipeline : String) → Visit Entity → Result E (List Stage)
  unfolding stage_devices mkfs_stage subvolume_name join_paths
  fs_stages filename pipeline (of_payload (filesystem fs), path) =
      stage_devices filename path >>= λ devices. mkfs_stage fs devices >>= λ stage. ok (stage ∷ [])
  fs_stages filename pipeline (of_payload (btrfs b), path) =
      stage_devices filename path >>= λ devices. ok (
        stage_on (mkfs_btrfs b.uuid b.label) devices
        ∷ record {
          options = btrfs_subvol (map subvolume_name b.subvolumes);
          devices = devices;
          mounts =
              record {
                name = "volume";
                type = "org.osbuild.btrfs";
                source = "device";
                target = "/";
                options = some (record { subvol = ""; compress = "" });
              }
              ∷ [];
        }
        ∷ [])
  fs_stages filename pipeline (of_payload (swap s), path) =
      stage_devices filename path >>= λ devices. ok (stage_on (mkswap s.uuid s.label) devices ∷ [])
  fs_stages filename pipeline (of_payload (raw r), path) =
      stage_devices filename path >>= λ devices. ok (
        stage_on
          (write_device (concat "input://" (join_paths "tree" r.source_path))
            (concat "name:" pipeline))
          devices
        ∷ [])
  fs_stages filename pipeline visit = ok []

  unfoldable pub gen_fs_stages :
      PartitionTable → (filename pipeline : String) → Result E (List Stage)
  unfolding gather fs_stages for_each_entity
  gen_fs_stages pt filename pipeline = gather (fs_stages filename pipeline) (for_each_entity pt)
