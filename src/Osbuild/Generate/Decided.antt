-- ===== src/Osbuild/Generate/Decided.antt =====
-- Which tables `GenDeviceCreationStages` returns stages for: a description of when its callback panics.
use image_builder.Prelude.{
  String, ◌≡◌, refl, Bool, true, false, ◌&&◌, Option, none, some, List, [], ◌∷◌, ltb, length,
  drop_last,
}
use image_builder.Prelude.Result.{Result, ok, panic, ◌>>=◌}
use image_builder.Text.{slice_to, concat}
use image_builder.Disk.Entities.{
  LuksHeader, Payload, no_payload, filesystem, swap, raw, btrfs, volume_group, luks, PartitionTable,
}
use image_builder.Disk.Paths.{is_some}
use image_builder.Disk.Walks.{
  Entity, of_table, of_partition, of_payload, of_volume, of_btrfs_subvolume, Visit,
}
use image_builder.Osbuild.Devices.{Devices, with_uuid, device_name, devices_from, get_devices}
use image_builder.Osbuild.Stages.{
  Luks2CreateStageOptions, Stage, is_pbkdf, are_volume_names, checked, new_luks2_create_stage,
  new_lvm2_create_stage,
}
use image_builder.Osbuild.Generate.{stage_devices, stage_volumes, gather, creation_stages}

-- The UUID has the four characters that the name of a device takes of it.
unfoldable is_long : String → Bool
is_long uuid = is_some (slice_to 4 uuid)

-- A device that holds the payload has a name.
unfoldable has_name : Payload → Bool
unfolding is_long
has_name no_payload = false
has_name (luks header p) = is_long header.uuid
has_name (btrfs b) = is_long b.uuid
has_name (swap s) = is_long s.uuid
has_name _ = true

-- The devices of a path have names, and the partitions stand below a table.
unfoldable opens : Bool → List Entity → Bool
unfolding has_name
opens below [] = true
opens below (of_table pt ∷ path) = opens true path
opens below (of_partition part ∷ path) = below && (has_name part.payload && opens below path)
opens below (of_payload (luks header p) ∷ path) = has_name p && opens below path
opens below (of_volume name size p ∷ path) = has_name p && opens below path
opens below (of_payload _ ∷ path) = opens below path
opens below (of_btrfs_subvolume sv ∷ path) = opens below path

abbrev luks_options : LuksHeader → Luks2CreateStageOptions
luks_options header = record {
  passphrase = header.passphrase;
  uuid = header.uuid;
  cipher = header.cipher;
  label = header.label;
  subsystem = header.subsystem;
  sector_size = header.sector_size;
  pbkdf_method = "argon2id";
  pbkdf = header.pbkdf;
}

-- A container can be created: the devices of its path have names, and its options are valid.
unfoldable can_create : Visit Entity → Bool
unfolding opens is_pbkdf are_volume_names stage_volumes
can_create (of_payload (luks header p), path) =
    opens false (drop_last path) && is_pbkdf (luks_options header)
can_create (of_payload (volume_group name d lvs), path) =
    opens false (drop_last path)
    && (ltb 0 (length (stage_volumes lvs)) && are_volume_names (stage_volumes lvs))
can_create visit = true

unfoldable pub all_created : List (Visit Entity) → Bool
unfolding can_create
all_created [] = true
all_created (visit ∷ visits) = can_create visit && all_created visits

module _ (E : Type 0) where
  -- The test tells whether the function returns or panics.
  abbrev pub Decides {ℓ} : {A : Type ℓ} → Bool → Result E A → Type ℓ
  Decides {A = A} true m = (a : A) × (m ≡ ok a)
  Decides false m = m ≡ panic

  Decides-bind :
      {A B : Type 0} (b c : Bool) (m : Result E A) (f : A → Result E B)
      → Decides b m
      → ((a : A) → Decides c (f a))
      → Decides (b && c) (m >>= f)
  Decides-bind true c m f (a, h) k = rw h (k a)
  Decides-bind false c m f h k = rw h refl

  Decides-map :
      {A B : Type 0} (b : Bool) (m : Result E A) (f : A → B)
      → Decides b m
      → Decides b (m >>= λ a. ok (f a))
  Decides-map true m f (a, h) = (f a, rw h refl)
  Decides-map false m f h = rw h refl

  prefixed-Decides :
      (before : String) (start : Option String)
      → Decides (is_some start) (elim start as (λ o. Result E String) [
        | none ↦ panic
        | some short ↦ ok (concat before short)
      ])
  prefixed-Decides before none = refl
  prefixed-Decides before (some short) = (concat before short, refl)

  with_uuid-Decides : (before uuid : String) → Decides (is_long uuid) (with_uuid before uuid)
  unfolding is_long with_uuid
  with_uuid-Decides before uuid = prefixed-Decides before (slice_to 4 uuid)

  device_name-Decides : (p : Payload) → Decides (has_name p) (device_name p)
  unfolding has_name device_name
  device_name-Decides no_payload = refl
  device_name-Decides (filesystem fs) = (_, refl)
  device_name-Decides (luks header p) = with_uuid-Decides "luks-" header.uuid
  device_name-Decides (volume_group name d lvs) = (_, refl)
  device_name-Decides (btrfs b) = with_uuid-Decides "btrfs-" b.uuid
  device_name-Decides (swap s) = with_uuid-Decides "swap-" s.uuid
  device_name-Decides (raw r) = (_, refl)

  devices_from-Decides :
      (filename : String) (lock : Bool) (pt : Option PartitionTable) (ds : Devices)
      (parent : String) (path : List Entity)
      → Decides (opens (is_some pt) path) (devices_from filename lock pt ds parent path)
  unfolding opens devices_from
  devices_from-Decides filename lock pt ds parent [] = (_, refl)
  devices_from-Decides filename lock pt ds parent (of_table table ∷ path) =
      devices_from-Decides filename lock (some table) ds parent path
  devices_from-Decides filename lock none ds parent (of_partition part ∷ path) = refl
  devices_from-Decides filename lock (some pt) ds parent (of_partition part ∷ path) =
      Decides-bind _ _ (device_name part.payload) _ (device_name-Decides part.payload)
        (λ name. devices_from-Decides filename lock (some pt) _ name path)
  devices_from-Decides filename lock pt ds parent (of_payload (luks header p) ∷ path) =
      Decides-bind _ _ (device_name p) _ (device_name-Decides p)
        (λ name. devices_from-Decides filename lock pt _ name path)
  devices_from-Decides filename lock pt ds parent (of_volume v size p ∷ path) =
      Decides-bind _ _ (device_name p) _ (device_name-Decides p)
        (λ name. devices_from-Decides filename lock pt _ name path)
  devices_from-Decides filename lock pt ds parent (of_payload p ∷ path) =
      devices_from-Decides filename lock pt ds parent path
  devices_from-Decides filename lock pt ds parent (of_btrfs_subvolume sv ∷ path) =
      devices_from-Decides filename lock pt ds parent path

  stage_devices-Decides :
      (filename : String) (path : List Entity)
      → Decides (opens false path) (stage_devices filename path)
  unfolding stage_devices get_devices
  stage_devices-Decides filename path =
      Decides-map _ (get_devices filename true path) _
        (devices_from-Decides filename true none [] "" path)

  checked-Decides : (b : Bool) (stage : Stage) → Decides b (checked b stage)
  checked-Decides true stage = (stage, refl)
  checked-Decides false stage = refl

  creation_stages-Decides :
      (filename : String) (visit : Visit Entity)
      → Decides (can_create visit) (creation_stages filename visit)
  unfolding can_create creation_stages new_luks2_create_stage new_lvm2_create_stage
  creation_stages-Decides filename (of_payload (luks header p), path) =
      Decides-bind _ _ (stage_devices filename (drop_last path)) _
        (stage_devices-Decides filename (drop_last path))
        (λ devices.
          Decides-map _ (checked (is_pbkdf (luks_options header)) _) _
            (checked-Decides (is_pbkdf (luks_options header)) _))
  creation_stages-Decides filename (of_payload (volume_group name d lvs), path) =
      Decides-bind _ _ (stage_devices filename (drop_last path)) _
        (stage_devices-Decides filename (drop_last path))
        (λ devices. Decides-map _ (checked _ _) _ (checked-Decides _ _))
  creation_stages-Decides filename (of_payload _, path) = (_, refl)
  creation_stages-Decides filename (of_table pt, path) = (_, refl)
  creation_stages-Decides filename (of_partition part, path) = (_, refl)
  creation_stages-Decides filename (of_volume name size p, path) = (_, refl)
  creation_stages-Decides filename (of_btrfs_subvolume sv, path) = (_, refl)

  pub gather-Decides :
      (filename : String) (visits : List (Visit Entity))
      → Decides (all_created visits) (gather (creation_stages filename) visits)
  unfolding gather all_created
  gather-Decides filename [] = (_, refl)
  gather-Decides filename (visit ∷ visits) =
      Decides-bind _ _ (creation_stages filename visit) _ (creation_stages-Decides filename visit)
        (λ stages.
          Decides-map _ (gather (creation_stages filename) visits) _
            (gather-Decides filename visits))
