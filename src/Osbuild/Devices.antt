-- ===== src/Osbuild/Devices.antt =====
-- pkg/osbuild/device.go: the devices that lead to an entity, with the option types of
-- loopback_device.go, luks2_device.go and lvm2_lv_device.go.
pub mod Closed
use image_builder.Prelude.{
  ℕ, String, Bool, true, false, ◌&&◌, ◌||◌, Option, none, some, List, [], ◌∷◌, ◌==◌, str_eq,
  if◌then◌else◌,
}
use image_builder.Prelude.Result.{Result, ok, panic, ◌>>=◌}
use image_builder.Text.{concat, trim_left_slash, trim_right_slash, replace_all, slice_to}
use image_builder.Dictionary.{insert}
use image_builder.Disk.Entities.{
  Payload, no_payload, filesystem, swap, raw, btrfs, volume_group, luks, PartitionTable,
}
use image_builder.Disk.Align.{bytes_to_sectors}
use image_builder.Disk.Walks.{
  Entity, of_table, of_partition, of_payload, of_volume, of_btrfs_subvolume,
}

pub record LoopbackDeviceOptions : Type 0 where
  pub filename : String
  pub start : ℕ
  pub size : ℕ
  pub sector_size : Option ℕ
  pub lock : Bool

-- `Device` by its type, with the parent and the options that this type has. `unset` is the zero
-- value, which a map returns for a missing key.
pub data Device : Type 0 where
  unset : Device
  loopback : LoopbackDeviceOptions → Device
  luks2 : (parent passphrase : String) → Device
  lvm2_lv : (parent volume : String) → Device

-- `Device.Parent`
unfoldable pub parent_of : Device → String
parent_of unset = ""
parent_of (loopback options) = ""
parent_of (luks2 parent passphrase) = parent
parent_of (lvm2_lv parent volume) = parent

-- `pathEscape`
unfoldable pub path_escape : String → String
unfolding trim_left_slash trim_right_slash replace_all
path_escape path =
    if str_eq path "" || str_eq path "/"
    then "-"
    else replace_all b'/' "-" (
        replace_all b'-' "\\x2d"
          (replace_all b'\\' "\\x5c" (trim_right_slash (trim_left_slash path))))

module _ {ℓ} {E : Type ℓ} where
  -- A prefix and the first four characters of a UUID. A shorter one makes the slice panic.
  unfoldable pub with_uuid : String → String → Result E String
  unfolding slice_to
  with_uuid before uuid = elim (slice_to 4 uuid) [
    | none ↦ panic
    | some short ↦ ok (concat before short)
  ]

  -- `deviceName`, of the payloads that it is called with
  unfoldable pub device_name : Payload → Result E String
  unfolding path_escape with_uuid
  device_name no_payload = panic
  device_name (filesystem fs) = ok (path_escape fs.mountpoint)
  device_name (luks header p) = with_uuid "luks-" header.uuid
  device_name (volume_group name d lvs) = ok name
  device_name (btrfs b) = with_uuid "btrfs-" b.uuid
  device_name (swap s) = with_uuid "swap-" s.uuid
  device_name (raw r) = ok (concat "raw-" (path_escape r.source_path))

abbrev pub Devices : Type 0
Devices = List (String × Device)

unfoldable pub sector_size_option : PartitionTable → Option ℕ
sector_size_option pt = if pt.sector_size == 0 then none else some pt.sector_size

module _ {ℓ} {E : Type ℓ} (filename : String) (lock : Bool) where
  -- The loop of `getDevices`, with its variables `pt`, `do` and `parent`.
  unfoldable pub devices_from :
      Option PartitionTable → Devices → String → List Entity → Result E (Devices × String)
  unfolding device_name insert sector_size_option bytes_to_sectors
  devices_from pt devices parent [] = ok (devices, parent)
  devices_from pt devices parent (of_table table ∷ path) =
      devices_from (some table) devices parent path
  devices_from none devices parent (of_partition part ∷ path) = panic
  devices_from (some pt) devices parent (of_partition part ∷ path) =
      device_name part.payload >>= λ name.
      devices_from (some pt)
        (insert name
          (loopback (record {
            filename = filename;
            start = bytes_to_sectors pt part.start;
            size = bytes_to_sectors pt part.size;
            sector_size = sector_size_option pt;
            lock = lock;
          }))
          devices)
        name path
  devices_from pt devices parent (of_payload (luks header p) ∷ path) = device_name p >>= λ name.
      devices_from pt (insert name (luks2 parent header.passphrase) devices) name path
  devices_from pt devices parent (of_volume volume size p ∷ path) = device_name p >>= λ name.
      devices_from pt (insert name (lvm2_lv parent volume) devices) name path
  devices_from pt devices parent (of_payload _ ∷ path) = devices_from pt devices parent path
  devices_from pt devices parent (of_btrfs_subvolume sv ∷ path) =
      devices_from pt devices parent path

  -- `getDevices`: the devices of the path, and the name of the last one.
  unfoldable pub get_devices : List Entity → Result E (Devices × String)
  unfolding devices_from
  get_devices path = devices_from none [] "" path
