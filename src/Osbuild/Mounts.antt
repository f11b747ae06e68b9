-- ===== src/Osbuild/Mounts.antt =====
-- pkg/osbuild/device.go: `genOsbuildMount` and `GenMountsDevicesFromPT`, with the mount types of
-- mount.go, xfs_mount.go, fat_mount.go, ext4_mount.go and btrfs_mount.go.
pub mod Merged
pub mod Named
pub mod Mounted
pub mod Returned
pub mod Consistent
use image_builder.Prelude.{
  ℕ, String, Bool, true, false, not, ◌&&◌, Option, none, some, List, [], ◌∷◌, ◌++◌, ◌==◌, str_eq,
  if◌then◌else◌,
}
use image_builder.Prelude.Result.{Result, ok, err, panic, ◌>>=◌}
use image_builder.Dictionary.{lookup, insert}
use image_builder.Sorting.{less, sort_by}
use image_builder.Disk.Entities.{PartitionTable}
use image_builder.Disk.Paths.{Mountable, of_filesystem, of_subvolume, get_mountpoint}
use image_builder.Disk.Walks.{Entity, Visit, for_each_mountable_path}
use image_builder.Osbuild.Devices.{
  LoopbackDeviceOptions, Device, unset, loopback, luks2, lvm2_lv, Devices, path_escape, get_devices,
}

-- The errors of the two functions, without the arguments that the messages format.
pub data MountError : Type 0 where
  bare_btrfs : MountError
  unknown_fs_type : MountError
  duplicate_device : MountError
  no_root_mount : MountError

pub record BtrfsMountOptions : Type 0 where
  pub subvol : String
  pub compress : String

pub record Mount : Type 0 where
  pub name : String
  pub type : String
  pub source : String
  pub target : String
  pub options : Option BtrfsMountOptions

abbrev pub plain_mount : (type name source target : String) → Mount
plain_mount type name source target = record {
  name = name;
  type = type;
  source = source;
  target = target;
  options = none;
}

unfoldable pub get_fs_type : Mountable → String
get_fs_type (of_filesystem fs) = fs.type
get_fs_type (of_subvolume sv) = "btrfs"

unfoldable pub btrfs_mount : String → String → Mountable → Result MountError Mount
btrfs_mount name source (of_filesystem fs) = err bare_btrfs
btrfs_mount name source (of_subvolume sv) = ok (record {
  name = name;
  type = "org.osbuild.btrfs";
  source = source;
  target = sv.mountpoint;
  options = some (record { subvol = sv.name; compress = sv.compress });
})

unfoldable pub gen_osbuild_mount : String → Mountable → Result MountError Mount
unfolding get_fs_type get_mountpoint path_escape btrfs_mount
gen_osbuild_mount source mnt =
    let mountpoint = get_mountpoint mnt in
    let name = path_escape mountpoint in
    let t = get_fs_type mnt in
    if str_eq t "xfs"
    then ok (plain_mount "org.osbuild.xfs" name source mountpoint)
    else if str_eq t "vfat"
    then ok (plain_mount "org.osbuild.fat" name source mountpoint)
    else if str_eq t "ext4"
    then ok (plain_mount "org.osbuild.ext4" name source mountpoint)
    else if str_eq t "btrfs"
    then btrfs_mount name source mnt
    else err unknown_fs_type

unfoldable pub same_option : Option ℕ → Option ℕ → Bool
same_option none none = true
same_option (some a) (some b) = a == b
same_option _ _ = false

unfoldable pub same_flag : Bool → Bool → Bool
same_flag true b = b
same_flag false true = false
same_flag false false = true

-- `reflect.DeepEqual` of two devices
unfoldable pub same_device : Device → Device → Bool
unfolding same_option same_flag
same_device unset unset = true
same_device (loopback o) (loopback o') =
    str_eq o.filename o'.filename
    && (o.start == o'.start
        && (o.size == o'.size
            && (same_option o.sector_size o'.sector_size && same_flag o.lock o'.lock)))
same_device (luks2 p s) (luks2 p' s') = str_eq p p' && str_eq s s'
same_device (lvm2_lv p v) (lvm2_lv p' v') = str_eq p p' && str_eq v v'
same_device _ _ = false

-- A device of the same name exists, and it is another one.
unfoldable pub conflicts : Option Device → Device → Bool
unfolding same_device
conflicts none device = false
conflicts (some existing) device = not (same_device existing device)

-- The loop over the devices of one mountable, given in the order in which Go ranges over them.
unfoldable pub add_devices : Devices → Devices → Result MountError Devices
unfolding lookup insert conflicts
add_devices devices [] = ok devices
add_devices devices ((name, device) ∷ entries) =
    let rest = add_devices (insert name device devices) entries in
    if conflicts (lookup name devices) device then err duplicate_device else rest

-- What the callback has gathered.
pub record Gathered : Type 0 where
  pub fs_root_mnt_name : String
  pub mounts : List Mount
  pub devices : Devices

abbrev pub by_target : Mount → Mount → Bool
by_target a b = less a.target b.target

-- `range` is the order in which Go ranges over a map.
module _ (range : Devices → Devices) (filename : String) where
  -- The callback `genMounts`
  unfoldable pub gen_mount : Gathered → Visit Mountable → Result MountError Gathered
  unfolding get_devices gen_osbuild_mount add_devices get_mountpoint
  gen_mount st (mnt, path) = get_devices filename false path >>= λ found.
      gen_osbuild_mount found.1 mnt >>= λ mount.
      add_devices st.devices (range found.0) >>= λ devices. ok (record {
        fs_root_mnt_name =
            if str_eq (get_mountpoint mnt) "/" then mount.name else st.fs_root_mnt_name;
        mounts = st.mounts ++ mount ∷ [];
        devices = devices;
      })

  unfoldable pub gen_mounts : Gathered → List (Visit Mountable) → Result MountError Gathered
  unfolding gen_mount
  gen_mounts st [] = ok st
  gen_mounts st (visit ∷ visits) = gen_mount st visit >>= λ st'. gen_mounts st' visits

  -- `GenMountsDevicesFromPT`: the name of the root's mount, the mounts and the devices.
  unfoldable pub gen_mounts_devices_from_pt : PartitionTable → Result MountError Gathered
  unfolding gen_mounts for_each_mountable_path sort_by
  gen_mounts_devices_from_pt pt =
      gen_mounts (record { fs_root_mnt_name = ""; mounts = []; devices = [] })
        (for_each_mountable_path pt)
      >>= λ st.
          if str_eq st.fs_root_mnt_name ""
          then err no_root_mount
          else ok (record st { mounts = sort_by by_target st.mounts })
