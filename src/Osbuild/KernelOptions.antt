-- ===== src/Osbuild/KernelOptions.antt =====
-- pkg/osbuild/disk.go: `MountConfiguration` and `GenImageKernelOptions`.
pub mod Described
pub mod Listed
pub mod Tree
use image_builder.Prelude.{
  ℕ, String, Bool, true, false, not, ◌&&◌, Option, none, some, List, [], ◌∷◌, ◌++◌, str_eq,
  if◌then◌else◌,
}
use image_builder.Prelude.Result.{Result, ok, err, panic, ◌>>=◌}
use image_builder.Text.{concat}
use image_builder.Disk.Entities.{PartitionTable, luks}
use image_builder.Disk.Paths.{Mountable, find_mountable}
use image_builder.Disk.Walks.{
  Entity, of_payload, of_btrfs_subvolume, Visit, for_each_entity, of_mountable,
}
use image_builder.Osbuild.Mounts.{get_fs_type}
use image_builder.Osbuild.Fstab.{FstabOptions, get_fstab_options, get_fs_spec_uuid}

pub data MountConfiguration : Type 0 where
  mount_fstab mount_units mount_none : MountConfiguration

unfoldable pub mount_configuration_name : MountConfiguration → String
mount_configuration_name mount_fstab = "fstab"
mount_configuration_name mount_units = "units"
mount_configuration_name mount_none = "none"

-- The errors of the two functions below.
pub data KernelOptionsError : Type 0 where
  unknown_mount_configuration : KernelOptionsError
  root_not_defined : KernelOptionsError

unfoldable pub new_mount_configuration : String → Result KernelOptionsError MountConfiguration
new_mount_configuration s =
    if str_eq s "fstab"
    then ok mount_fstab
    else if str_eq s "units"
    then ok mount_units
    else if str_eq s "none"
    then ok mount_none
    else err unknown_mount_configuration

unfoldable pub is_units : MountConfiguration → Bool
is_units mount_units = true
is_units _ = false

unfoldable pub is_fstab : MountConfiguration → Bool
is_fstab mount_fstab = true
is_fstab _ = false

-- The options of a mountable; an error makes the code panic.
unfoldable pub options_or_panic : Mountable → Result KernelOptionsError FstabOptions
unfolding get_fstab_options
options_or_panic mnt = elim (get_fstab_options (of_mountable mnt)) [
  | ok options ↦ ok options
  | err error ↦ panic
  | panic ↦ panic
]

-- The options for "/usr" on a filesystem of its own.
unfoldable pub usr_options :
    Option Mountable → MountConfiguration → Result KernelOptionsError (List String)
unfolding is_fstab options_or_panic get_fs_spec_uuid get_fs_type
usr_options none config = ok []
usr_options (some usr) config =
    if is_fstab config
    then ok []
    else options_or_panic usr >>= λ options. ok (
        concat "mount.usr=UUID=" (get_fs_spec_uuid (of_mountable usr))
        ∷ concat "mount.usrfstype=" (get_fs_type usr)
        ∷ concat "mount.usrflags=" options.mnt_ops
        ∷ [])

-- The loop that turns the first "ro" into "rw".
unfoldable pub flip_ro : List String → List String
flip_ro [] = []
flip_ro (option ∷ options) =
    let rest = flip_ro options in if str_eq option "ro" then "rw" ∷ options else option ∷ rest

-- What is done for mount units: the flip, and the flags of the root.
unfoldable pub units_options :
    Mountable → MountConfiguration → List String → Result KernelOptionsError (List String)
unfolding is_units flip_ro options_or_panic
units_options root config cmdline =
    if is_units config
    then (options_or_panic root >>= λ options. ok (
        if str_eq options.mnt_ops "defaults"
        then flip_ro cmdline
        else flip_ro cmdline ++ concat "rootflags=" options.mnt_ops ∷ []))
    else ok cmdline

-- `genOptions`
unfoldable pub entity_options : MountConfiguration → Visit Entity → List String
unfolding is_units
entity_options config (of_payload (luks header p), path) = concat "luks.uuid=" header.uuid ∷ []
entity_options config (of_btrfs_subvolume sv, path) =
    if str_eq sv.mountpoint "/" && not (is_units config)
    then concat "rootflags=subvol=" sv.name ∷ []
    else []
entity_options config visit = []

unfoldable pub all_entity_options : MountConfiguration → List (Visit Entity) → List String
unfolding entity_options
all_entity_options config [] = []
all_entity_options config (visit ∷ visits) =
    entity_options config visit ++ all_entity_options config visits

unfoldable pub root_options :
    PartitionTable
    → MountConfiguration
    → Option Mountable
    → Result KernelOptionsError (String × List String)
unfolding usr_options units_options all_entity_options find_mountable for_each_entity
    get_fs_spec_uuid
root_options pt config none = err root_not_defined
root_options pt config (some root) = usr_options (find_mountable pt "/usr") config >>= λ cmdline.
    units_options root config cmdline >>= λ cmdline'. ok (
      get_fs_spec_uuid (of_mountable root),
      cmdline' ++ all_entity_options config (for_each_entity pt),
    )

-- `GenImageKernelOptions`: the UUID of the root and the options.
unfoldable pub gen_image_kernel_options :
    PartitionTable → MountConfiguration → Result KernelOptionsError (String × List String)
unfolding root_options
gen_image_kernel_options pt config = root_options pt config (find_mountable pt "/")
