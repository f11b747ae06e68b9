-- ===== src/Osbuild/KernelOptions/Listed.antt =====
-- The options of `GenImageKernelOptions`, written out for the tree of the table.
use image_builder.Prelude.{
  String, ◌≡◌, refl, ◌∙◌, Bool, true, false, Option, none, some, List, [], ◌∷◌, ◌++◌, str_eq,
  if◌then◌else◌,
}
use image_builder.Prelude.Result.{Result, ok, err, panic, ◌>>=◌}
use image_builder.Text.{concat}
use image_builder.Disk.Entities.{PartitionTable}
use image_builder.Disk.Paths.{Mountable, of_filesystem, of_subvolume, find_mountable}
use image_builder.Disk.Walks.{of_mountable}
use image_builder.Osbuild.Mounts.{get_fs_type}
use image_builder.Osbuild.Fstab.{
  FstabOptions, FstabError, subvolume_unnamed, get_fstab_options, subvolume_options, named_options,
  get_fs_spec_uuid,
}
use image_builder.Osbuild.Fstab.Entries.{subvolume_line}
use image_builder.Osbuild.KernelOptions.{
  MountConfiguration, mount_fstab, mount_units, mount_none, KernelOptionsError, root_not_defined,
  is_units, is_fstab, options_or_panic, usr_options, gen_image_kernel_options,
}
use image_builder.Osbuild.KernelOptions.Described.{
  root_flags, described_root, described_options, gen_image_kernel_options-described_options,
}
use image_builder.Osbuild.KernelOptions.Tree.{listed_partitions, entities-listed}

abbrev pub uuid_of : Mountable → String
uuid_of (of_filesystem fs) = fs.uuid
uuid_of (of_subvolume sv) = sv.uuid

abbrev pub type_of : Mountable → String
type_of (of_filesystem fs) = fs.type
type_of (of_subvolume sv) = "btrfs"

-- The mount options, which a subvolume without a name does not have.
abbrev pub flags_of : Mountable → Option String
flags_of (of_filesystem fs) = some fs.fstab_options
flags_of (of_subvolume sv) =
    if str_eq sv.name ""
    then none
    else some (subvolume_line sv.compress sv.read_only (concat "subvol=" sv.name))

abbrev pub or_panic {ℓ} : {A : Type ℓ} → Option A → Result KernelOptionsError A
or_panic none = panic
or_panic (some a) = ok a

abbrev pub usr_list : Mountable → String → List String
usr_list usr flags =
    concat "mount.usr=UUID=" (uuid_of usr)
    ∷ concat "mount.usrfstype=" (type_of usr)
    ∷ concat "mount.usrflags=" flags
    ∷ []

-- The options for "/usr", if it is mounted by itself and not from /etc/fstab.
abbrev pub listed_usr :
    Option Mountable → MountConfiguration → Result KernelOptionsError (List String)
listed_usr none config = ok []
listed_usr (some usr) mount_fstab = ok []
listed_usr (some usr) mount_units = or_panic (flags_of usr) >>= λ flags. ok (usr_list usr flags)
listed_usr (some usr) mount_none = or_panic (flags_of usr) >>= λ flags. ok (usr_list usr flags)

-- The flags of the root, for mount units and where they are not the default ones.
abbrev pub listed_flags : Mountable → MountConfiguration → Result KernelOptionsError (List String)
listed_flags root mount_units = or_panic (flags_of root) >>= λ flags.
    ok (if str_eq flags "defaults" then [] else concat "rootflags=" flags ∷ [])
listed_flags root mount_fstab = ok []
listed_flags root mount_none = ok []

-- The whole result, for the root that the table has.
unfoldable pub listed_options :
    PartitionTable
    → MountConfiguration
    → Option Mountable
    → Result KernelOptionsError (String × List String)
unfolding listed_partitions
listed_options pt config none = err root_not_defined
listed_options pt config (some root) = listed_usr (find_mountable pt "/usr") config >>= λ usr.
    listed_flags root config >>= λ flags.
    ok (uuid_of root, usr ++ (flags ++ listed_partitions config pt.partitions))

abbrev panic_on_error : Result FstabError FstabOptions → Result KernelOptionsError FstabOptions
panic_on_error r = elim r as (λ r. Result KernelOptionsError FstabOptions) [
  | ok options ↦ ok options
  | err error ↦ panic
  | panic ↦ panic
]

by_name :
    {A : Type 0} (unnamed : Bool) (options : FstabOptions) (f : String → A)
    → (panic_on_error (if unnamed then err subvolume_unnamed else ok options) >>= λ options.
        ok (f options.mnt_ops))
      ≡ (or_panic (if unnamed then none else some options.mnt_ops) >>= λ flags. ok (f flags))
by_name true options f = refl
by_name false options f = refl

flags-listed :
    {A : Type 0} (mnt : Mountable) (f : String → A)
    → (options_or_panic mnt >>= λ options. ok (f options.mnt_ops))
      ≡ (or_panic (flags_of mnt) >>= λ flags. ok (f flags))
unfolding options_or_panic get_fstab_options subvolume_options named_options
flags-listed (of_filesystem fs) f = refl
flags-listed (of_subvolume sv) f = by_name (str_eq sv.name "") (named_options sv) f

usr-listed :
    (usr : Option Mountable) (config : MountConfiguration)
    → usr_options usr config ≡ listed_usr usr config
unfolding usr_options is_fstab get_fs_spec_uuid get_fs_type
usr-listed none config = refl
usr-listed (some usr) mount_fstab = refl
usr-listed (some (of_filesystem fs)) mount_units =
    flags-listed (of_filesystem fs) (usr_list (of_filesystem fs))
usr-listed (some (of_subvolume sv)) mount_units =
    flags-listed (of_subvolume sv) (usr_list (of_subvolume sv))
usr-listed (some (of_filesystem fs)) mount_none =
    flags-listed (of_filesystem fs) (usr_list (of_filesystem fs))
usr-listed (some (of_subvolume sv)) mount_none =
    flags-listed (of_subvolume sv) (usr_list (of_subvolume sv))

root-listed :
    (root : Mountable) (config : MountConfiguration)
    → root_flags root config ≡ listed_flags root config
unfolding root_flags is_units
root-listed root mount_units =
    flags-listed root
      (λ flags. if str_eq flags "defaults" then [] else concat "rootflags=" flags ∷ [])
root-listed root mount_fstab = refl
root-listed root mount_none = refl

uuid-listed : (root : Mountable) → get_fs_spec_uuid (of_mountable root) ≡ uuid_of root
unfolding get_fs_spec_uuid
uuid-listed (of_filesystem fs) = refl
uuid-listed (of_subvolume sv) = refl

described-listed :
    (pt : PartitionTable) (config : MountConfiguration) (root : Option Mountable)
    → described_root pt config root ≡ listed_options pt config root
unfolding described_root listed_options
described-listed pt config none = refl
described-listed pt config (some root) =
    rw
      (
        usr-listed (find_mountable pt "/usr") config,
        root-listed root config,
        uuid-listed root,
        entities-listed config pt,
      )
      refl

-- `GenImageKernelOptions` fails where the table has no root, and panics where it needs the options of a
-- subvolume without a name. Otherwise it returns the UUID of the root, and as options first those of a
-- "/usr" that is mounted by itself and not from /etc/fstab, then, for mount units, the flags of the root
-- if they are not "defaults", and then in the order of the tree the UUID of each LUKS container and, but
-- for mount units, the name of the subvolume of the root.
pub gen_image_kernel_options-eq :
    (pt : PartitionTable) (config : MountConfiguration)
    → gen_image_kernel_options pt config ≡ listed_options pt config (find_mountable pt "/")
unfolding described_options
gen_image_kernel_options-eq pt config =
    gen_image_kernel_options-described_options pt config
    ∙ described-listed pt config (find_mountable pt "/")
