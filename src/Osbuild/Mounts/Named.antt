-- ===== src/Osbuild/Mounts/Named.antt =====
-- The mounts of `genOsbuildMount`: name, source and target.
use image_builder.Prelude.{String, ◌≡◌, refl, Bool, true, false, if◌then◌else◌}
use image_builder.Prelude.Result.{ok, err, IfOk}
use image_builder.Disk.Paths.{Mountable, of_filesystem, of_subvolume, get_mountpoint}
use image_builder.Osbuild.Devices.{path_escape}
use image_builder.Osbuild.Mounts.{
  unknown_fs_type, Mount, plain_mount, gen_osbuild_mount, btrfs_mount,
}

-- The mount of a mountable on a device.
pub record IsMountOf (source : String) (mnt : Mountable) (mount : Mount) : Type 0 where
  pub named : mount.name ≡ path_escape (get_mountpoint mnt)
  pub on_source : mount.source ≡ source
  pub at_target : mount.target ≡ get_mountpoint mnt

btrfs_mount-IsMountOf :
    (source : String) (mnt : Mountable)
    → IfOk (IsMountOf source mnt) (btrfs_mount (path_escape (get_mountpoint mnt)) source mnt)
unfolding btrfs_mount get_mountpoint
btrfs_mount-IsMountOf source (of_filesystem fs) = tt
btrfs_mount-IsMountOf source (of_subvolume sv) = record {
  named = refl;
  on_source = refl;
  at_target = refl;
}

-- The branches, by the tests of the type.
by_type-IsMountOf :
    (source : String) (mnt : Mountable) (xfs vfat ext4 btrfs : Bool)
    → IfOk (IsMountOf source mnt) (
        if xfs
        then ok (
            plain_mount "org.osbuild.xfs"
              (path_escape (get_mountpoint mnt))
              source
              (get_mountpoint mnt))
        else if vfat
        then ok (
            plain_mount "org.osbuild.fat"
              (path_escape (get_mountpoint mnt))
              source
              (get_mountpoint mnt))
        else if ext4
        then ok (
            plain_mount "org.osbuild.ext4"
              (path_escape (get_mountpoint mnt))
              source
              (get_mountpoint mnt))
        else if btrfs
        then btrfs_mount (path_escape (get_mountpoint mnt)) source mnt
        else err unknown_fs_type)
by_type-IsMountOf source mnt true v e b = record {
  named = refl;
  on_source = refl;
  at_target = refl;
}
by_type-IsMountOf source mnt false true e b = record {
  named = refl;
  on_source = refl;
  at_target = refl;
}
by_type-IsMountOf source mnt false false true b = record {
  named = refl;
  on_source = refl;
  at_target = refl;
}
by_type-IsMountOf source mnt false false false true = btrfs_mount-IsMountOf source mnt
by_type-IsMountOf source mnt false false false false = tt

pub gen_osbuild_mount-IsMountOf :
    (source : String) (mnt : Mountable) → IfOk (IsMountOf source mnt) (gen_osbuild_mount source mnt)
unfolding gen_osbuild_mount
gen_osbuild_mount-IsMountOf source mnt = by_type-IsMountOf source mnt _ _ _ _
