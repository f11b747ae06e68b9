-- ===== src/Osbuild/Fstab.antt =====
-- pkg/osbuild/fstab_stage.go, with the `FSTabEntity` methods of pkg/disk: filesystem.go, btrfs.go, swap.go.
pub mod Entries
use image_builder.Prelude.{ℕ, String, Bool, List, [], ◌∷◌, str_eq, if◌then◌else◌}
use image_builder.Prelude.Result.{Result, ok, err, ◌>>=◌}
use image_builder.Text.{concat}
use image_builder.Text.Decimal.{format}
use image_builder.Sorting.{less, sort_by}
use image_builder.Disk.Entities.{BtrfsSubvolume, PartitionTable}
use image_builder.Disk.Paths.{Mountable, of_filesystem, of_subvolume, get_mountpoint}
use image_builder.Disk.Walks.{FstabEntity, of_mountable, of_swap, for_each_fstab_entity}
use image_builder.Osbuild.Mounts.{get_fs_type}

pub record FstabOptions : Type 0 where
  pub mnt_ops : String
  pub freq : ℕ
  pub pass_no : ℕ

-- The error of `BtrfsSubvolume.GetFSTabOptions`.
pub data FstabError : Type 0 where
  subvolume_unnamed : FstabError

abbrev pub plain_options : String → FstabOptions
plain_options ops = record { mnt_ops = ops; freq = 0; pass_no = 0 }

-- The options of a subvolume with a name.
unfoldable pub named_options : BtrfsSubvolume → FstabOptions
named_options sv =
    let named = concat "subvol=" sv.name in
    let compressed =
      if str_eq sv.compress "" then named else concat named (concat ",compress=" sv.compress) in
    plain_options (if sv.read_only then concat compressed ",ro" else compressed)

unfoldable pub subvolume_options : BtrfsSubvolume → Result FstabError FstabOptions
unfolding named_options
subvolume_options sv = if str_eq sv.name "" then err subvolume_unnamed else ok (named_options sv)

-- `GetFSTabOptions`
unfoldable pub get_fstab_options : FstabEntity → Result FstabError FstabOptions
unfolding subvolume_options
get_fstab_options (of_mountable (of_filesystem fs)) =
    ok (record { mnt_ops = fs.fstab_options; freq = fs.fstab_freq; pass_no = fs.fstab_pass_no })
get_fstab_options (of_mountable (of_subvolume sv)) = subvolume_options sv
get_fstab_options (of_swap s) = ok (plain_options s.fstab_options)

-- The UUID of `GetFSSpec`
unfoldable pub get_fs_spec_uuid : FstabEntity → String
get_fs_spec_uuid (of_mountable (of_filesystem fs)) = fs.uuid
get_fs_spec_uuid (of_mountable (of_subvolume sv)) = sv.uuid
get_fs_spec_uuid (of_swap s) = s.uuid

unfoldable pub get_fs_file : FstabEntity → String
unfolding get_mountpoint
get_fs_file (of_mountable mnt) = get_mountpoint mnt
get_fs_file (of_swap s) = "none"

unfoldable pub get_vfs_type : FstabEntity → String
unfolding get_fs_type
get_vfs_type (of_mountable mnt) = get_fs_type mnt
get_vfs_type (of_swap s) = "swap"

-- `FSTabEntry`; the label is never set here.
pub record FstabEntry : Type 0 where
  pub uuid : String
  pub vfs_type : String
  pub path : String
  pub options : String
  pub freq : ℕ
  pub passno : ℕ

-- `AddFilesystem` with the arguments of the callback
unfoldable pub fstab_entry : FstabEntity → FstabOptions → FstabEntry
unfolding get_fs_spec_uuid get_fs_file get_vfs_type
fstab_entry entity options = record {
  uuid = get_fs_spec_uuid entity;
  vfs_type = get_vfs_type entity;
  path = get_fs_file entity;
  options = options.mnt_ops;
  freq = options.freq;
  passno = options.pass_no;
}

unfoldable pub fstab_entries : List FstabEntity → Result FstabError (List FstabEntry)
unfolding get_fstab_options fstab_entry
fstab_entries [] = ok []
fstab_entries (entity ∷ entities) = get_fstab_options entity >>= λ options.
    fstab_entries entities >>= λ entries. ok (fstab_entry entity options ∷ entries)

-- `key`: the decimal pass number in front of the path, compared as texts.
unfoldable pub fstab_key : FstabEntry → String
unfolding format
fstab_key entry = concat (format entry.passno) entry.path

abbrev pub by_key : FstabEntry → FstabEntry → Bool
by_key a b = less (fstab_key a) (fstab_key b)

-- `NewFSTabStageOptions`
unfoldable pub new_fstab_stage_options : PartitionTable → Result FstabError (List FstabEntry)
unfolding fstab_entries for_each_fstab_entity sort_by
new_fstab_stage_options pt =
    fstab_entries (for_each_fstab_entity pt) >>= λ entries. ok (sort_by by_key entries)
