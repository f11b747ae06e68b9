-- ===== src/Disk/Types/RoundTrips.antt =====
-- The names of pkg/arch, `FSType` and `PartitionTableType` are read back as the values they name.
use image_builder.Prelude.{String, ◌≡◌, refl, sym, ◌∙◌, if◌then◌else◌, str_eq, eq_iff, ◌≢◌}
use image_builder.Prelude.Result.{Result, ok, err, IfOk, IfOk-if}
use image_builder.Disk.Errors.{Error, unknown_filesystem_type, unknown_partition_table}
use image_builder.Disk.Entities.{PartitionTableType, pt_none, pt_dos, pt_gpt}
use image_builder.Disk.Types.{
  Arch, arch_unset, arch_arm, arch_aarch64, arch_ppc64le, arch_s390x, arch_x86_64, arch_riscv64,
  arch_name, go_arch, arch_from_string, FsType, fs_none, fs_vfat, fs_ext4, fs_xfs, fs_btrfs,
  fs_type_name, new_fs_type, partition_table_type_name, new_partition_table_type,
}

fs_type_read :
    (s name : String) (t : FsType) (rest : Result Error FsType)
    → fs_type_name t ≡ name
    → IfOk (λ t'. fs_type_name t' ≡ s) rest
    → IfOk (λ t'. fs_type_name t' ≡ s) (if str_eq s name then ok t else rest)
fs_type_read s name t rest h =
    IfOk-if (λ t'. fs_type_name t' ≡ s) (str_eq s name) (ok t) rest
      (λ is. h ∙ sym ((eq_iff s name).0 is))

-- The name of each filesystem type is read as that type, and a string that is read as a filesystem
-- type is the name of that type.
pub new_fs_type-fs_type_name :
    ((t : FsType) → new_fs_type (fs_type_name t) ≡ ok t)
    × ((s : String) → IfOk (λ t. fs_type_name t ≡ s) (new_fs_type s))
unfolding new_fs_type fs_type_name
new_fs_type-fs_type_name = (
  elim [ fs_none ↦ refl | fs_vfat ↦ refl | fs_ext4 ↦ refl | fs_xfs ↦ refl | fs_btrfs ↦ refl ],
  λ s. fs_type_read s "" fs_none _ refl (
      fs_type_read s "vfat" fs_vfat _ refl (
        fs_type_read s "ext4" fs_ext4 _ refl (
          fs_type_read s "xfs" fs_xfs _ refl
            (fs_type_read s "btrfs" fs_btrfs (err unknown_filesystem_type) refl tt)))),
)

table_type_read :
    (s name : String) (t : PartitionTableType) (rest : Result Error PartitionTableType)
    → partition_table_type_name t ≡ name
    → IfOk (λ t'. partition_table_type_name t' ≡ s) rest
    → IfOk (λ t'. partition_table_type_name t' ≡ s) (if str_eq s name then ok t else rest)
table_type_read s name t rest h =
    IfOk-if (λ t'. partition_table_type_name t' ≡ s) (str_eq s name) (ok t) rest
      (λ is. h ∙ sym ((eq_iff s name).0 is))

-- The name of each partition table type is read as that type, and a string that is read as a
-- partition table type is the name of that type.
pub new_partition_table_type-partition_table_type_name :
    ((t : PartitionTableType) → new_partition_table_type (partition_table_type_name t) ≡ ok t)
    × ((s : String) → IfOk (λ t. partition_table_type_name t ≡ s) (new_partition_table_type s))
unfolding new_partition_table_type partition_table_type_name
new_partition_table_type-partition_table_type_name = (
  elim [ pt_none ↦ refl | pt_dos ↦ refl | pt_gpt ↦ refl ],
  λ s. table_type_read s "" pt_none _ refl (
      table_type_read s "dos" pt_dos _ refl
        (table_type_read s "gpt" pt_gpt (err unknown_partition_table) refl tt)),
)

-- An architecture other than the unset one is read from its name, and from Go's name of it.
pub arch_from_string-arch_name :
    (a : Arch)
    → a ≢ arch_unset
    → (arch_from_string (arch_name a) ≡ ok a)
      × (s : String) × (go_arch a ≡ ok s)
      × (arch_from_string s ≡ ok a)
unfolding arch_from_string arch_name go_arch
arch_from_string-arch_name arch_unset set = elim (set refl) [ ]
arch_from_string-arch_name arch_arm set = (refl, "arm", refl, refl)
arch_from_string-arch_name arch_aarch64 set = (refl, "arm64", refl, refl)
arch_from_string-arch_name arch_ppc64le set = (refl, "ppc64le", refl, refl)
arch_from_string-arch_name arch_s390x set = (refl, "s390x", refl, refl)
arch_from_string-arch_name arch_x86_64 set = (refl, "amd64", refl, refl)
arch_from_string-arch_name arch_riscv64 set = (refl, "riscv64", refl, refl)
