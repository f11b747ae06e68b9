-- ===== src/Disk/Types.antt =====
-- The enumerations of disk.go and pkg/arch/arch.go with their names, and `getPartitionTypeIDfor`.
pub mod RoundTrips
use image_builder.Prelude.{String, Bool, ◌||◌, str_eq, if◌then◌else◌}
use image_builder.Prelude.Result.{Result, ok, err, panic}
use image_builder.Disk.Errors.{
  Error, unknown_partition_type, architecture_unset, unsupported_architecture,
  unknown_partition_table, unknown_filesystem_type,
}
use image_builder.Disk.Entities.{PartitionTableType, pt_none, pt_dos, pt_gpt}

-- `arch.Arch`
pub data Arch : Type 0 where
  arch_unset arch_arm arch_aarch64 arch_ppc64le arch_s390x arch_x86_64 arch_riscv64 : Arch

unfoldable pub arch_name : Arch → String
arch_name arch_unset = "unset"
arch_name arch_arm = "arm"
arch_name arch_aarch64 = "aarch64"
arch_name arch_ppc64le = "ppc64le"
arch_name arch_s390x = "s390x"
arch_name arch_x86_64 = "x86_64"
arch_name arch_riscv64 = "riscv64"

-- `GoArch`, which has no name for the unset value
unfoldable pub go_arch : Arch → Result Error String
go_arch arch_unset = panic
go_arch arch_arm = ok "arm"
go_arch arch_aarch64 = ok "arm64"
go_arch arch_ppc64le = ok "ppc64le"
go_arch arch_s390x = ok "s390x"
go_arch arch_x86_64 = ok "amd64"
go_arch arch_riscv64 = ok "riscv64"

unfoldable pub go_variant : Arch → Result Error String
go_variant arch_unset = panic
go_variant arch_arm = ok "v7"
go_variant _ = ok ""

-- `arch.FromString`
unfoldable pub arch_from_string : String → Result Error Arch
arch_from_string a =
    if str_eq a "amd64" || str_eq a "x86_64"
    then ok arch_x86_64
    else if str_eq a "arm" || str_eq a "armv7"
    then ok arch_arm
    else if str_eq a "arm64" || str_eq a "aarch64"
    then ok arch_aarch64
    else if str_eq a "s390x"
    then ok arch_s390x
    else if str_eq a "ppc64le"
    then ok arch_ppc64le
    else if str_eq a "riscv64"
    then ok arch_riscv64
    else err unsupported_architecture

-- `FSType`
pub data FsType : Type 0 where
  fs_none fs_vfat fs_ext4 fs_xfs fs_btrfs : FsType

unfoldable pub fs_type_name : FsType → String
fs_type_name fs_none = ""
fs_type_name fs_vfat = "vfat"
fs_type_name fs_ext4 = "ext4"
fs_type_name fs_xfs = "xfs"
fs_type_name fs_btrfs = "btrfs"

unfoldable pub new_fs_type : String → Result Error FsType
new_fs_type s =
    if str_eq s ""
    then ok fs_none
    else if str_eq s "vfat"
    then ok fs_vfat
    else if str_eq s "ext4"
    then ok fs_ext4
    else if str_eq s "xfs"
    then ok fs_xfs
    else if str_eq s "btrfs"
    then ok fs_btrfs
    else err unknown_filesystem_type

unfoldable pub partition_table_type_name : PartitionTableType → String
partition_table_type_name pt_none = ""
partition_table_type_name pt_dos = "dos"
partition_table_type_name pt_gpt = "gpt"

unfoldable pub new_partition_table_type : String → Result Error PartitionTableType
new_partition_table_type s =
    if str_eq s ""
    then ok pt_none
    else if str_eq s "dos"
    then ok pt_dos
    else if str_eq s "gpt"
    then ok pt_gpt
    else err unknown_partition_table

unfoldable pub root_guid : Arch → Result Error String
root_guid arch_x86_64 = ok "4F68BCE3-E8CD-4DB1-96E7-FBCAF984B709"
root_guid arch_aarch64 = ok "B921B045-1DF0-41C3-AF44-4C6F280D3FAE"
root_guid arch_ppc64le = ok "C31C45E6-3F39-412E-80FB-4809C4980599"
root_guid arch_s390x = ok "5EEAD9A9-FE09-4A1E-A1D7-520D00531306"
root_guid arch_unset = err architecture_unset
root_guid _ = err unsupported_architecture

unfoldable pub usr_guid : Arch → Result Error String
usr_guid arch_x86_64 = ok "8484680C-9521-48C6-9C11-B0720656F69E"
usr_guid arch_aarch64 = ok "B0E01050-EE5F-4390-949A-9101B17104E9"
usr_guid arch_ppc64le = ok "15BB03AF-77E7-4D4A-B12B-C0D084F7491C"
usr_guid arch_s390x = ok "8A4F5770-50AA-4ED3-874A-99B710DB6FEA"
usr_guid arch_unset = err architecture_unset
usr_guid _ = err unsupported_architecture

abbrev pub efi_system_partition_guid : String
efi_system_partition_guid = "C12A7328-F81F-11D2-BA4B-00A0C93EC93B"

abbrev pub lvm_partition_guid : String
lvm_partition_guid = "E6D6D379-F507-44C2-A23C-238F2A3DF928"

abbrev pub xbootldr_partition_guid : String
xbootldr_partition_guid = "BC13C2FF-59E6-4262-A352-B275FD6F7172"

abbrev pub filesystem_data_guid : String
filesystem_data_guid = "0FC63DAF-8483-4772-8E79-3D69D8477DE4"

abbrev pub efi_system_partition_dos_id : String
efi_system_partition_dos_id = "ef"

abbrev pub lvm_partition_dos_id : String
lvm_partition_dos_id = "8e"

unfoldable pub dos_type_id : String → Result Error String
dos_type_id name =
    if str_eq name "bios"
    then ok "00"
    else if str_eq name "data" || (str_eq name "boot" || (str_eq name "root" || str_eq name "usr"))
    then ok "83"
    else if str_eq name "esp"
    then ok efi_system_partition_dos_id
    else if str_eq name "lvm"
    then ok lvm_partition_dos_id
    else if str_eq name "ppc_prep"
    then ok "41"
    else if str_eq name "swap"
    then ok "82"
    else err unknown_partition_type

unfoldable pub gpt_type_id : String → Arch → Result Error String
unfolding root_guid usr_guid
gpt_type_id name architecture =
    if str_eq name "bios"
    then ok "21686148-6449-6E6F-744E-656564454649"
    else if str_eq name "boot"
    then ok xbootldr_partition_guid
    else if str_eq name "data"
    then ok filesystem_data_guid
    else if str_eq name "esp"
    then ok efi_system_partition_guid
    else if str_eq name "lvm"
    then ok lvm_partition_guid
    else if str_eq name "ppc_prep"
    then ok "9E1A2D38-C612-4316-AA26-8B49521E5A8B"
    else if str_eq name "swap"
    then ok "0657FD6D-A4AB-43C4-84E5-0933C84B4F4F"
    else if str_eq name "root"
    then root_guid architecture
    else if str_eq name "usr"
    then usr_guid architecture
    else err unknown_partition_type

-- `getPartitionTypeIDfor`
unfoldable pub partition_type_id : PartitionTableType → String → Arch → Result Error String
unfolding dos_type_id gpt_type_id
partition_type_id pt_dos name architecture = dos_type_id name
partition_type_id pt_gpt name architecture = gpt_type_id name architecture
partition_type_id pt_none name architecture = err unknown_partition_table
