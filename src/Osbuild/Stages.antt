-- ===== src/Osbuild/Stages.antt =====
-- The stages of pkg/osbuild that write a disk: stage.go and the files of the stage types, with the
-- checks that their constructors make.
use Prim.Native.Char.{code}
use image_builder.Prelude.{
  ℕ, String, Bool, true, false, ◌&&◌, ◌||◌, Option, List, [], ◌∷◌, length, ltb, leb, ◌==◌, str_eq,
  if◌then◌else◌,
}
use image_builder.Prelude.Result.{Result, ok, panic}
use image_builder.Disk.Entities.{Argon2id, MkfsOptionGeometry}
use image_builder.Osbuild.Devices.{Device, Devices}
use image_builder.Osbuild.Mounts.{Mount}

-- `SfdiskPartition` and `SgdiskPartition`; an empty UUID is left out.
pub record StagePartition : Type 0 where
  pub bootable : Bool
  pub name : String
  pub size : ℕ
  pub start : ℕ
  pub type : String
  pub uuid : String
  pub attrs : List ℕ

pub record Luks2CreateStageOptions : Type 0 where
  pub passphrase : String
  pub uuid : String
  pub cipher : String
  pub label : String
  pub subsystem : String
  pub sector_size : ℕ
  pub pbkdf_method : String
  pub pbkdf : Argon2id

-- `LogicalVolume` of lvm2_create_stage.go
pub record StageVolume : Type 0 where
  pub name : String
  pub size : String

-- The stage type with its options; the source pipeline of the only input is an option here.
pub data StageOptions : Type 0 where
  truncate : (filename size : String) → StageOptions
  sfdisk : (label uuid : String) → List StagePartition → StageOptions
  sgdisk : (uuid : String) → List StagePartition → StageOptions
  luks2_format : Luks2CreateStageOptions → StageOptions
  clevis_luks_bind : (passphrase pin policy : String) → StageOptions
  luks2_remove_key : (passphrase : String) → StageOptions
  lvm2_create : List StageVolume → StageOptions
  lvm2_metadata : (vg_name : String) → StageOptions
  mkfs_xfs : (uuid label : String) (agcount : ℕ) → StageOptions
  mkfs_fat : (volid label : String) → Option MkfsOptionGeometry → StageOptions
  mkfs_ext4 : (uuid label : String) (verity : Bool) → StageOptions
  mkfs_btrfs : (uuid label : String) → StageOptions
  btrfs_subvol : (names : List String) → StageOptions
  mkswap : (uuid label : String) → StageOptions
  write_device : (from pipeline : String) → StageOptions

pub record Stage : Type 0 where
  pub options : StageOptions
  pub devices : Devices
  pub mounts : List Mount

abbrev pub stage_on : StageOptions → Devices → Stage
stage_on options devices = record { options = options; devices = devices; mounts = [] }

unfoldable pub is_letter_or_digit : ℕ → Bool
is_letter_or_digit c =
    (leb b'a' c && leb c b'z') || ((leb b'A' c && leb c b'Z') || (leb b'0' c && leb c b'9'))

unfoldable pub is_volume_char : ℕ → Bool
unfolding is_letter_or_digit
is_volume_char c = is_letter_or_digit c || (c == b'+' || (c == b'_' || c == b'.'))

unfoldable pub all_volume_chars : String → Bool
unfolding is_volume_char
all_volume_chars String.[] = true
all_volume_chars (String.◌∷◌ c s) =
    (is_volume_char (code c) || code c == b'-') && all_volume_chars s

-- `lvmVolNameRegex`: the first character is no dash.
unfoldable pub is_volume_name : String → Bool
unfolding all_volume_chars
is_volume_name String.[] = false
is_volume_name (String.◌∷◌ c s) = is_volume_char (code c) && all_volume_chars s

unfoldable pub are_volume_names : List StageVolume → Bool
unfolding is_volume_name
are_volume_names [] = true
are_volume_names (volume ∷ volumes) = is_volume_name volume.name && are_volume_names volumes

unfoldable pub is_pbkdf : Luks2CreateStageOptions → Bool
is_pbkdf o =
    (str_eq o.pbkdf_method "argon2i" || str_eq o.pbkdf_method "argon2id")
    && ((leb 32 o.pbkdf.memory && leb o.pbkdf.memory 4194304)
        && ((leb 4 o.pbkdf.iterations && leb o.pbkdf.iterations 4294967295)
            && (leb 1 o.pbkdf.parallelism && leb o.pbkdf.parallelism 4)))

-- One of the first four partitions is an extended partition.
unfoldable pub extended_in : ℕ → List StagePartition → Bool
extended_in ℕ.zero parts = false
extended_in (ℕ.suc n) [] = false
extended_in (ℕ.suc n) (part ∷ parts) = str_eq part.type "0f" || extended_in n parts

unfoldable pub is_sfdisk : String → List StagePartition → Bool
unfolding extended_in
is_sfdisk label parts =
    if str_eq label "dos" && ltb 4 (length parts) then extended_in 4 parts else true

module _ {ℓ} {E : Type ℓ} where
  abbrev pub checked : Bool → Stage → Result E Stage
  checked true stage = ok stage
  checked false stage = panic

  -- `NewLUKS2CreateStage`
  unfoldable pub new_luks2_create_stage : Luks2CreateStageOptions → Devices → Result E Stage
  unfolding is_pbkdf
  new_luks2_create_stage o devices = checked (is_pbkdf o) (stage_on (luks2_format o) devices)

  -- `NewLVM2CreateStage`
  unfoldable pub new_lvm2_create_stage : List StageVolume → Devices → Result E Stage
  unfolding are_volume_names
  new_lvm2_create_stage volumes devices =
      checked (ltb 0 (length volumes) && are_volume_names volumes)
        (stage_on (lvm2_create volumes) devices)

  -- `NewLVM2MetadataStage`, for options without a creation time
  unfoldable pub new_lvm2_metadata_stage : String → Devices → Result E Stage
  unfolding is_volume_name
  new_lvm2_metadata_stage vg_name devices =
      checked (is_volume_name vg_name) (stage_on (lvm2_metadata vg_name) devices)

  -- `NewSfdiskStage`
  unfoldable pub new_sfdisk_stage :
      (label uuid : String) → List StagePartition → Device → Result E Stage
  unfolding is_sfdisk
  new_sfdisk_stage label uuid parts device =
      checked (is_sfdisk label parts) (stage_on (sfdisk label uuid parts) (("device", device) ∷ []))
