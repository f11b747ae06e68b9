-- ===== src/Disk/Tables/Customized.antt =====
-- `NewCustomPartitionTable` of partition_table.go. The validations of github.com/osbuild/blueprint are
-- the fields of `Validators`.
pub mod Limit
use mathlib.Core.Bool.{and-false}
use image_builder.Prelude.{
  ◌≡◌, refl, sym, ◌∙◌, Bool-cases, inl, inr, arith, ◌≤◌, ℕ, String, Bool, true, false, not, ◌&&◌,
  ◌||◌, Option, none, some, List, [], ◌∷◌, str_eq, length, ltb, if◌then◌else◌,
}
use image_builder.Prelude.Result.{
  Result, ok, err, ◌>>=◌, wrap, IfOk, IfOk-wrap, IfOk-bind, IfOk-total,
}
use image_builder.Disk.Errors.{
  Error, validation, invalid_table_type, invalid_partition_type, too_many_dos_partitions,
  generating_table,
}
use image_builder.Disk.Entities.{
  PartitionTableType, pt_none, pt_dos, pt_gpt, PartitionTablePolicy, PartitionTable,
}
use image_builder.Disk.Types.{arch_unset, fs_none, partition_table_type_name}
use image_builder.Disk.Directories.{MntSize}
use image_builder.Disk.Layout.{relayout}
use image_builder.Disk.Identify.{Random, generate_uuids}
use image_builder.Disk.Custom.{
  boot_none, PartitionCustomization, DiskCustomization, CustomPartitionTableOptions, is_plain,
  add_partitions_for_boot_mode,
}
use image_builder.Disk.Custom.Partitions.{
  add_plain_partition, add_lvm_partition, add_btrfs_partition,
}
use image_builder.Disk.Custom.Boot.{maybe_add_boot_partition, ensure_root_filesystem}
use image_builder.Disk.Tables.{default_policy, ensure_sizes_if_any}

-- The methods `Validate`, `ValidatePartitionTypeID`, `ValidatePartitionID` and
-- `ValidatePartitionLabel`: whether they return no error.
pub record Validators : Type 0 where
  pub validate : DiskCustomization → Bool
  pub validate_partition_type_id : PartitionCustomization → String → Bool
  pub validate_partition_id : PartitionCustomization → String → Bool
  pub validate_partition_label : PartitionCustomization → String → Bool

unfoldable pub check : Bool → Result Error (Unit {0})
check true = ok tt
check false = err validation

-- `&blueprint.DiskCustomization{}` for nil
unfoldable pub customizations_or_empty : Option DiskCustomization → DiskCustomization
customizations_or_empty (some customizations) = customizations
customizations_or_empty none = record {
  type = "";
  min_size = 0;
  partitions = [];
  start_offset = 0;
  sector_size = 0;
}

-- `&CustomPartitionTableOptions{}` for nil
unfoldable pub options_or_empty : Option CustomPartitionTableOptions → CustomPartitionTableOptions
options_or_empty (some options) = options
options_or_empty none = record {
  partition_table_type = pt_none;
  boot_mode = boot_none;
  default_fs_type = fs_none;
  architecture = arch_unset;
  esp_size = 0;
  required_min_sizes = [];
}

unfoldable pub policy_or_default : Option PartitionTablePolicy → PartitionTablePolicy
policy_or_default (some policy) = policy
policy_or_default none = default_policy

unfoldable pub default_table_type : PartitionTableType → PartitionTableType
default_table_type pt_none = pt_gpt
default_table_type type = type

unfoldable pub table_type : String → PartitionTableType → Result Error PartitionTableType
unfolding default_table_type
table_type customized option =
    if str_eq customized "dos"
    then ok pt_dos
    else if str_eq customized "gpt"
    then ok pt_gpt
    else if str_eq customized ""
    then ok (default_table_type option)
    else err invalid_table_type

abbrev pub empty_table : PartitionTableType → PartitionTablePolicy → PartitionTable
empty_table type policy = record {
  size = 0;
  uuid = "";
  type = type;
  partitions = [];
  grain_size = 0;
  sector_size = 0;
  extra_padding = 0;
  start_offset = 0;
  absolute_start_offset = false;
  policy = some policy;
}

-- The checks of a customization with a partition type, now that the type of the table is known.
unfoldable pub check_partition :
    Validators → PartitionTable → PartitionCustomization → Result Error (Unit {0})
unfolding check partition_table_type_name
check_partition validators pt part =
    let type = partition_table_type_name pt.type in
    if not (str_eq part.part_type "")
    then (check (validators.validate_partition_type_id part type) >>= λ _.
        check (validators.validate_partition_id part type) >>= λ _.
        check (validators.validate_partition_label part type))
    else ok tt

unfoldable pub add_partition :
    PartitionTable
    → PartitionCustomization
    → CustomPartitionTableOptions
    → Result Error PartitionTable
add_partition pt part options =
    if is_plain part
    then add_plain_partition pt part options
    else if str_eq part.type "lvm"
    then add_lvm_partition pt part options
    else if str_eq part.type "btrfs"
    then add_btrfs_partition pt part
    else err invalid_partition_type

unfoldable pub add_partitions :
    Validators
    → PartitionTable
    → List PartitionCustomization
    → CustomPartitionTableOptions
    → Result Error PartitionTable
unfolding check_partition add_partition
add_partitions validators pt [] options = ok pt
add_partitions validators pt (part ∷ parts) options = check_partition validators pt part >>= λ _.
    add_partition pt part options >>= λ pt'. add_partitions validators pt' parts options

unfoldable pub set_offsets : PartitionTable → DiskCustomization → PartitionTable
set_offsets pt customizations =
    let pt' : PartitionTable =
      if ltb 0 customizations.start_offset
      then record pt { start_offset = customizations.start_offset }
      else pt in
    if ltb 0 customizations.sector_size
    then record pt' { sector_size = customizations.sector_size }
    else pt'

unfoldable pub is_dos : PartitionTableType → Bool
is_dos pt_dos = true
is_dos _ = false

-- At most four partitions on a DOS partition table.
unfoldable pub check_dos_limit : PartitionTable → Result Error PartitionTable
unfolding is_dos
check_dos_limit pt =
    if is_dos pt.type && ltb 4 (length pt.partitions) then err too_many_dos_partitions else ok pt

module _ {R : Type 0} (random : Random R) (order : List MntSize → List MntSize)
    (validators : Validators) where
  -- Everything up to the layout.
  unfoldable pub build_table :
      DiskCustomization
      → CustomPartitionTableOptions
      → PartitionTablePolicy
      → Result Error PartitionTable
  unfolding check table_type add_partitions set_offsets
  build_table customizations options policy = check (validators.validate customizations) >>= λ _.
      table_type customizations.type options.partition_table_type >>= λ type.
      add_partitions_for_boot_mode (empty_table type policy) customizations.partitions
        options.architecture options.boot_mode options.esp_size
      >>= λ pt1.
          maybe_add_boot_partition pt1 customizations.partitions options.default_fs_type >>= λ pt2.
          add_partitions validators pt2 customizations.partitions options >>= λ pt3.
          ensure_root_filesystem pt3 options.default_fs_type options.architecture >>= λ pt4.
          ensure_sizes_if_any random order pt4 options.required_min_sizes >>= λ pt5.
          ok (set_offsets pt5 customizations)

  unfoldable pub new_custom_partition_table :
      Option DiskCustomization
      → Option CustomPartitionTableOptions
      → Option PartitionTablePolicy
      → R
      → Result Error (PartitionTable × R)
  unfolding build_table check_dos_limit customizations_or_empty options_or_empty policy_or_default
  new_custom_partition_table customizations options policy r =
      let customizations' = customizations_or_empty customizations in
      wrap generating_table (
        build_table customizations' (options_or_empty options) (policy_or_default policy) >>= λ pt.
        relayout pt customizations'.min_size >>= λ (pt1, end).
        let (pt2, r') = generate_uuids random pt1 r in check_dos_limit pt2 >>= λ pt3. ok (pt3, r'))
