-- ===== src/Osbuild/Prepare.antt =====
-- pkg/osbuild/disk.go: `GenImagePrepareStages`, with the options of the partitioning stages.
use image_builder.Prelude.{
  String, true, Option, none, some, List, [], ◌∷◌, ◌++◌, map, str_eq, if◌then◌else◌,
}
use image_builder.Prelude.Result.{Result, ok, panic, ◌>>=◌}
use image_builder.Text.Decimal.{format}
use image_builder.Disk.Entities.{Partition, PartitionTable}
use image_builder.Disk.Types.{partition_table_type_name}
use image_builder.Disk.Align.{bytes_to_sectors}
use image_builder.Osbuild.Devices.{Device, loopback, sector_size_option}
use image_builder.Osbuild.Stages.{
  StagePartition, truncate, sgdisk, Stage, stage_on, new_sfdisk_stage,
}
use image_builder.Osbuild.Generate.{
  gen_device_creation_stages, gen_fs_stages, gen_device_finish_stages,
}

-- `PartTool`: the two tools, and any other text.
pub data PartTool : Type 0 where
  pt_sfdisk pt_sgdisk pt_other : PartTool

unfoldable pub stage_partition : PartitionTable → Partition → StagePartition
unfolding bytes_to_sectors
stage_partition pt part = record {
  bootable = part.bootable;
  name = part.label;
  size = bytes_to_sectors pt part.size;
  start = bytes_to_sectors pt part.start;
  type = part.type;
  uuid = part.uuid;
  attrs = part.attrs;
}

-- The file itself as a device, locked.
unfoldable pub whole_file : PartitionTable → String → Device
unfolding sector_size_option
whole_file pt filename = loopback (record {
  filename = filename;
  start = 0;
  size = 0;
  sector_size = sector_size_option pt;
  lock = true;
})

-- `uuid.MustParse` of github.com/google/uuid returns the canonical text of a UUID or panics: `canonical`
-- is the text, or none.
module _ {ℓ} {E : Type ℓ} (canonical : String → Option String) where
  unfoldable pub must_parse : String → Result E String
  must_parse uuid = elim (canonical uuid) [ none ↦ panic | some text ↦ ok text ]

  -- `sgdiskStageOptions` parses the UUIDs that are set.
  unfoldable pub sgdisk_partition : PartitionTable → Partition → Result E StagePartition
  unfolding stage_partition must_parse
  sgdisk_partition pt part =
      if str_eq part.uuid ""
      then ok (stage_partition pt part)
      else must_parse part.uuid >>= λ uuid. ok (record (stage_partition pt part) { uuid = uuid })

  unfoldable pub sgdisk_partitions :
      PartitionTable → List Partition → Result E (List StagePartition)
  unfolding sgdisk_partition
  sgdisk_partitions pt [] = ok []
  sgdisk_partitions pt (part ∷ parts) = sgdisk_partition pt part >>= λ part'.
      sgdisk_partitions pt parts >>= λ parts'. ok (part' ∷ parts')

  unfoldable pub partitioning_stage : PartTool → PartitionTable → String → Result E Stage
  unfolding stage_partition new_sfdisk_stage sgdisk_partitions must_parse whole_file
      partition_table_type_name
  partitioning_stage pt_sfdisk pt filename =
      new_sfdisk_stage (partition_table_type_name pt.type) pt.uuid
        (map (stage_partition pt) pt.partitions) (whole_file pt filename)
  partitioning_stage pt_sgdisk pt filename = sgdisk_partitions pt pt.partitions >>= λ parts.
      must_parse pt.uuid >>= λ uuid.
      ok (stage_on (sgdisk uuid parts) (("device", whole_file pt filename) ∷ []))
  partitioning_stage pt_other pt filename = panic

  -- `GenImagePrepareStages`
  unfoldable pub gen_image_prepare_stages :
      PartitionTable → String → PartTool → String → Result E (List Stage)
  unfolding format partitioning_stage gen_device_creation_stages gen_fs_stages
  gen_image_prepare_stages pt filename tool pipeline =
      partitioning_stage tool pt filename >>= λ partitioning.
      gen_device_creation_stages pt filename >>= λ devices.
      gen_fs_stages pt filename pipeline >>= λ filesystems.
      ok (stage_on (truncate filename (format pt.size)) [] ∷ partitioning ∷ devices ++ filesystems)

module _ {ℓ} {E : Type ℓ} where
  -- `GenImageFinishStages`
  unfoldable pub gen_image_finish_stages : PartitionTable → String → Result E (List Stage)
  unfolding gen_device_finish_stages
  gen_image_finish_stages pt filename = gen_device_finish_stages pt filename
