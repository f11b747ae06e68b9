-- ===== src/Disk/Entities.antt =====
-- The entity types of pkg/disk: partition_table.go, partition.go, filesystem.go, swap.go, raw.go,
-- btrfs.go, lvm.go and luks.go. A nil `Payload` is the constructor `no_payload`. A slice of
-- logical volumes is a data type of its own, since a volume holds a payload again.
use image_builder.Prelude.{ℕ, String, Bool, Option, none, List}

-- `PT_NONE`, `PT_DOS`, `PT_GPT`
pub data PartitionTableType : Type 0 where
  pt_none pt_dos pt_gpt : PartitionTableType

pub record PartitionTablePolicy : Type 0 where
  pub ensure_xbootldr : Bool
  pub grow_root_to_fill_disk : Option Bool

pub record MkfsOptionGeometry : Type 0 where
  pub heads : ℕ
  pub sectors_per_track : ℕ

pub record MkfsOptions : Type 0 where
  pub verity : Bool
  pub geometry : Option MkfsOptionGeometry
  pub agcount : ℕ

pub record Filesystem : Type 0 where
  pub type : String
  pub uuid : String
  pub label : String
  pub mountpoint : String
  pub fstab_options : String
  pub fstab_freq : ℕ
  pub fstab_pass_no : ℕ
  pub mkfs_options : MkfsOptions

pub record Swap : Type 0 where
  pub uuid : String
  pub label : String
  pub fstab_options : String

pub record Raw : Type 0 where
  pub source_path : String

pub record BtrfsSubvolume : Type 0 where
  pub name : String
  pub size : ℕ
  pub mountpoint : String
  pub group_id : ℕ
  pub compress : String
  pub read_only : Bool
  pub uuid : String

pub record Btrfs : Type 0 where
  pub uuid : String
  pub label : String
  pub mountpoint : String
  pub subvolumes : List BtrfsSubvolume

pub record Argon2id : Type 0 where
  pub iterations : ℕ
  pub memory : ℕ
  pub parallelism : ℕ

pub record ClevisBind : Type 0 where
  pub pin : String
  pub policy : String
  pub remove_passphrase : Bool

-- The fields of a `LUKSContainer` but for its payload.
pub record LuksHeader : Type 0 where
  pub passphrase : String
  pub uuid : String
  pub cipher : String
  pub label : String
  pub subsystem : String
  pub sector_size : ℕ
  pub pbkdf : Argon2id
  pub clevis : Option ClevisBind

mutual
  pub data Payload : Type 0 where
    no_payload : Payload
    filesystem : Filesystem → Payload
    swap : Swap → Payload
    raw : Raw → Payload
    btrfs : Btrfs → Payload
    volume_group : (name description : String) → LogicalVolumes → Payload
    luks : LuksHeader → Payload → Payload

  -- `[]LVMLogicalVolume`: the name, size and payload of the first volume, and the others.
  pub data LogicalVolumes : Type 0 where
    no_volumes : LogicalVolumes
    volume : (name : String) (size : ℕ) → Payload → LogicalVolumes → LogicalVolumes

pub record Partition : Type 0 where
  pub start : ℕ
  pub size : ℕ
  pub type : String
  pub bootable : Bool
  pub uuid : String
  pub label : String
  pub payload : Payload
  pub attrs : List ℕ

pub record PartitionTable : Type 0 where
  pub size : ℕ
  pub uuid : String
  pub type : PartitionTableType
  pub partitions : List Partition
  pub grain_size : ℕ
  pub sector_size : ℕ
  pub extra_padding : ℕ
  pub start_offset : ℕ
  pub absolute_start_offset : Bool
  pub policy : Option PartitionTablePolicy

-- The Go zero value of the options that the code never sets.
abbrev pub no_mkfs_options : MkfsOptions
no_mkfs_options = record { verity = Bool.false; geometry = none; agcount = 0 }
