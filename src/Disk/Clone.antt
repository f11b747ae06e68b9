-- ===== src/Disk/Clone.antt =====
-- `Clone` of every entity. A nil payload of a partition is kept; the code calls `Clone` on a nil
-- payload of a logical volume or a LUKS container, which panics.
pub mod Copies
use mathlib.Core.Option
use image_builder.Prelude.{String, Bool, false, Option, none, some, List, [], ◌∷◌, map}
use image_builder.Prelude.Result.{Result, ok, err, panic, ◌>>=◌}
use image_builder.Disk.Errors.{Error}
use image_builder.Disk.Entities.{
  MkfsOptionGeometry, MkfsOptions, Filesystem, Swap, Raw, BtrfsSubvolume, Btrfs, ClevisBind,
  LuksHeader, Payload, no_payload, filesystem, swap, raw, btrfs, volume_group, luks, LogicalVolumes,
  no_volumes, volume, Partition, PartitionTablePolicy, PartitionTable,
}

unfoldable pub clone_mkfs_options : MkfsOptions → MkfsOptions
clone_mkfs_options opts = record opts {
  geometry =
      Option.map
        (λ (g : MkfsOptionGeometry). record {
          heads = g.heads;
          sectors_per_track = g.sectors_per_track;
        })
        opts.geometry;
}

unfoldable pub clone_filesystem : Filesystem → Filesystem
unfolding clone_mkfs_options
clone_filesystem fs = record {
  type = fs.type;
  uuid = fs.uuid;
  label = fs.label;
  mountpoint = fs.mountpoint;
  fstab_options = fs.fstab_options;
  fstab_freq = fs.fstab_freq;
  fstab_pass_no = fs.fstab_pass_no;
  mkfs_options = clone_mkfs_options fs.mkfs_options;
}

unfoldable pub clone_swap : Swap → Swap
clone_swap s = record { uuid = s.uuid; label = s.label; fstab_options = s.fstab_options }

unfoldable pub clone_raw : Raw → Raw
clone_raw r = record { source_path = r.source_path }

-- The clone's literal has no `ReadOnly`, which is false there.
unfoldable pub clone_subvolume : BtrfsSubvolume → BtrfsSubvolume
clone_subvolume bs = record {
  name = bs.name;
  size = bs.size;
  mountpoint = bs.mountpoint;
  group_id = bs.group_id;
  compress = bs.compress;
  read_only = false;
  uuid = bs.uuid;
}

unfoldable pub clone_btrfs : Btrfs → Btrfs
unfolding clone_subvolume
clone_btrfs b = record {
  uuid = b.uuid;
  label = b.label;
  mountpoint = b.mountpoint;
  subvolumes = map clone_subvolume b.subvolumes;
}

unfoldable pub clone_luks_header : LuksHeader → LuksHeader
clone_luks_header lc = record {
  passphrase = lc.passphrase;
  uuid = lc.uuid;
  cipher = lc.cipher;
  label = lc.label;
  subsystem = lc.subsystem;
  sector_size = lc.sector_size;
  pbkdf = record {
    iterations = lc.pbkdf.iterations;
    memory = lc.pbkdf.memory;
    parallelism = lc.pbkdf.parallelism;
  };
  clevis =
      Option.map
        (λ (c : ClevisBind). record {
          pin = c.pin;
          policy = c.policy;
          remove_passphrase = c.remove_passphrase;
        })
        lc.clevis;
}

unfoldable mutual
  unfolding clone_filesystem clone_swap clone_raw clone_btrfs clone_luks_header

  -- `lv.Payload.Clone()`, a panic on nil
  pub clone_payload : Payload → Result Error Payload
  clone_payload no_payload = panic
  clone_payload (filesystem fs) = ok (filesystem (clone_filesystem fs))
  clone_payload (swap s) = ok (swap (clone_swap s))
  clone_payload (raw r) = ok (raw (clone_raw r))
  clone_payload (btrfs b) = ok (btrfs (clone_btrfs b))
  clone_payload (volume_group n d lvs) = clone_volumes lvs >>= λ lvs'. ok (volume_group n d lvs')
  clone_payload (luks header p) = clone_payload p >>= λ p'. ok (luks (clone_luks_header header) p')

  pub clone_volumes : LogicalVolumes → Result Error LogicalVolumes
  clone_volumes no_volumes = ok no_volumes
  clone_volumes (volume n s p lvs) =
      clone_payload p >>= λ p'. clone_volumes lvs >>= λ lvs'. ok (volume n s p' lvs')

-- `if p.Payload != nil { partition.Payload = p.Payload.Clone() }`
unfoldable pub clone_if_set : Payload → Result Error Payload
unfolding clone_payload
clone_if_set no_payload = ok no_payload
clone_if_set p = clone_payload p

unfoldable pub clone_partition : Partition → Result Error Partition
unfolding clone_if_set
clone_partition p = clone_if_set p.payload >>= λ payload'. ok (record {
  start = p.start;
  size = p.size;
  type = p.type;
  bootable = p.bootable;
  uuid = p.uuid;
  label = p.label;
  payload = payload';
  attrs = p.attrs;
})

unfoldable pub clone_partitions : List Partition → Result Error (List Partition)
unfolding clone_partition
clone_partitions [] = ok []
clone_partitions (p ∷ ps) = clone_partition p >>= λ p'. clone_partitions ps >>= λ ps'. ok (p' ∷ ps')

unfoldable pub clone_policy : PartitionTablePolicy → PartitionTablePolicy
clone_policy p = record {
  ensure_xbootldr = p.ensure_xbootldr;
  grow_root_to_fill_disk = Option.map (λ (b : Bool). b) p.grow_root_to_fill_disk;
}

unfoldable pub clone_table : PartitionTable → Result Error PartitionTable
unfolding clone_partitions clone_policy
clone_table pt = clone_partitions pt.partitions >>= λ partitions'. ok (record {
  size = pt.size;
  uuid = pt.uuid;
  type = pt.type;
  partitions = partitions';
  grain_size = pt.grain_size;
  sector_size = pt.sector_size;
  extra_padding = pt.extra_padding;
  start_offset = pt.start_offset;
  absolute_start_offset = pt.absolute_start_offset;
  policy = Option.map clone_policy pt.policy;
})
