-- ===== src/Disk/Align.antt =====
-- Sizes of pkg/disk: the constants, the sector and header arithmetic of `PartitionTable`, and the
-- two roundings, to the grain of a partition table and to the extent of a volume group.
pub mod Rounding
use image_builder.Prelude.{ℕ, ◌-◌, ◌*◌, ◌/◌, ◌%◌, ltb, ◌==◌, if◌then◌else◌, length}
use image_builder.Word.{add64, sub64, mul64}
use image_builder.Disk.Entities.{PartitionTable, pt_dos}

abbrev pub mib : ℕ
mib = 1024 * 1024

abbrev pub gib : ℕ
gib = 1024 * 1024 * 1024

abbrev pub default_sector_size : ℕ
default_sector_size = 512

abbrev pub default_grain_bytes : ℕ
default_grain_bytes = 1048576

abbrev pub lvm_default_extent_size : ℕ
lvm_default_extent_size = 4 * mib

unfoldable pub grain_size : PartitionTable → ℕ
grain_size pt = if ltb 0 pt.grain_size then pt.grain_size else default_grain_bytes

-- `AlignUp` at a given grain.
unfoldable pub align_to : ℕ → ℕ → ℕ
align_to grain size = if size % grain == 0 then size else add64 (sub64 size (size % grain)) grain

unfoldable pub align_up : PartitionTable → ℕ → ℕ
align_up pt size = align_to (grain_size pt) size

-- `alignUp` of lvm.go
unfoldable pub align_extent : ℕ → ℕ
align_extent size =
    if size % lvm_default_extent_size == 0
    then size
    else add64 size (lvm_default_extent_size - size % lvm_default_extent_size)

unfoldable pub sector_bytes : PartitionTable → ℕ
sector_bytes pt = if pt.sector_size == 0 then default_sector_size else pt.sector_size

unfoldable pub bytes_to_sectors : PartitionTable → ℕ → ℕ
unfolding sector_bytes
bytes_to_sectors pt size = size / sector_bytes pt

unfoldable pub sectors_to_bytes : PartitionTable → ℕ → ℕ
unfolding sector_bytes
sectors_to_bytes pt size = mul64 size (sector_bytes pt)

-- One sector, and on a table that is not DOS room for at least 128 entries of 128 bytes.
unfoldable pub header_size : PartitionTable → ℕ
unfolding sectors_to_bytes
header_size pt = elim pt.type [
  | pt_dos ↦ sectors_to_bytes pt 1
  | _ ↦
      let parts = length pt.partitions in
      add64 (sectors_to_bytes pt 1) (mul64 (if ltb parts 128 then 128 else parts) 128)
]
