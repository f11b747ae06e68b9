-- ===== src/Disk/Align/Rounding.antt =====
-- Rounding up: to the grain of a partition table and to the extent of a volume group.
use native.Mathlib.Nat.{mod-lt, div-add-mod, add-mod_right, mul-mod_right}
use image_builder.Prelude.{
  ℕ, ◌+◌, ◌-◌, ◌*◌, ◌/◌, ◌%◌, ◌≤◌, ◌<◌, ◌≡◌, ap, ◌∙◌, arith, ◌==◌, if◌then◌else◌,
}
use image_builder.Word.{u64_mod, add64-eq, sub64-eq}
use image_builder.Disk.Entities.{PartitionTable}
use image_builder.Disk.Align.{grain_size, align_to, align_up, align_extent, lvm_default_extent_size}

-- `r` is the least multiple of `grain` that is not below `size`.
pub record IsRoundedUp (grain size r : ℕ) : Type 0 where
  pub multiple : r % grain ≡ 0
  pub above : size ≤ r
  pub least : r < size + grain

whole_grains : (grain size : ℕ) → size - size % grain ≡ grain * (size / grain)
whole_grains grain size = omega (arith, div-add-mod size grain)

next_multiple : (grain size : ℕ) → (size - size % grain + grain) % grain ≡ 0
next_multiple grain size =
    add-mod_right (size - size % grain) grain
    ∙ ap (λ (n : ℕ). n % grain) (whole_grains grain size)
    ∙ mul-mod_right grain (size / grain)

align_to-eq :
    (grain size : ℕ)
    → 0 < grain
    → size + grain < u64_mod
    → align_to grain size ≡ (if size % grain == 0 then size else size - size % grain + grain)
unfolding align_to
align_to-eq grain size h k =
    ground
      (arith, mod-lt size h, sub64-eq size (size % grain), add64-eq (size - size % grain) grain)

pub align_to-IsRoundedUp :
    (grain size : ℕ)
    → 0 < grain
    → size + grain < u64_mod
    → IsRoundedUp grain size (align_to grain size)
align_to-IsRoundedUp grain size h k =
    rw (align_to-eq grain size h k)
      (ground (arith, next_multiple grain size, mod-lt size h, div-add-mod size grain))

pub grain_size-pos : (pt : PartitionTable) → 0 < grain_size pt
unfolding grain_size
grain_size-pos pt = ground arith

-- `AlignUp` of a partition table rounds up to the table's grain, and to one MiB where the table
-- sets none, provided that the rounded size fits 64 bits.
pub align_up-IsRoundedUp :
    (pt : PartitionTable) (size : ℕ)
    → size + grain_size pt < u64_mod
    → IsRoundedUp (grain_size pt) size (align_up pt size)
unfolding align_up
align_up-IsRoundedUp pt size h = align_to-IsRoundedUp (grain_size pt) size (grain_size-pos pt) h

-- `alignUp` of lvm.go rounds up to the extent of four MiB, provided that the size and one extent together
-- are less than 2^64.
pub align_extent-IsRoundedUp :
    (size : ℕ)
    → size + lvm_default_extent_size < u64_mod
    → IsRoundedUp lvm_default_extent_size size (align_extent size)
unfolding align_extent
align_extent-IsRoundedUp size h =
    ground (arith, add64-eq size (lvm_default_extent_size - size % lvm_default_extent_size))

-- A size that is rounded up already stays as it is.
pub align_up-align_up :
    (pt : PartitionTable) (size : ℕ)
    → size + grain_size pt < u64_mod
    → align_up pt (align_up pt size) ≡ align_up pt size
unfolding align_up align_to
align_up-align_up pt size h = ground (arith, (align_up-IsRoundedUp pt size h).multiple)
