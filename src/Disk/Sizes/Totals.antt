-- ===== src/Disk/Sizes/Totals.antt =====
-- Sums that do not wrap around, and the room that a payload needs.
use image_builder.Prelude.{ℕ, ◌+◌, ◌≤◌, ◌<◌, ◌≡◌, refl, Option, none, some, List, [], ◌∷◌, arith}
use image_builder.Word.{u64_mod, add64, add64-eq}
use image_builder.Disk.Align.{align_extent, lvm_default_extent_size}
use image_builder.Disk.Align.Rounding.{align_extent-IsRoundedUp}
use image_builder.Disk.Entities.{
  Payload, no_payload, filesystem, swap, raw, btrfs, volume_group, luks, LuksHeader,
}
use image_builder.Disk.Sizes.{
  sum64, volume_sizes, subvolume_sizes, vg_metadata_size, luks_metadata_size, at_least, min_size,
  fitted_size,
}

unfoldable pub total : List ℕ → ℕ
total [] = 0
total (x ∷ xs) = x + total xs

pub sum64-eq-total :
    (acc : ℕ) (xs : List ℕ) → acc + total xs < u64_mod → sum64 acc xs ≡ acc + total xs
unfolding sum64 total
sum64-eq-total acc [] h = omega arith
sum64-eq-total acc (x ∷ xs) h =
    rw (add64-eq acc x (omega arith)) (omega (arith, sum64-eq-total (acc + x) xs (omega arith)))

pub sum64-eq : (xs : List ℕ) → total xs < u64_mod → sum64 0 xs ≡ total xs
sum64-eq xs h = omega (arith, sum64-eq-total 0 xs (omega arith))

-- The room that the contents of a payload need: the sizes of the volumes and the metadata.
abbrev pub need : Payload → ℕ
need (btrfs b) = total (subvolume_sizes b.subvolumes)
need (volume_group n d lvs) = total (volume_sizes lvs) + vg_metadata_size
need (luks header p) = need p + luks_metadata_size
need no_payload = 0
need (filesystem fs) = 0
need (swap s) = 0
need (raw r) = 0

-- What is known of the result of `minSize`.
abbrev InRange : Payload → ℕ → Option ℕ → Type 0
InRange p size none = need p ≡ 0
InRange p size (some m) = (need p ≤ m) × (m ≤ need p + size + lvm_default_extent_size)

luks_range :
    (header : LuksHeader) (p : Payload) (size : ℕ) (m : Option ℕ)
    → need (luks header p) + size + lvm_default_extent_size < u64_mod
    → InRange p size m
    → InRange
        (luks header p)
        size
        (elim m [ none ↦ some luks_metadata_size | some n ↦ some (add64 luks_metadata_size n) ])
luks_range header p size none h k = omega (arith, k)
luks_range header p size (some m) h k =
    omega (arith, k, add64-eq luks_metadata_size m (omega (arith, k)))

group_range :
    (sum metadata size need : ℕ)
    → sum ≡ need
    → need + metadata + size + lvm_default_extent_size < u64_mod
    → (need + metadata ≤ align_extent (at_least (add64 sum metadata) size))
      × (align_extent (at_least (add64 sum metadata) size)
          ≤ need + metadata + size + lvm_default_extent_size)
unfolding at_least
group_range sum metadata size need e h =
    let r = at_least (add64 sum metadata) size in
    ground (arith, add64-eq sum metadata, align_extent-IsRoundedUp r)

min_size-InRange :
    (p : Payload) (size : ℕ)
    → need p + size + lvm_default_extent_size < u64_mod
    → InRange p size (min_size p size)
unfolding min_size
min_size-InRange (btrfs b) size h =
    let sum = sum64 0 (subvolume_sizes b.subvolumes) in
    unfold at_least in ground (arith, add64-eq sum 0, sum64-eq (subvolume_sizes b.subvolumes))
min_size-InRange (volume_group n d lvs) size h =
    group_range (sum64 0 (volume_sizes lvs)) vg_metadata_size size (total (volume_sizes lvs))
      (sum64-eq (volume_sizes lvs) (omega arith)) (omega arith)
min_size-InRange (luks header p) size h =
    luks_range header p size (min_size p size) h (min_size-InRange p size (omega arith))
min_size-InRange no_payload size h = refl
min_size-InRange (filesystem fs) size h = refl
min_size-InRange (swap s) size h = refl
min_size-InRange (raw r) size h = refl

fitted_range :
    (p : Payload) (size : ℕ) (m : Option ℕ)
    → InRange p size m
    → (need p ≤ elim m [ none ↦ size | some n ↦ at_least n size ])
      × (size ≤ elim m [ none ↦ size | some n ↦ at_least n size ])
      × (elim m [ none ↦ size | some n ↦ at_least n size ]
          ≤ need p + size + lvm_default_extent_size)
unfolding at_least
fitted_range p size none h = ground arith
fitted_range p size (some m) h = ground arith

-- `fitTo` makes a partition at least as large as asked for and as its contents need, and larger
-- than their sum by at most one extent, provided that the need, the size and one extent together are less
-- than 2^64.
pub fitted_size_bounds :
    (p : Payload) (size : ℕ)
    → need p + size + lvm_default_extent_size < u64_mod
    → (need p ≤ fitted_size p size)
      × (size ≤ fitted_size p size)
      × (fitted_size p size ≤ need p + size + lvm_default_extent_size)
unfolding fitted_size
fitted_size_bounds p size h = fitted_range p size (min_size p size) (min_size-InRange p size h)
