-- ===== src/Disk/Resize/Passes.antt =====
-- The sizes that the entities of a branch pass up while it is resized: they cover the contents and
-- the size asked for, and nothing wraps around where the sizes together stay below 2^64.
use mathlib.Core.Option
use image_builder.Prelude.{
  ℕ, zero, suc, ◌+◌, ◌≤◌, ◌<◌, ◌≡◌, refl, String, Option, none, some, List, [], ◌∷◌, arith, ltb,
  length, Bool-cases, inl, inr,
}
use image_builder.Word.{u64_mod, add64, add64-eq}
use image_builder.Disk.Align.{lvm_default_extent_size}
use image_builder.Disk.Align.Rounding.{align_extent-IsRoundedUp}
use image_builder.Disk.Entities.{
  BtrfsSubvolume, Btrfs, LuksHeader, Filesystem, Payload, no_payload, filesystem, swap, raw, btrfs,
  volume_group, luks, LogicalVolumes, no_volumes, volume,
}
use image_builder.Disk.Paths.{EntityPath}
use image_builder.Disk.Sizes.{
  sum64, volume_sizes, subvolume_sizes, vg_metadata_size, luks_metadata_size, at_least,
}
use image_builder.Disk.Sizes.Totals.{total, sum64-eq, need}
use image_builder.Disk.Resize.{
  container_size, resize_container, resize_subvolumes, ensure_volume, resize_payload,
  resize_volumes,
}

-- The path leads to a mountable or a logical volume.
abbrev mutual
  pub Ends : Payload → EntityPath → Type 0
  Ends (luks header p) (i ∷ path) = Ends p path
  Ends (volume_group n d lvs) (i ∷ path) = EndsVolumes lvs i path
  Ends (btrfs b) (i ∷ path) = i < length b.subvolumes
  Ends (filesystem fs) path = Unit
  Ends _ _ = ⊥

  pub EndsVolumes : LogicalVolumes → ℕ → EntityPath → Type 0
  EndsVolumes no_volumes i path = ⊥
  EndsVolumes (volume n size p lvs) zero [] = Unit
  EndsVolumes (volume n size p lvs) zero (j ∷ path) = Ends p path
  EndsVolumes (volume n size p lvs) (suc i) path = EndsVolumes lvs i path

-- A bound for all sizes in a payload, with room to round each volume up.
abbrev mutual
  pub weight : Payload → ℕ
  weight (volume_group n d lvs) = weight_volumes lvs + vg_metadata_size
  weight (luks header p) = weight p + luks_metadata_size
  weight (btrfs b) = total (subvolume_sizes b.subvolumes)
  weight no_payload = 0
  weight (filesystem fs) = 0
  weight (swap s) = 0
  weight (raw r) = 0

  pub weight_volumes : LogicalVolumes → ℕ
  weight_volumes no_volumes = 0
  weight_volumes (volume n size p lvs) =
      size + lvm_default_extent_size + weight p + weight_volumes lvs

-- What a container knows of the size that comes up from below, where `bound` is its weight, and
-- `before` and `after` are the needs of its contents.
abbrev pub Passes : (before after bound size : ℕ) → Option ℕ → Type 0
Passes before after bound size none = after ≡ before
Passes before after bound size (some s) = (after ≤ s) × (size ≤ s) × (s ≤ bound + size)

-- The same of a slice of volumes, whose sizes are summed up by the container.
abbrev PassesSum : (before after bound size : ℕ) → Option ℕ → Type 0
PassesSum before after bound size none = after ≡ before
PassesSum before after bound size (some s) =
    (after ≤ bound + size) × (size ≤ s) × (s ≤ bound + size)

container-Passes :
    (metadata before bound size : ℕ) (xs : List ℕ) (up : Option ℕ)
    → bound + metadata + size < u64_mod
    → PassesSum before (total xs) bound size up
    → Passes
        (before + metadata)
        (total xs + metadata)
        (bound + metadata)
        size
        (Option.map (λ s. at_least (add64 (container_size (sum64 0 xs) s) metadata) s) up)
container-Passes metadata before bound size xs none h p = omega (arith, p)
container-Passes metadata before bound size xs (some s) h p =
    let c = container_size (sum64 0 xs) s in
    unfold container_size at_least in ground (arith, p, sum64-eq xs, add64-eq c metadata)

PassesSum-cons :
    (x before after bound bound' size : ℕ) (up : Option ℕ)
    → x + bound ≤ bound'
    → PassesSum before after bound size up
    → PassesSum (x + before) (x + after) bound' size up
PassesSum-cons x before after bound bound' size none k h = omega (arith, h)
PassesSum-cons x before after bound bound' size (some s) k h = omega (arith, h)

total-le-weight : (lvs : LogicalVolumes) → total (volume_sizes lvs) ≤ weight_volumes lvs
unfolding total
total-le-weight no_volumes = omega arith
total-le-weight (volume n size p lvs) = omega (arith, total-le-weight lvs)

subvolumes_pass :
    (svs : List BtrfsSubvolume) (i size : ℕ)
    → PassesSum
        (total (subvolume_sizes svs))
        (total (subvolume_sizes (resize_subvolumes svs i size).0))
        (total (subvolume_sizes svs))
        size
        (resize_subvolumes svs i size).1
unfolding resize_subvolumes total
subvolumes_pass [] i size = refl
subvolumes_pass (sv ∷ svs) zero size = elim (Bool-cases (ltb sv.size size)) [
  | inl larger ↦ rw larger (omega arith)
  | inr kept ↦ rw kept refl
]
subvolumes_pass (sv ∷ svs) (suc i) size =
    PassesSum-cons sv.size (total (subvolume_sizes svs)) _ (total (subvolume_sizes svs)) _ size
      (resize_subvolumes svs i size).1 (omega arith) (subvolumes_pass svs i size)

abbrev IsBounded : (bound size : ℕ) → Option ℕ → Type 0
IsBounded bound size none = Unit
IsBounded bound size (some s) = (size ≤ s) × (s ≤ bound + size)

Passes-IsBounded :
    (before after bound size : ℕ) (up : Option ℕ)
    → Passes before after bound size up
    → IsBounded bound size up
Passes-IsBounded before after bound size none h = tt
Passes-IsBounded before after bound size (some s) h = (h.1, h.2)

ensure_volume_passes :
    (n : String) (s : ℕ) (p : Payload) (lvs : LogicalVolumes) (bound size : ℕ) (up : Option ℕ)
    → s + lvm_default_extent_size + bound + weight_volumes lvs + size < u64_mod
    → IsBounded bound size up
    → PassesSum
        (s + total (volume_sizes lvs))
        (total (volume_sizes (ensure_volume n s p lvs up).0))
        (s + lvm_default_extent_size + bound + weight_volumes lvs)
        size
        (ensure_volume n s p lvs up).1
unfolding ensure_volume total
ensure_volume_passes n s p lvs bound size none h k = refl
ensure_volume_passes n s p lvs bound size (some u) h k = elim (Bool-cases (ltb s u)) [
  | inl larger ↦
      rw larger
        (omega (arith, k, align_extent-IsRoundedUp u (omega (arith, k)), total-le-weight lvs))
  | inr kept ↦ rw kept refl
]

subvolumes_container :
    (b : Btrfs) (before bound size : ℕ) (up : Option ℕ)
    → bound + size < u64_mod
    → PassesSum before (total (subvolume_sizes b.subvolumes)) bound size up
    → Passes before (need (btrfs b)) bound size (Option.map (resize_container (btrfs b)) up)
unfolding resize_container
subvolumes_container b before bound size none h k = k
subvolumes_container b before bound size (some s) h k =
    let c = container_size (sum64 0 (subvolume_sizes b.subvolumes)) s in
    ground (arith, k, sum64-eq (subvolume_sizes b.subvolumes), add64-eq c 0)

volumes_container :
    (n d : String) (lvs : LogicalVolumes) (before bound size : ℕ) (up : Option ℕ)
    → bound + vg_metadata_size + size < u64_mod
    → PassesSum before (total (volume_sizes lvs)) bound size up
    → Passes
        (before + vg_metadata_size)
        (need (volume_group n d lvs))
        (bound + vg_metadata_size)
        size
        (Option.map (resize_container (volume_group n d lvs)) up)
unfolding resize_container
volumes_container n d lvs before bound size none h k = omega (arith, k)
volumes_container n d lvs before bound size (some s) h k =
    container-Passes vg_metadata_size before bound size (volume_sizes lvs) (some s) h k

luks_container :
    (header : LuksHeader) (p : Payload) (before bound size : ℕ) (up : Option ℕ)
    → bound + luks_metadata_size + size < u64_mod
    → Passes before (need p) bound size up
    → Passes
        (before + luks_metadata_size)
        (need (luks header p))
        (bound + luks_metadata_size)
        size
        (Option.map (resize_container (luks header p)) up)
unfolding resize_container
luks_container header p before bound size none h k = omega (arith, k)
luks_container header p before bound size (some s) h k =
    ground (arith, k, add64-eq s luks_metadata_size)

filesystem-Passes :
    (fs : Filesystem) (size : ℕ) → Passes 0 0 0 size (some (resize_container (filesystem fs) size))
unfolding resize_container
filesystem-Passes fs size = omega arith

mutual
  unfolding resize_payload total

  pub payload-Passes :
      (p : Payload) (path : EntityPath) (size : ℕ)
      → weight p + size < u64_mod
      → Ends p path
      → Passes
          (need p)
          (need (resize_payload p path size).0)
          (weight p)
          size
          (resize_payload p path size).1
  payload-Passes (btrfs b) (i ∷ path) size h e =
      subvolumes_container (record b { subvolumes = (resize_subvolumes b.subvolumes i size).0 }) _ _
        size (resize_subvolumes b.subvolumes i size).1 h (subvolumes_pass b.subvolumes i size)
  payload-Passes (volume_group n d lvs) (i ∷ path) size h e =
      volumes_container n d (resize_volumes lvs i path size).0 _ (weight_volumes lvs) size
        (resize_volumes lvs i path size).1 h (volumes_pass lvs i path size (omega arith) e)
  payload-Passes (luks header p) (i ∷ path) size h e =
      luks_container header (resize_payload p path size).0 _ (weight p) size
        (resize_payload p path size).1 h (payload-Passes p path size (omega arith) e)
  payload-Passes (filesystem fs) path size h e = filesystem-Passes fs size
  payload-Passes no_payload path size h e = absurd e
  payload-Passes (swap s) path size h e = absurd e
  payload-Passes (raw r) path size h e = absurd e
  payload-Passes (btrfs b) [] size h e = absurd e
  payload-Passes (volume_group n d lvs) [] size h e = absurd e
  payload-Passes (luks header p) [] size h e = absurd e

  volumes_pass :
      (lvs : LogicalVolumes) (i : ℕ) (path : EntityPath) (size : ℕ)
      → weight_volumes lvs + size < u64_mod
      → EndsVolumes lvs i path
      → PassesSum
          (total (volume_sizes lvs))
          (total (volume_sizes (resize_volumes lvs i path size).0))
          (weight_volumes lvs)
          size
          (resize_volumes lvs i path size).1
  volumes_pass no_volumes i path size h e = absurd e
  volumes_pass (volume n s p lvs) zero [] size h e =
      ensure_volume_passes n s p lvs (weight p) size (some size) h (omega arith)
  volumes_pass (volume n s p lvs) zero (j ∷ path) size h e =
      ensure_volume_passes n s (resize_payload p path size).0 lvs (weight p) size
        (resize_payload p path size).1 h
        (Passes-IsBounded (need p) _ _ _ _ (payload-Passes p path size (omega arith) e))
  volumes_pass (volume n s p lvs) (suc i) path size h e =
      PassesSum-cons s (total (volume_sizes lvs)) _ (weight_volumes lvs) _ size
        (resize_volumes lvs i path size).1 (omega arith)
        (volumes_pass lvs i path size (omega arith) e)
