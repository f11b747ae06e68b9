-- ===== src/Disk/Resize/Fits.antt =====
-- Resizing a branch keeps every container large enough for its contents.
use image_builder.Prelude.{
  ℕ, zero, suc, ◌+◌, ◌≤◌, ◌<◌, ◌≡◌, refl, String, Option, none, some, List, [], ◌∷◌, arith, ltb,
  Bool-cases, inl, inr, ◌⊎◌, All,
}
use image_builder.Word.{u64_mod}
use image_builder.Disk.Align.{lvm_default_extent_size}
use image_builder.Disk.Align.Rounding.{align_extent-IsRoundedUp}
use image_builder.Disk.Entities.{
  Payload, no_payload, filesystem, swap, raw, btrfs, volume_group, luks, LogicalVolumes, no_volumes,
  volume, Partition, PartitionTable,
}
use image_builder.Disk.Paths.{EntityPath, entity_path}
use image_builder.Disk.Sizes.Totals.{need}
use image_builder.Disk.Resize.{
  ensure_volume, resize_payload, resize_volumes, ensure_partition, resize_partition,
  resize_partitions, resize_table, resize_entity_branch,
}
use image_builder.Disk.Resize.Ends.{EndsPartitions, path_partitions-EndsPartitions}
use image_builder.Disk.Resize.Passes.{
  Ends, EndsVolumes, weight, weight_volumes, Passes, payload-Passes,
}

-- Each logical volume in the payload has room for what it contains, at every depth.
abbrev mutual
  pub FitsPayload : Payload → Type 0
  FitsPayload (volume_group n d lvs) = FitsVolumes lvs
  FitsPayload (luks header p) = FitsPayload p
  FitsPayload no_payload = Unit
  FitsPayload (filesystem fs) = Unit
  FitsPayload (swap s) = Unit
  FitsPayload (raw r) = Unit
  FitsPayload (btrfs b) = Unit

  pub FitsVolumes : LogicalVolumes → Type 0
  FitsVolumes no_volumes = Unit
  FitsVolumes (volume n size p lvs) = (need p ≤ size) × FitsPayload p × FitsVolumes lvs

-- The partition has room for its payload.
abbrev pub Fits : Partition → Type 0
Fits part = (need part.payload ≤ part.size) × FitsPayload part.payload

-- What the volume's contents need is covered by the size from below, or by the volume already.
abbrev Covers : (need_after bound s : ℕ) → Option ℕ → Type 0
Covers after bound s none = after ≤ s
Covers after bound s (some u) = (u ≤ bound) × ((after ≤ u) ⊎ (after ≤ s))

ensure_volume_fits :
    (n : String) (s : ℕ) (p : Payload) (lvs : LogicalVolumes) (bound : ℕ) (up : Option ℕ)
    → bound + lvm_default_extent_size < u64_mod
    → Covers (need p) bound s up
    → FitsPayload p
    → FitsVolumes lvs
    → FitsVolumes (ensure_volume n s p lvs up).0
unfolding ensure_volume
ensure_volume_fits n s p lvs bound none h c fp fl = (c, fp, fl)
ensure_volume_fits n s p lvs bound (some u) h c fp fl = elim (Bool-cases (ltb s u)) [
  | inl larger ↦
      rw larger (ground (arith, c, align_extent-IsRoundedUp u (omega (arith, c))), fp, fl)
  | inr kept ↦ rw kept (ground (arith, c, kept), fp, fl)
]

Passes-Covers :
    (before after weight size bound s : ℕ) (up : Option ℕ)
    → before ≤ s
    → weight + size ≤ bound
    → Passes before after weight size up
    → Covers after bound s up
Passes-Covers before after weight size bound s none h k p = omega (arith, p)
Passes-Covers before after weight size bound s (some u) h k p = (omega (arith, p), inl p.0)

mutual
  unfolding resize_payload

  payload_fits :
      (p : Payload) (path : EntityPath) (size : ℕ)
      → weight p + size < u64_mod
      → Ends p path
      → FitsPayload p
      → FitsPayload (resize_payload p path size).0
  payload_fits (volume_group n d lvs) (i ∷ path) size h e f =
      volumes_fit lvs i path size (omega arith) e f
  payload_fits (luks header p) (i ∷ path) size h e f = payload_fits p path size (omega arith) e f
  payload_fits (btrfs b) (i ∷ path) size h e f = tt
  payload_fits p _ size h e f = f

  volumes_fit :
      (lvs : LogicalVolumes) (i : ℕ) (path : EntityPath) (size : ℕ)
      → weight_volumes lvs + size < u64_mod
      → EndsVolumes lvs i path
      → FitsVolumes lvs
      → FitsVolumes (resize_volumes lvs i path size).0
  volumes_fit no_volumes i path size h e f = absurd e
  volumes_fit (volume n s p lvs) zero [] size h e f =
      ensure_volume_fits n s p lvs size (some size) (omega arith) (omega arith, inr f.0) f.1 f.2
  volumes_fit (volume n s p lvs) zero (j ∷ path) size h e f =
      ensure_volume_fits n s (resize_payload p path size).0 lvs (weight p + size)
        (resize_payload p path size).1 (omega arith)
        (Passes-Covers (need p) _ (weight p) size _ s _ f.0 (omega arith)
          (payload-Passes p path size (omega arith) e))
        (payload_fits p path size (omega arith) e f.1) f.2
  volumes_fit (volume n s p lvs) (suc i) path size h e f =
      (f.0, f.1, volumes_fit lvs i path size (omega arith) e f.2)

ensure_partition-Fits :
    (part : Partition) (p : Payload) (weight size : ℕ) (up : Option ℕ)
    → need part.payload ≤ part.size
    → Passes (need part.payload) (need p) weight size up
    → FitsPayload p
    → Fits (ensure_partition (record part { payload = p }) up).0
unfolding ensure_partition
ensure_partition-Fits part p weight size none h k f = (omega (arith, k), f)
ensure_partition-Fits part p weight size (some u) h k f = elim (Bool-cases (ltb part.size u)) [
  | inl larger ↦ rw larger (k.0, f)
  | inr kept ↦ rw kept (ground (arith, k, kept), f)
]

resize_partition-Fits :
    (part : Partition) (path : EntityPath) (size : ℕ)
    → weight part.payload + size < u64_mod
    → EndsPartitions (part ∷ []) (zero ∷ path)
    → Fits part
    → Fits (resize_partition part path size).0
unfolding resize_partition
resize_partition-Fits part [] size h e f = elim (Bool-cases (ltb part.size size)) [
  | inl larger ↦ rw larger (ground (arith, larger, f), f.1)
  | inr kept ↦ rw kept f
]
resize_partition-Fits part (j ∷ path) size h e f =
    ensure_partition-Fits part (resize_payload part.payload path size).0 (weight part.payload) size
      (resize_payload part.payload path size).1 f.0 (payload-Passes part.payload path size h e)
      (payload_fits part.payload path size h e f.1)

-- No size wraps around while a branch is resized to `size`.
abbrev pub HasRoom : ℕ → Partition → Type 0
HasRoom size part = weight part.payload + size < u64_mod

resize_partitions-Fits :
    (parts : List Partition) (path : EntityPath) (size : ℕ)
    → All (HasRoom size) parts
    → EndsPartitions parts path
    → All Fits parts
    → All Fits (resize_partitions parts path size).0
unfolding resize_partitions
resize_partitions-Fits [] path size h e f = f
resize_partitions-Fits (part ∷ parts) [] size h e f = f
resize_partitions-Fits (part ∷ parts) (zero ∷ []) size h e f =
    (resize_partition-Fits part [] size h.0 tt f.0, f.1)
resize_partitions-Fits (part ∷ parts) (zero ∷ j ∷ path) size h e f =
    (resize_partition-Fits part (j ∷ path) size h.0 e f.0, f.1)
resize_partitions-Fits (part ∷ parts) (suc i ∷ path) size h e f =
    (f.0, resize_partitions-Fits parts (i ∷ path) size h.1 e f.1)

pub partitions-resize_table :
    (pt : PartitionTable) (up : Option ℕ) → (resize_table pt up).partitions ≡ pt.partitions
unfolding resize_table
partitions-resize_table pt none = refl
partitions-resize_table pt (some s) = ground arith

-- Where every partition and every logical volume has room for what it contains, it has room after
-- the branch of a mountpoint is resized too, provided that the sizes together fit 64 bits.
pub resize_entity_branch-Fits :
    (pt : PartitionTable) (target : String) (path : EntityPath) (size : ℕ)
    → entity_path pt target ≡ some path
    → All (HasRoom size) pt.partitions
    → All Fits pt.partitions
    → All Fits (resize_entity_branch pt path size).partitions
unfolding resize_entity_branch entity_path
resize_entity_branch-Fits pt target path size e h f =
    let (parts, up) = resize_partitions pt.partitions path size in
    rw (partitions-resize_table (record pt { partitions = parts }) up) (
      resize_partitions-Fits pt.partitions path size h
        (path_partitions-EndsPartitions pt.partitions target path e) f)
