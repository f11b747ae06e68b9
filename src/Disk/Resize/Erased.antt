-- ===== src/Disk/Resize/Erased.antt =====
-- Resizing a branch changes sizes and nothing else.
use image_builder.Prelude.{
  ℕ, zero, suc, String, ◌≡◌, refl, ap, ◌∙◌, Option, none, some, List, [], ◌∷◌, map, ltb, Bool-cases,
  inl, inr,
}
use image_builder.Disk.Entities.{
  BtrfsSubvolume, Payload, btrfs, volume_group, luks, LogicalVolumes, no_volumes, volume, Partition,
  PartitionTable,
}
use image_builder.Disk.Paths.{EntityPath}
use image_builder.Disk.Sizes.{at_least, ensure_size, partition_sizes, sum64}
use image_builder.Disk.Resize.{
  container_size, resize_subvolumes, ensure_volume, resize_payload, resize_volumes,
  ensure_partition, resize_partition, resize_partitions, resize_table, resize_entity_branch,
}

abbrev pub sizeless_subvolume : BtrfsSubvolume → BtrfsSubvolume
sizeless_subvolume sv = record sv { size = 0 }

-- The payload with the sizes of all subvolumes and logical volumes left out.
unfoldable mutual
  pub sizeless : Payload → Payload
  sizeless (btrfs b) = btrfs (record b { subvolumes = map sizeless_subvolume b.subvolumes })
  sizeless (volume_group n d lvs) = volume_group n d (sizeless_volumes lvs)
  sizeless (luks header p) = luks header (sizeless p)
  sizeless p = p

  pub sizeless_volumes : LogicalVolumes → LogicalVolumes
  sizeless_volumes no_volumes = no_volumes
  sizeless_volumes (volume n s p lvs) = volume n 0 (sizeless p) (sizeless_volumes lvs)

unfoldable pub sizeless_partition : Partition → Partition
unfolding sizeless
sizeless_partition part = record part { size = 0; payload = sizeless part.payload }

-- The table with the sizes of all entities and its own left out.
unfoldable pub sizeless_table : PartitionTable → PartitionTable
unfolding sizeless_partition
sizeless_table pt = record pt { size = 0; partitions = map sizeless_partition pt.partitions }

sizeless-resize_subvolumes :
    (svs : List BtrfsSubvolume) (i size : ℕ)
    → map sizeless_subvolume (resize_subvolumes svs i size).0 ≡ map sizeless_subvolume svs
unfolding resize_subvolumes
sizeless-resize_subvolumes [] i size = refl
sizeless-resize_subvolumes (sv ∷ svs) zero size = elim (Bool-cases (ltb sv.size size)) [
  | inl larger ↦ rw larger refl
  | inr kept ↦ rw kept refl
]
sizeless-resize_subvolumes (sv ∷ svs) (suc i) size =
    ap (◌∷◌ (sizeless_subvolume sv)) (sizeless-resize_subvolumes svs i size)

sizeless-ensure_volume :
    (n : String) (s : ℕ) (p : Payload) (lvs : LogicalVolumes) (up : Option ℕ)
    → sizeless_volumes (ensure_volume n s p lvs up).0 ≡ sizeless_volumes (volume n s p lvs)
unfolding ensure_volume sizeless
sizeless-ensure_volume n s p lvs none = refl
sizeless-ensure_volume n s p lvs (some u) = elim (Bool-cases (ltb s u)) [
  | inl larger ↦ rw larger refl
  | inr kept ↦ rw kept refl
]

mutual
  unfolding resize_payload sizeless

  sizeless-resize_payload :
      (p : Payload) (path : EntityPath) (size : ℕ)
      → sizeless (resize_payload p path size).0 ≡ sizeless p
  sizeless-resize_payload (btrfs b) (i ∷ path) size =
      ap (λ svs. btrfs (record b { subvolumes = svs }))
        (sizeless-resize_subvolumes b.subvolumes i size)
  sizeless-resize_payload (volume_group n d lvs) (i ∷ path) size =
      ap (volume_group n d) (sizeless-resize_volumes lvs i path size)
  sizeless-resize_payload (luks header p) (i ∷ path) size =
      ap (luks header) (sizeless-resize_payload p path size)
  sizeless-resize_payload p _ size = refl

  sizeless-resize_volumes :
      (lvs : LogicalVolumes) (i : ℕ) (path : EntityPath) (size : ℕ)
      → sizeless_volumes (resize_volumes lvs i path size).0 ≡ sizeless_volumes lvs
  sizeless-resize_volumes no_volumes i path size = refl
  sizeless-resize_volumes (volume n s p lvs) zero [] size =
      sizeless-ensure_volume n s p lvs (some size)
  sizeless-resize_volumes (volume n s p lvs) zero (j ∷ path) size =
      sizeless-ensure_volume n s (resize_payload p path size).0 lvs (resize_payload p path size).1
      ∙ ap (λ q. volume n 0 q (sizeless_volumes lvs)) (sizeless-resize_payload p path size)
  sizeless-resize_volumes (volume n s p lvs) (suc i) path size =
      ap (volume n 0 (sizeless p)) (sizeless-resize_volumes lvs i path size)

sizeless-ensure_partition :
    (part : Partition) (up : Option ℕ)
    → sizeless_partition (ensure_partition part up).0 ≡ sizeless_partition part
unfolding ensure_partition sizeless_partition
sizeless-ensure_partition part none = refl
sizeless-ensure_partition part (some u) = elim (Bool-cases (ltb part.size u)) [
  | inl larger ↦ rw larger refl
  | inr kept ↦ rw kept refl
]

sizeless-resize_partition :
    (part : Partition) (path : EntityPath) (size : ℕ)
    → sizeless_partition (resize_partition part path size).0 ≡ sizeless_partition part
unfolding resize_partition sizeless_partition
sizeless-resize_partition part [] size = sizeless-ensure_partition part (some size)
sizeless-resize_partition part (j ∷ path) size =
    let (p, up) = resize_payload part.payload path size in
    sizeless-ensure_partition (record part { payload = p }) up
    ∙ ap (λ q. record part { size = 0; payload = q })
        (sizeless-resize_payload part.payload path size)

sizeless-resize_partitions :
    (parts : List Partition) (path : EntityPath) (size : ℕ)
    → map sizeless_partition (resize_partitions parts path size).0 ≡ map sizeless_partition parts
unfolding resize_partitions
sizeless-resize_partitions [] path size = refl
sizeless-resize_partitions (part ∷ parts) [] size = refl
sizeless-resize_partitions (part ∷ parts) (zero ∷ path) size =
    ap (λ first. first ∷ map sizeless_partition parts) (sizeless-resize_partition part path size)
sizeless-resize_partitions (part ∷ parts) (suc i ∷ path) size =
    ap (◌∷◌ (sizeless_partition part)) (sizeless-resize_partitions parts (i ∷ path) size)

sizeless-ensure_size :
    (pt : PartitionTable) (size : ℕ) → sizeless_table (ensure_size pt size) ≡ sizeless_table pt
unfolding ensure_size sizeless_table
sizeless-ensure_size pt size = elim (Bool-cases (ltb pt.size size)) [
  | inl larger ↦ rw larger refl
  | inr kept ↦ rw kept refl
]

sizeless-resize_table :
    (pt : PartitionTable) (up : Option ℕ) → sizeless_table (resize_table pt up) ≡ sizeless_table pt
unfolding resize_table sizeless_table
sizeless-resize_table pt none = refl
sizeless-resize_table pt (some s) =
    sizeless-ensure_size pt
      (at_least (container_size (sum64 0 (partition_sizes pt.partitions)) s) s)

-- But for the sizes of the table, its partitions, logical volumes and subvolumes, resizing a branch
-- changes nothing, whatever the sizes are: it adds, removes and moves no entity, mounted or not, and
-- keeps all that is not a size.
pub sizeless_table-resize_entity_branch :
    (pt : PartitionTable) (path : EntityPath) (size : ℕ)
    → sizeless_table (resize_entity_branch pt path size) ≡ sizeless_table pt
unfolding resize_entity_branch sizeless_table
sizeless_table-resize_entity_branch pt path size =
    let (parts, up) = resize_partitions pt.partitions path size in
    sizeless-resize_table (record pt { partitions = parts }) up
    ∙ ap (λ parts. record pt { size = 0; partitions = parts })
        (sizeless-resize_partitions pt.partitions path size)
