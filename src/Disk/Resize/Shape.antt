-- ===== src/Disk/Resize/Shape.antt =====
-- Resizing a branch leaves every mountpoint on its path.
use image_builder.Prelude.{
  ℕ, zero, suc, String, ◌≡◌, refl, ap, ◌∙◌, Option, none, some, List, [], ◌∷◌, arith, ltb,
  Bool-cases, inl, inr,
}
use image_builder.Disk.Entities.{
  BtrfsSubvolume, Payload, btrfs, volume_group, luks, LogicalVolumes, no_volumes, volume, Partition,
  PartitionTable,
}
use image_builder.Disk.Paths.{
  EntityPath, first_path, through, path_subvolumes, path_payload, path_volumes, path_partition,
  path_partitions, entity_path,
}
use image_builder.Disk.Resize.{
  resize_subvolumes, ensure_volume, resize_payload, resize_volumes, ensure_partition,
  resize_partition, resize_partitions, resize_table, resize_entity_branch,
}

path-resize_subvolumes :
    (svs : List BtrfsSubvolume) (i size : ℕ) (target : String)
    → path_subvolumes (resize_subvolumes svs i size).0 target ≡ path_subvolumes svs target
unfolding resize_subvolumes path_subvolumes
path-resize_subvolumes [] i size target = refl
path-resize_subvolumes (sv ∷ svs) zero size target = elim (Bool-cases (ltb sv.size size)) [
  | inl larger ↦ rw larger refl
  | inr kept ↦ rw kept refl
]
path-resize_subvolumes (sv ∷ svs) (suc i) size target =
    rw (path-resize_subvolumes svs i size target) refl

path-ensure_volume :
    (n : String) (s : ℕ) (p : Payload) (lvs : LogicalVolumes) (up : Option ℕ) (target : String)
    → path_volumes (ensure_volume n s p lvs up).0 target ≡ path_volumes (volume n s p lvs) target
unfolding ensure_volume path_payload
path-ensure_volume n s p lvs none target = refl
path-ensure_volume n s p lvs (some u) target = elim (Bool-cases (ltb s u)) [
  | inl larger ↦ rw larger refl
  | inr kept ↦ rw kept refl
]

mutual
  unfolding resize_payload path_payload

  path-resize_payload :
      (p : Payload) (path : EntityPath) (size : ℕ) (target : String)
      → path_payload (resize_payload p path size).0 target ≡ path_payload p target
  path-resize_payload (btrfs b) (i ∷ path) size target =
      path-resize_subvolumes b.subvolumes i size target
  path-resize_payload (volume_group n d lvs) (i ∷ path) size target =
      path-resize_volumes lvs i path size target
  path-resize_payload (luks header p) (i ∷ path) size target =
      ap through (path-resize_payload p path size target)
  path-resize_payload p _ size target = refl

  path-resize_volumes :
      (lvs : LogicalVolumes) (i : ℕ) (path : EntityPath) (size : ℕ) (target : String)
      → path_volumes (resize_volumes lvs i path size).0 target ≡ path_volumes lvs target
  path-resize_volumes no_volumes i path size target = refl
  path-resize_volumes (volume n s p lvs) zero [] size target =
      path-ensure_volume n s p lvs (some size) target
  path-resize_volumes (volume n s p lvs) zero (j ∷ path) size target =
      path-ensure_volume n s (resize_payload p path size).0 lvs (resize_payload p path size).1
        target
      ∙ ap (λ (o : Option EntityPath). first_path (through o) (path_volumes lvs target))
          (path-resize_payload p path size target)
  path-resize_volumes (volume n s p lvs) (suc i) path size target =
      ap (first_path (through (path_payload p target))) (path-resize_volumes lvs i path size target)

path-ensure_partition :
    (part : Partition) (up : Option ℕ) (target : String)
    → path_partition (ensure_partition part up).0 target ≡ path_partition part target
unfolding ensure_partition path_partition
path-ensure_partition part none target = refl
path-ensure_partition part (some u) target = elim (Bool-cases (ltb part.size u)) [
  | inl larger ↦ rw larger refl
  | inr kept ↦ rw kept refl
]

path-resize_partition :
    (part : Partition) (path : EntityPath) (size : ℕ) (target : String)
    → path_partition (resize_partition part path size).0 target ≡ path_partition part target
unfolding resize_partition path_partition
path-resize_partition part [] size target = path-ensure_partition part (some size) target
path-resize_partition part (j ∷ path) size target =
    let (p, up) = resize_payload part.payload path size in
    path-ensure_partition (record part { payload = p }) up target
    ∙ ap through (path-resize_payload part.payload path size target)

pub path-resize_partitions :
    (parts : List Partition) (path : EntityPath) (size : ℕ) (target : String)
    → path_partitions (resize_partitions parts path size).0 target ≡ path_partitions parts target
unfolding resize_partitions path_partitions
path-resize_partitions [] path size target = refl
path-resize_partitions (part ∷ parts) [] size target = refl
path-resize_partitions (part ∷ parts) (zero ∷ path) size target =
    ap (λ (o : Option EntityPath). first_path o (path_partitions parts target))
      (path-resize_partition part path size target)
path-resize_partitions (part ∷ parts) (suc i ∷ path) size target =
    ap (first_path (path_partition part target))
      (path-resize_partitions parts (i ∷ path) size target)

path-resize_table :
    (pt : PartitionTable) (up : Option ℕ) (target : String)
    → entity_path (resize_table pt up) target ≡ entity_path pt target
unfolding resize_table entity_path
path-resize_table pt none target = refl
path-resize_table pt (some s) target = ground arith

-- Every mountpoint is found by the same path before and after a branch is resized, whatever the sizes
-- are.
pub entity_path-resize_entity_branch :
    (pt : PartitionTable) (path : EntityPath) (size : ℕ) (target : String)
    → entity_path (resize_entity_branch pt path size) target ≡ entity_path pt target
unfolding resize_entity_branch entity_path
entity_path-resize_entity_branch pt path size target =
    let (parts, up) = resize_partitions pt.partitions path size in
    path-resize_table (record pt { partitions = parts }) up target
    ∙ path-resize_partitions pt.partitions path size target
