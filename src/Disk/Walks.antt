-- ===== src/Disk/Walks.antt =====
-- `ForEachEntity`, `ForEachMountable` and `ForEachFSTabEntity` of partition_table.go, as the list of the
-- calls that they make of a callback: the entity and its path, from the table down to it.
pub mod Visited
pub mod Order
use image_builder.Prelude.{ℕ, String, List, [], ◌∷◌, ◌++◌, map}
use image_builder.Disk.Entities.{
  Filesystem, Swap, BtrfsSubvolume, Btrfs, Payload, no_payload, filesystem, swap, raw, btrfs,
  volume_group, luks, LogicalVolumes, no_volumes, volume, Partition, PartitionTable,
}
use image_builder.Disk.Paths.{Mountable, of_filesystem, of_subvolume}

-- The entities that a path holds.
pub data Entity : Type 0 where
  of_table : PartitionTable → Entity
  of_partition : Partition → Entity
  of_payload : Payload → Entity
  of_volume : (name : String) (size : ℕ) → Payload → Entity
  of_btrfs_subvolume : BtrfsSubvolume → Entity

abbrev pub Visit : Type 0 → Type 0
Visit E = E × List Entity

abbrev pub visit_subvolume : List Entity → BtrfsSubvolume → Visit Entity
visit_subvolume above sv = (of_btrfs_subvolume sv, above ++ of_btrfs_subvolume sv ∷ [])

-- `forEachEntity`: an entity is called back before its children.
unfoldable mutual
  pub visits_payload : List Entity → Payload → List (Visit Entity)
  visits_payload above no_payload = []
  visits_payload above (filesystem fs) =
      (of_payload (filesystem fs), above ++ of_payload (filesystem fs) ∷ []) ∷ []
  visits_payload above (swap s) = (of_payload (swap s), above ++ of_payload (swap s) ∷ []) ∷ []
  visits_payload above (raw r) = (of_payload (raw r), above ++ of_payload (raw r) ∷ []) ∷ []
  visits_payload above (btrfs b) =
      let path = above ++ of_payload (btrfs b) ∷ [] in
      (of_payload (btrfs b), path) ∷ map (visit_subvolume path) b.subvolumes
  visits_payload above (volume_group n d lvs) =
      let path = above ++ of_payload (volume_group n d lvs) ∷ [] in
      (of_payload (volume_group n d lvs), path) ∷ visits_volumes path lvs
  visits_payload above (luks header p) =
      let path = above ++ of_payload (luks header p) ∷ [] in
      (of_payload (luks header p), path) ∷ visits_payload path p

  pub visits_volumes : List Entity → LogicalVolumes → List (Visit Entity)
  visits_volumes above no_volumes = []
  visits_volumes above (volume n size p lvs) =
      let path = above ++ of_volume n size p ∷ [] in
      (of_volume n size p, path) ∷ visits_payload path p ++ visits_volumes above lvs

unfoldable pub visits_partitions : List Entity → List Partition → List (Visit Entity)
unfolding visits_payload
visits_partitions above [] = []
visits_partitions above (part ∷ parts) =
    let path = above ++ of_partition part ∷ [] in
    (of_partition part, path) ∷ visits_payload path part.payload ++ visits_partitions above parts

unfoldable pub for_each_entity : PartitionTable → List (Visit Entity)
unfolding visits_partitions
for_each_entity pt =
    (of_table pt, of_table pt ∷ []) ∷ visits_partitions (of_table pt ∷ []) pt.partitions

-- `forEachMountable`
unfoldable mutual
  pub mounts_payload : List Entity → Payload → List (Visit Mountable)
  mounts_payload above (filesystem fs) =
      (of_filesystem fs, above ++ of_payload (filesystem fs) ∷ []) ∷ []
  mounts_payload above (btrfs b) =
      let path = above ++ of_payload (btrfs b) ∷ [] in
      map (λ sv. (of_subvolume sv, path ++ of_btrfs_subvolume sv ∷ [])) b.subvolumes
  mounts_payload above (volume_group n d lvs) =
      mounts_volumes (above ++ of_payload (volume_group n d lvs) ∷ []) lvs
  mounts_payload above (luks header p) = mounts_payload (above ++ of_payload (luks header p) ∷ []) p
  mounts_payload above _ = []

  pub mounts_volumes : List Entity → LogicalVolumes → List (Visit Mountable)
  mounts_volumes above no_volumes = []
  mounts_volumes above (volume n size p lvs) =
      mounts_payload (above ++ of_volume n size p ∷ []) p ++ mounts_volumes above lvs

unfoldable pub mounts_partitions : List Entity → List Partition → List (Visit Mountable)
unfolding mounts_payload
mounts_partitions above [] = []
mounts_partitions above (part ∷ parts) =
    mounts_payload (above ++ of_partition part ∷ []) part.payload ++ mounts_partitions above parts

unfoldable pub for_each_mountable_path : PartitionTable → List (Visit Mountable)
unfolding mounts_partitions
for_each_mountable_path pt = mounts_partitions (of_table pt ∷ []) pt.partitions

-- The entities that implement `FSTabEntity`: the mountables and the swap areas.
pub data FstabEntity : Type 0 where
  of_mountable : Mountable → FstabEntity
  of_swap : Swap → FstabEntity

-- `forEachFSTabEntity`, without the paths, which no callback reads
unfoldable mutual
  pub fstab_payload : Payload → List FstabEntity
  fstab_payload (filesystem fs) = of_mountable (of_filesystem fs) ∷ []
  fstab_payload (swap s) = of_swap s ∷ []
  fstab_payload (btrfs b) = map (λ sv. of_mountable (of_subvolume sv)) b.subvolumes
  fstab_payload (volume_group n d lvs) = fstab_volumes lvs
  fstab_payload (luks header p) = fstab_payload p
  fstab_payload _ = []

  pub fstab_volumes : LogicalVolumes → List FstabEntity
  fstab_volumes no_volumes = []
  fstab_volumes (volume n size p lvs) = fstab_payload p ++ fstab_volumes lvs

unfoldable pub fstab_partitions : List Partition → List FstabEntity
unfolding fstab_payload
fstab_partitions [] = []
fstab_partitions (part ∷ parts) = fstab_payload part.payload ++ fstab_partitions parts

unfoldable pub for_each_fstab_entity : PartitionTable → List FstabEntity
unfolding fstab_partitions
for_each_fstab_entity pt = fstab_partitions pt.partitions
