-- ===== src/Disk/Walks/Visited.antt =====
-- The walk with paths meets the mountables of `ForEachMountable` in their order.
use image_builder.Prelude.{◌≡◌, refl, ap, ◌∙◌, List, [], ◌∷◌, ◌++◌, map}
use mathlib.Core.List.{map-append}
use mathlib.Core.Path.{ap₂}
use image_builder.Disk.Entities.{
  BtrfsSubvolume, Payload, no_payload, filesystem, swap, raw, btrfs, volume_group, luks,
  LogicalVolumes, no_volumes, volume, Partition, PartitionTable,
}
use image_builder.Disk.Paths.{
  Mountable, of_subvolume, mountables_payload, mountables_volumes, mountables_partitions,
  for_each_mountable,
}
use image_builder.Disk.Walks.{
  Entity, of_table, of_btrfs_subvolume, Visit, mounts_payload, mounts_volumes, mounts_partitions,
  for_each_mountable_path,
}

abbrev pub visited : List (Visit Mountable) → List Mountable
visited visits = map (λ (visit : Visit Mountable). visit.0) visits

visited-subvolumes :
    (path : List Entity) (svs : List BtrfsSubvolume)
    → visited (map (λ sv. (of_subvolume sv, path ++ of_btrfs_subvolume sv ∷ [])) svs)
      ≡ map of_subvolume svs
visited-subvolumes path [] = refl
visited-subvolumes path (sv ∷ svs) = ap (◌∷◌ (of_subvolume sv)) (visited-subvolumes path svs)

mutual
  unfolding mounts_payload mountables_payload

  visited-payload :
      (above : List Entity) (p : Payload) → visited (mounts_payload above p) ≡ mountables_payload p
  visited-payload above no_payload = refl
  visited-payload above (filesystem fs) = refl
  visited-payload above (swap s) = refl
  visited-payload above (raw r) = refl
  visited-payload above (btrfs b) = visited-subvolumes _ b.subvolumes
  visited-payload above (volume_group n d lvs) = visited-volumes _ lvs
  visited-payload above (luks header p) = visited-payload _ p

  visited-volumes :
      (above : List Entity) (lvs : LogicalVolumes)
      → visited (mounts_volumes above lvs) ≡ mountables_volumes lvs
  visited-volumes above no_volumes = refl
  visited-volumes above (volume n size p lvs) =
      map-append (λ (visit : Visit Mountable). visit.0) (mounts_payload _ p)
        (mounts_volumes above lvs)
      ∙ ap₂ (λ xs ys. xs ++ ys) (visited-payload _ p) (visited-volumes above lvs)

visited-partitions :
    (above : List Entity) (parts : List Partition)
    → visited (mounts_partitions above parts) ≡ mountables_partitions parts
unfolding mounts_partitions mountables_partitions
visited-partitions above [] = refl
visited-partitions above (part ∷ parts) =
    map-append (λ (visit : Visit Mountable). visit.0) (mounts_payload _ part.payload)
      (mounts_partitions above parts)
    ∙ ap₂ (λ xs ys. xs ++ ys) (visited-payload _ part.payload) (visited-partitions above parts)

pub visited-for_each_mountable_path :
    (pt : PartitionTable) → visited (for_each_mountable_path pt) ≡ for_each_mountable pt
unfolding for_each_mountable_path for_each_mountable
visited-for_each_mountable_path pt = visited-partitions (of_table pt ∷ []) pt.partitions
