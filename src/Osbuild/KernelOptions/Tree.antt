-- ===== src/Osbuild/KernelOptions/Tree.antt =====
-- The options that `GenImageKernelOptions` takes from the entities of the tree, written out.
use mathlib.Core.Bool.{and-true, and-false}
use mathlib.Core.List.{append_assoc}
use mathlib.Core.Path.{ap₂}
use image_builder.Prelude.{
  String, ◌≡◌, refl, sym, ap, ◌∙◌, List, [], ◌∷◌, ◌++◌, map, str_eq, if◌then◌else◌,
}
use image_builder.Text.{concat}
use image_builder.Disk.Entities.{
  BtrfsSubvolume, Payload, no_payload, filesystem, swap, raw, btrfs, volume_group, luks,
  LogicalVolumes, no_volumes, volume, Partition, PartitionTable,
}
use image_builder.Disk.Walks.{
  Entity, of_table, Visit, visit_subvolume, visits_payload, visits_volumes, visits_partitions,
  for_each_entity,
}
use image_builder.Osbuild.KernelOptions.{
  MountConfiguration, mount_fstab, mount_units, mount_none, is_units, entity_options,
  all_entity_options,
}

-- The subvolume of the root, but for mount units.
unfoldable pub listed_subvolumes : MountConfiguration → List BtrfsSubvolume → List String
listed_subvolumes mount_units svs = []
listed_subvolumes config [] = []
listed_subvolumes config (sv ∷ svs) =
    (if str_eq sv.mountpoint "/" then concat "rootflags=subvol=" sv.name ∷ [] else [])
    ++ listed_subvolumes config svs

-- The UUIDs of the LUKS containers and the subvolume of the root, in the order of the tree.
unfoldable mutual
  unfolding listed_subvolumes

  pub listed_payload : MountConfiguration → Payload → List String
  listed_payload config (luks header p) = concat "luks.uuid=" header.uuid ∷ listed_payload config p
  listed_payload config (volume_group n d lvs) = listed_volumes config lvs
  listed_payload config (btrfs b) = listed_subvolumes config b.subvolumes
  listed_payload config _ = []

  pub listed_volumes : MountConfiguration → LogicalVolumes → List String
  listed_volumes config no_volumes = []
  listed_volumes config (volume n s p lvs) = listed_payload config p ++ listed_volumes config lvs

unfoldable pub listed_partitions : MountConfiguration → List Partition → List String
unfolding listed_payload
listed_partitions config [] = []
listed_partitions config (part ∷ parts) =
    listed_payload config part.payload ++ listed_partitions config parts

all_entity_options-append :
    (config : MountConfiguration) (xs ys : List (Visit Entity))
    → all_entity_options config (xs ++ ys)
      ≡ all_entity_options config xs ++ all_entity_options config ys
unfolding all_entity_options
all_entity_options-append config [] ys = refl
all_entity_options-append config (x ∷ xs) ys =
    ap (λ rest. entity_options config x ++ rest) (all_entity_options-append config xs ys)
    ∙ sym (
        append_assoc (entity_options config x) (all_entity_options config xs)
          (all_entity_options config ys))

subvolumes-listed :
    (config : MountConfiguration) (path : List Entity) (svs : List BtrfsSubvolume)
    → all_entity_options config (map (visit_subvolume path) svs) ≡ listed_subvolumes config svs
unfolding all_entity_options entity_options is_units listed_subvolumes
subvolumes-listed mount_units path [] = refl
subvolumes-listed mount_fstab path [] = refl
subvolumes-listed mount_none path [] = refl
subvolumes-listed mount_units path (sv ∷ svs) =
    let rest = subvolumes-listed mount_units path svs in
    ap₂ (λ xs ys. xs ++ ys)
      (ap (λ b. if b then concat "rootflags=subvol=" sv.name ∷ [] else [])
        (and-false (str_eq sv.mountpoint "/")))
      rest
subvolumes-listed mount_fstab path (sv ∷ svs) =
    ap₂ (λ xs ys. xs ++ ys)
      (ap (λ b. if b then concat "rootflags=subvol=" sv.name ∷ [] else [])
        (and-true (str_eq sv.mountpoint "/")))
      (subvolumes-listed mount_fstab path svs)
subvolumes-listed mount_none path (sv ∷ svs) =
    ap₂ (λ xs ys. xs ++ ys)
      (ap (λ b. if b then concat "rootflags=subvol=" sv.name ∷ [] else [])
        (and-true (str_eq sv.mountpoint "/")))
      (subvolumes-listed mount_none path svs)

mutual
  unfolding visits_payload all_entity_options entity_options listed_payload

  payload-listed :
      (config : MountConfiguration) (above : List Entity) (p : Payload)
      → all_entity_options config (visits_payload above p) ≡ listed_payload config p
  payload-listed config above no_payload = refl
  payload-listed config above (filesystem fs) = refl
  payload-listed config above (swap s) = refl
  payload-listed config above (raw r) = refl
  payload-listed config above (btrfs b) = subvolumes-listed config _ b.subvolumes
  payload-listed config above (volume_group n d lvs) = volumes-listed config _ lvs
  payload-listed config above (luks header p) =
      ap (◌∷◌ (concat "luks.uuid=" header.uuid)) (payload-listed config _ p)

  volumes-listed :
      (config : MountConfiguration) (above : List Entity) (lvs : LogicalVolumes)
      → all_entity_options config (visits_volumes above lvs) ≡ listed_volumes config lvs
  volumes-listed config above no_volumes = refl
  volumes-listed config above (volume n s p lvs) =
      all_entity_options-append config (visits_payload _ p) (visits_volumes above lvs)
      ∙ ap₂ (λ xs ys. xs ++ ys) (payload-listed config _ p) (volumes-listed config above lvs)

partitions-listed :
    (config : MountConfiguration) (above : List Entity) (parts : List Partition)
    → all_entity_options config (visits_partitions above parts) ≡ listed_partitions config parts
unfolding visits_partitions all_entity_options entity_options listed_partitions
partitions-listed config above [] = refl
partitions-listed config above (part ∷ parts) =
    all_entity_options-append config (visits_payload _ part.payload) (visits_partitions above parts)
    ∙ ap₂ (λ xs ys. xs ++ ys) (payload-listed config _ part.payload)
        (partitions-listed config above parts)

pub entities-listed :
    (config : MountConfiguration) (pt : PartitionTable)
    → all_entity_options config (for_each_entity pt) ≡ listed_partitions config pt.partitions
unfolding for_each_entity all_entity_options entity_options
entities-listed config pt = partitions-listed config (of_table pt ∷ []) pt.partitions
