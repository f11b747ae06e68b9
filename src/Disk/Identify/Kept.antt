-- ===== src/Disk/Identify/Kept.antt =====
-- `GenerateUUIDs` of a table whose UUIDs are set.
use mathlib.Core.Bool.{and-false}
use image_builder.Prelude.{String, ◌≡◌, refl, ap, List, [], ◌∷◌, map, str_eq, All}
use image_builder.Disk.Entities.{
  Filesystem, BtrfsSubvolume, Payload, no_payload, filesystem, swap, raw, btrfs, volume_group, luks,
  LogicalVolumes, no_volumes, volume, Partition, PartitionTableType, pt_none, pt_dos, pt_gpt,
  PartitionTable,
}
use image_builder.Disk.Identify.{
  Random, uuid_for, identify_filesystem, identify_btrfs, identify_payload, identify_volumes,
  identify_payloads, identify_partitions, identify_if_gpt, generate_uuids,
}
use image_builder.Disk.Identify.Identified.{IsSetUuid, HasPartitionUuids}

-- Every entity below a payload that has a UUID of its own has it set. Nothing is said of subvolumes.
unfoldable mutual
  pub HasUuids : Payload → Type 0
  HasUuids (filesystem fs) = IsSetUuid fs.uuid
  HasUuids (swap s) = IsSetUuid s.uuid
  HasUuids (btrfs b) = IsSetUuid b.uuid
  HasUuids (volume_group n d lvs) = VolumesHaveUuids lvs
  HasUuids (luks header p) = IsSetUuid header.uuid × HasUuids p
  HasUuids _ = Unit

  pub VolumesHaveUuids : LogicalVolumes → Type 0
  VolumesHaveUuids no_volumes = Unit
  VolumesHaveUuids (volume n s p lvs) = HasUuids p × VolumesHaveUuids lvs

abbrev pub HasAllUuids : PartitionTable → Type 0
HasAllUuids pt =
    IsSetUuid pt.uuid
    × All (λ (part : Partition). HasUuids part.payload) pt.partitions
    × HasPartitionUuids pt.type pt.partitions

-- The payload with the UUID of each Btrfs volume given to its subvolumes, and nothing else changed.
unfoldable mutual
  pub share_uuids : Payload → Payload
  share_uuids (btrfs b) = btrfs (record b {
    subvolumes = map (λ (sv : BtrfsSubvolume). record sv { uuid = b.uuid }) b.subvolumes;
  })
  share_uuids (volume_group n d lvs) = volume_group n d (share_in_volumes lvs)
  share_uuids (luks header p) = luks header (share_uuids p)
  share_uuids p = p

  pub share_in_volumes : LogicalVolumes → LogicalVolumes
  share_in_volumes no_volumes = no_volumes
  share_in_volumes (volume n s p lvs) = volume n s (share_uuids p) (share_in_volumes lvs)

unfoldable pub share_in_partitions : List Partition → List Partition
unfolding share_uuids
share_in_partitions [] = []
share_in_partitions (part ∷ parts) =
    record part { payload = share_uuids part.payload } ∷ share_in_partitions parts

module _ {R : Type 0} (random : Random R) where
  uuid_for-set : (uuid : String) (r : R) → IsSetUuid uuid → uuid_for random uuid r ≡ (uuid, r)
  unfolding uuid_for
  uuid_for-set uuid r set = rw set refl

  identify_filesystem-set :
      (fs : Filesystem) (r : R) → IsSetUuid fs.uuid → identify_filesystem random fs r ≡ (fs, r)
  unfolding identify_filesystem
  identify_filesystem-set fs r set = rw (set, and-false (str_eq fs.type "vfat")) refl

  mutual
    unfolding identify_payload identify_btrfs HasUuids share_uuids

    identify_payload-set :
        (p : Payload) (r : R) → HasUuids p → identify_payload random p r ≡ (share_uuids p, r)
    identify_payload-set no_payload r h = refl
    identify_payload-set (filesystem fs) r h =
        ap (λ (q : Filesystem × R). (filesystem q.0, q.1)) (identify_filesystem-set fs r h)
    identify_payload-set (swap s) r h = rw (uuid_for-set s.uuid r h) refl
    identify_payload-set (raw s) r h = refl
    identify_payload-set (btrfs b) r h = rw (uuid_for-set b.uuid r h) refl
    identify_payload-set (volume_group n d lvs) r h = rw (identify_volumes-set lvs r h) refl
    identify_payload-set (luks header p) r h =
        rw (uuid_for-set header.uuid r h.0, identify_payload-set p r h.1) refl

    identify_volumes-set :
        (lvs : LogicalVolumes) (r : R)
        → VolumesHaveUuids lvs
        → identify_volumes random lvs r ≡ (share_in_volumes lvs, r)
    identify_volumes-set no_volumes r h = refl
    identify_volumes-set (volume n s p lvs) r h =
        rw (identify_payload-set p r h.0, identify_volumes-set lvs r h.1) refl

  identify_payloads-set :
      (parts : List Partition) (r : R)
      → All (λ (part : Partition). HasUuids part.payload) parts
      → identify_payloads random parts r ≡ (share_in_partitions parts, r)
  unfolding identify_payloads share_in_partitions
  identify_payloads-set [] r h = refl
  identify_payloads-set (part ∷ parts) r h =
      rw (identify_payload-set part.payload r h.0, identify_payloads-set parts r h.1) refl

  identify_if_gpt-set :
      (type : PartitionTableType) (parts : List Partition) (r : R)
      → HasPartitionUuids type parts
      → identify_if_gpt random type (share_in_partitions parts) r ≡ (share_in_partitions parts, r)
  unfolding identify_if_gpt identify_partitions share_in_partitions
  identify_if_gpt-set pt_gpt [] r h = refl
  identify_if_gpt-set pt_gpt (part ∷ parts) r h =
      rw (uuid_for-set part.uuid r h.0, identify_if_gpt-set pt_gpt parts r h.1) refl
  identify_if_gpt-set pt_dos parts r h = refl
  identify_if_gpt-set pt_none parts r h = refl

  -- Where the table, every filesystem, swap area, Btrfs volume and LUKS container and, on a GPT, every
  -- partition has a UUID, `GenerateUUIDs` draws no random number and changes nothing but the UUIDs of
  -- subvolumes, each of which becomes that of its volume, also where it was set to another one.
  pub generate_uuids-set :
      (pt : PartitionTable) (r : R)
      → HasAllUuids pt
      → generate_uuids random pt r
        ≡ (record pt { partitions = share_in_partitions pt.partitions }, r)
  unfolding generate_uuids
  generate_uuids-set pt r h =
      rw
        (
          uuid_for-set pt.uuid r h.0,
          identify_payloads-set pt.partitions r h.1,
          identify_if_gpt-set pt.type pt.partitions r h.2,
        )
        refl
