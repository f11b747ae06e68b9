-- ===== src/Disk/Identify/Identified.antt =====
-- `GenerateUUIDs` sets every UUID, and leaves a table alone whose UUIDs are set.
use Prim.Native.Char.{Char}
use text.Mathlib.TextLemmas.{append-ne-nil_of_right_ne-nil}
use image_builder.Prelude.{
  ℕ, String, ◌≡◌, refl, false, ◌&&◌, List, [], ◌∷◌, map, str_eq, eq_iff, length, All, Bool-cases,
  inl, inr, arith,
}
use image_builder.Text.{concat}
use image_builder.Disk.Entities.{
  Filesystem, BtrfsSubvolume, Payload, no_payload, filesystem, swap, raw, btrfs, volume_group, luks,
  LogicalVolumes, no_volumes, volume, Partition, PartitionTableType, pt_none, pt_dos, pt_gpt,
  PartitionTable,
}
use image_builder.Disk.Identify.{
  Random, vol_id_string, new_uuid, new_vol_id, uuid_for, identify_filesystem, identify_btrfs,
  identify_payload, identify_volumes, identify_payloads, identify_partitions, identify_if_gpt,
  generate_uuids,
}

abbrev pub IsSetUuid : String → Type 0
IsSetUuid uuid = str_eq uuid "" ≡ false

-- Every entity below a payload that has a UUID has it set, and a subvolume has that of its volume.
mutual
  pub IsIdentified : Payload → Type 0
  IsIdentified (filesystem fs) = IsSetUuid fs.uuid
  IsIdentified (swap s) = IsSetUuid s.uuid
  IsIdentified (btrfs b) =
      IsSetUuid b.uuid × All (λ (sv : BtrfsSubvolume). sv.uuid ≡ b.uuid) b.subvolumes
  IsIdentified (volume_group n d lvs) = AreIdentified lvs
  IsIdentified (luks header p) = IsSetUuid header.uuid × IsIdentified p
  IsIdentified _ = Unit

  pub AreIdentified : LogicalVolumes → Type 0
  AreIdentified no_volumes = Unit
  AreIdentified (volume n s p lvs) = IsIdentified p × AreIdentified lvs

abbrev pub HasPartitionUuids : PartitionTableType → List Partition → Type 0
HasPartitionUuids pt_gpt parts = All (λ (part : Partition). IsSetUuid part.uuid) parts
HasPartitionUuids _ parts = Unit

abbrev pub IsIdentifiedTable : PartitionTable → Type 0
IsIdentifiedTable pt =
    IsSetUuid pt.uuid
    × All (λ (part : Partition). IsIdentified part.payload) pt.partitions
    × HasPartitionUuids pt.type pt.partitions

concat-IsSetUuid : (s : String) (c : Char) (t : String) → IsSetUuid (concat s (String.◌∷◌ c t))
concat-IsSetUuid s c t = elim (Bool-cases (str_eq (concat s (String.◌∷◌ c t)) "")) [
  | inl empty ↦ absurd (
      append-ne-nil_of_right_ne-nil s {t = String.◌∷◌ c t} (λ nil. cc)
        ((eq_iff (concat s (String.◌∷◌ c t)) "").0 empty))
  | inr set ↦ set
]

vol_id_string-IsSetUuid : (bytes : List ℕ) → length bytes ≡ 4 → IsSetUuid (vol_id_string bytes)
unfolding vol_id_string
vol_id_string-IsSetUuid (a ∷ b ∷ bs) h = concat-IsSetUuid _ _ _
vol_id_string-IsSetUuid (a ∷ []) h = absurd (omega (arith, h))
vol_id_string-IsSetUuid [] h = absurd (omega (arith, h))

-- A byte source that returns as many bytes as it is asked for, and a UUID text that is not empty.
module _ {R : Type 0} (random : Random R)
    (filled : (n : ℕ) (r : R) → length (random.read n r).0 ≡ n)
    (written : (id : List ℕ) → IsSetUuid (random.uuid_string id)) where
  uuid_for-IsSetUuid : (uuid : String) (r : R) → IsSetUuid (uuid_for random uuid r).0
  unfolding uuid_for new_uuid
  uuid_for-IsSetUuid uuid r = elim (Bool-cases (str_eq uuid "")) [
    | inl empty ↦ rw empty (written _)
    | inr set ↦ rw set set
  ]

  identify_filesystem-IsSetUuid :
      (fs : Filesystem) (r : R) → IsSetUuid (identify_filesystem random fs r).0.uuid
  unfolding identify_filesystem new_vol_id
  identify_filesystem-IsSetUuid fs r =
      elim (Bool-cases (str_eq fs.type "vfat" && str_eq fs.uuid "")) [
        | inl vfat ↦ rw vfat (vol_id_string-IsSetUuid _ (filled 4 r))
        | inr other ↦ rw other (uuid_for-IsSetUuid fs.uuid r)
      ]

  subvolumes-same :
      (uuid : String) (svs : List BtrfsSubvolume)
      → All
          (λ (sv : BtrfsSubvolume). sv.uuid ≡ uuid)
          (map (λ (sv : BtrfsSubvolume). record sv { uuid = uuid }) svs)
  subvolumes-same uuid [] = tt
  subvolumes-same uuid (sv ∷ svs) = (refl, subvolumes-same uuid svs)

  mutual
    unfolding identify_payload identify_btrfs IsIdentified

    identify_payload-IsIdentified :
        (p : Payload) (r : R) → IsIdentified (identify_payload random p r).0
    identify_payload-IsIdentified no_payload r = tt
    identify_payload-IsIdentified (filesystem fs) r = identify_filesystem-IsSetUuid fs r
    identify_payload-IsIdentified (swap s) r = uuid_for-IsSetUuid s.uuid r
    identify_payload-IsIdentified (raw s) r = tt
    identify_payload-IsIdentified (btrfs b) r =
        (uuid_for-IsSetUuid b.uuid r, subvolumes-same (uuid_for random b.uuid r).0 b.subvolumes)
    identify_payload-IsIdentified (volume_group n d lvs) r = identify_volumes-AreIdentified lvs r
    identify_payload-IsIdentified (luks header p) r =
        (uuid_for-IsSetUuid header.uuid r, identify_payload-IsIdentified p _)

    identify_volumes-AreIdentified :
        (lvs : LogicalVolumes) (r : R) → AreIdentified (identify_volumes random lvs r).0
    identify_volumes-AreIdentified no_volumes r = tt
    identify_volumes-AreIdentified (volume n s p lvs) r =
        (identify_payload-IsIdentified p r, identify_volumes-AreIdentified lvs _)

  abbrev PayloadsAre : List Partition → Type 0
  PayloadsAre parts = All (λ (part : Partition). IsIdentified part.payload) parts

  identify_payloads-PayloadsAre :
      (parts : List Partition) (r : R) → PayloadsAre (identify_payloads random parts r).0
  unfolding identify_payloads
  identify_payloads-PayloadsAre [] r = tt
  identify_payloads-PayloadsAre (part ∷ parts) r =
      (identify_payload-IsIdentified part.payload r, identify_payloads-PayloadsAre parts _)

  identify_partitions-All :
      (parts : List Partition) (r : R)
      → PayloadsAre parts
      → PayloadsAre (identify_partitions random parts r).0
        × HasPartitionUuids pt_gpt (identify_partitions random parts r).0
  unfolding identify_partitions
  identify_partitions-All [] r h = (tt, tt)
  identify_partitions-All (part ∷ parts) r h =
      let (payloads, uuids) = identify_partitions-All parts _ h.1 in
      ((h.0, payloads), (uuid_for-IsSetUuid part.uuid r, uuids))

  identify_if_gpt-All :
      (type : PartitionTableType) (parts : List Partition) (r : R)
      → PayloadsAre parts
      → PayloadsAre (identify_if_gpt random type parts r).0
        × HasPartitionUuids type (identify_if_gpt random type parts r).0
  unfolding identify_if_gpt
  identify_if_gpt-All pt_gpt parts r h = identify_partitions-All parts r h
  identify_if_gpt-All pt_dos parts r h = (h, tt)
  identify_if_gpt-All pt_none parts r h = (h, tt)

  -- Behind `GenerateUUIDs` the table, every entity below its partitions and, on a GPT, every
  -- partition has a UUID, and a subvolume has that of its volume, given that the byte source returns
  -- as many bytes as it is asked for and that no UUID is written as the empty string.
  pub generate_uuids-IsIdentifiedTable :
      (pt : PartitionTable) (r : R) → IsIdentifiedTable (generate_uuids random pt r).0
  unfolding generate_uuids
  generate_uuids-IsIdentifiedTable pt r =
      let (payloads, uuids) =
        identify_if_gpt-All pt.type _ _ (identify_payloads-PayloadsAre pt.partitions _) in
      (uuid_for-IsSetUuid pt.uuid r, payloads, uuids)
