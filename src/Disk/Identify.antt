-- ===== src/Disk/Identify.antt =====
-- `GenerateUUIDs` with the `GenUUID` of every entity, and the generators of disk.go. The state of
-- the random numbers is passed through in the order of the visits; the byte source and the text of a
-- UUID (github.com/google/uuid) are the fields of `Random`.
pub mod Identified
pub mod Kept
use image_builder.Prelude.{
  ℕ, ◌+◌, ◌/◌, ◌%◌, String, Bool, ◌&&◌, List, [], ◌∷◌, ◌==◌, map, str_eq, if◌then◌else◌, get_elem?,
  Option, none, some, modify,
}
use image_builder.Text.{concat}
use image_builder.Disk.Entities.{
  Filesystem, Swap, BtrfsSubvolume, Btrfs, LuksHeader, Payload, no_payload, filesystem, swap, raw,
  btrfs, volume_group, luks, LogicalVolumes, no_volumes, volume, Partition, PartitionTableType,
  pt_gpt, PartitionTable, no_mkfs_options,
}

-- `(*rand.Rand).Read` of that many bytes, and `uuid.UUID.String`.
pub record Random (R : Type 0) : Type 0 where
  pub read : ℕ → R → List ℕ × R
  pub uuid_string : List ℕ → String

-- `id[6] = (id[6] & 0x0f) | 0x40` and `id[8] = (id[8] & 0x3f) | 0x80`
unfoldable pub mark_version_4 : List ℕ → List ℕ
mark_version_4 id = modify (modify id 6 (λ b. b % 16 + 64)) 8 (λ b. b % 64 + 128)

abbrev hex_digits : List String
hex_digits =
    "0" ∷ "1" ∷ "2" ∷ "3" ∷ "4" ∷ "5" ∷ "6" ∷ "7" ∷ "8" ∷ "9" ∷ "A" ∷ "B" ∷ "C" ∷ "D" ∷ "E" ∷ "F"
    ∷ []

unfoldable pub hex_digit : ℕ → String
hex_digit n = elim (get_elem? hex_digits n) [ none ↦ "" | some d ↦ d ]

-- `strings.ToUpper(hex.EncodeToString(bytes))`
unfoldable pub hex_string : List ℕ → String
unfolding hex_digit
hex_string [] = ""
hex_string (b ∷ bs) = concat (hex_digit (b / 16)) (concat (hex_digit (b % 16)) (hex_string bs))

-- The text of a volume ID of four bytes: two, a dash and two.
unfoldable pub vol_id_string : List ℕ → String
unfolding hex_string
vol_id_string (a ∷ b ∷ bs) = concat (hex_string (a ∷ b ∷ [])) (String.◌∷◌ "-" (hex_string bs))
vol_id_string _ = ""

-- A byte source and its state.
module _ {R : Type 0} (random : Random R) where
  unfoldable pub new_uuid : R → String × R
  unfolding mark_version_4
  new_uuid r = let (id, r') = random.read 16 r in (random.uuid_string (mark_version_4 id), r')

  unfoldable pub new_vol_id : R → String × R
  unfolding vol_id_string
  new_vol_id r = let (volid, r') = random.read 4 r in (vol_id_string volid, r')

  -- A UUID that is set stays, and no random number is drawn.
  unfoldable pub uuid_for : String → R → String × R
  unfolding new_uuid
  uuid_for uuid r = if str_eq uuid "" then new_uuid r else (uuid, r)

  unfoldable pub identify_filesystem : Filesystem → R → Filesystem × R
  unfolding uuid_for new_vol_id
  identify_filesystem fs r =
      let (uuid', r') =
        if str_eq fs.type "vfat" && str_eq fs.uuid "" then new_vol_id r else uuid_for fs.uuid r in
      (record fs { uuid = uuid' }, r')

  unfoldable pub identify_btrfs : Btrfs → R → Btrfs × R
  unfolding uuid_for
  identify_btrfs b r =
      let (uuid', r') = uuid_for b.uuid r in
      (
        record b {
          uuid = uuid';
          subvolumes = map (λ (sv : BtrfsSubvolume). record sv { uuid = uuid' }) b.subvolumes;
        },
        r',
      )

  -- An entity before the entities that it holds.
  unfoldable mutual
    unfolding uuid_for identify_filesystem identify_btrfs

    pub identify_payload : Payload → R → Payload × R
    identify_payload no_payload r = (no_payload, r)
    identify_payload (filesystem fs) r =
        let (fs', r') = identify_filesystem fs r in (filesystem fs', r')
    identify_payload (swap s) r =
        let (uuid', r') = uuid_for s.uuid r in (swap (record s { uuid = uuid' }), r')
    identify_payload (raw s) r = (raw s, r)
    identify_payload (btrfs b) r = let (b', r') = identify_btrfs b r in (btrfs b', r')
    identify_payload (volume_group n d lvs) r =
        let (lvs', r') = identify_volumes lvs r in (volume_group n d lvs', r')
    identify_payload (luks header p) r =
        let (uuid', r1) = uuid_for header.uuid r in
        let (p', r2) = identify_payload p r1 in (luks (record header { uuid = uuid' }) p', r2)

    pub identify_volumes : LogicalVolumes → R → LogicalVolumes × R
    identify_volumes no_volumes r = (no_volumes, r)
    identify_volumes (volume n s p lvs) r =
        let (p', r1) = identify_payload p r in
        let (lvs', r2) = identify_volumes lvs r1 in (volume n s p' lvs', r2)

  unfoldable pub identify_payloads : List Partition → R → List Partition × R
  unfolding identify_payload
  identify_payloads [] r = ([], r)
  identify_payloads (part ∷ parts) r =
      let (p', r1) = identify_payload part.payload r in
      let (parts', r2) = identify_payloads parts r1 in (record part { payload = p' } ∷ parts', r2)

  -- The UUIDs of the partitions themselves.
  unfoldable pub identify_partitions : List Partition → R → List Partition × R
  unfolding uuid_for
  identify_partitions [] r = ([], r)
  identify_partitions (part ∷ parts) r =
      let (uuid', r1) = uuid_for part.uuid r in
      let (parts', r2) = identify_partitions parts r1 in (record part { uuid = uuid' } ∷ parts', r2)

  -- Only the partitions of a GPT have UUIDs of their own.
  unfoldable pub identify_if_gpt : PartitionTableType → List Partition → R → List Partition × R
  unfolding identify_partitions
  identify_if_gpt pt_gpt parts r = identify_partitions parts r
  identify_if_gpt _ parts r = (parts, r)

  unfoldable pub generate_uuids : PartitionTable → R → PartitionTable × R
  unfolding identify_payloads identify_if_gpt
  generate_uuids pt r =
      let (uuid', r1) = uuid_for pt.uuid r in
      let (parts1, r2) = identify_payloads pt.partitions r1 in
      let (parts2, r3) = identify_if_gpt pt.type parts1 r2 in
      (record pt { uuid = uuid'; partitions = parts2 }, r3)

  -- `EFIBootPartitionTable`
  unfoldable pub efi_boot_partition_table : R → PartitionTable × R
  unfolding new_vol_id
  efi_boot_partition_table r =
      let (volid, r') = new_vol_id r in
      let part : Partition = record {
        start = 0;
        size = 20971520;
        type = "";
        bootable = Bool.false;
        uuid = "";
        label = "";
        payload = filesystem (record {
          type = "vfat";
          uuid = volid;
          label = "";
          mountpoint = "/";
          fstab_options = "";
          fstab_freq = 0;
          fstab_pass_no = 0;
          mkfs_options = no_mkfs_options;
        });
        attrs = [];
      } in
      (
        record {
          size = 20971520;
          uuid = "";
          type = PartitionTableType.pt_none;
          partitions = part ∷ [];
          grain_size = 0;
          sector_size = 0;
          extra_padding = 0;
          start_offset = 0;
          absolute_start_offset = Bool.false;
          policy = none;
        },
        r',
      )
