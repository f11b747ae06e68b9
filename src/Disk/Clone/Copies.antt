-- ===== src/Disk/Clone/Copies.antt =====
-- What `Clone` copies: everything but the read-only flag of Btrfs subvolumes.
use mathlib.Core.Option
use image_builder.Prelude.{
  ◌≡◌, refl, ap, Bool, true, false, ◌&&◌, Option, none, some, List, [], ◌∷◌, map, and-eq-true,
}
use image_builder.Prelude.Result.{ok}
use image_builder.Disk.Entities.{
  MkfsOptionGeometry, Filesystem, BtrfsSubvolume, Btrfs, ClevisBind, LuksHeader, Payload,
  no_payload, filesystem, swap, raw, btrfs, volume_group, luks, LogicalVolumes, no_volumes, volume,
  Partition, PartitionTablePolicy, PartitionTable,
}
use image_builder.Disk.Clone.{
  clone_filesystem, clone_btrfs, clone_luks_header, clone_payload, clone_volumes, clone_if_set,
  clone_partition, clone_partitions, clone_policy, clone_table,
}

-- Whether no logical volume and no LUKS container has a nil payload.
unfoldable mutual
  pub is_set : Payload → Bool
  is_set no_payload = false
  is_set (volume_group n d lvs) = are_set lvs
  is_set (luks header p) = is_set p
  is_set _ = true

  pub are_set : LogicalVolumes → Bool
  are_set no_volumes = true
  are_set (volume n s p lvs) = is_set p && are_set lvs

abbrev pub is_complete_payload : Payload → Bool
is_complete_payload no_payload = true
is_complete_payload p = is_set p

abbrev pub is_complete : List Partition → Bool
is_complete [] = true
is_complete (part ∷ parts) = is_complete_payload part.payload && is_complete parts

abbrev writable_subvolume : BtrfsSubvolume → BtrfsSubvolume
writable_subvolume sv = record sv { read_only = false }

-- The payload with every subvolume writable.
unfoldable mutual
  pub writable : Payload → Payload
  writable (btrfs b) = btrfs (record b { subvolumes = map writable_subvolume b.subvolumes })
  writable (volume_group n d lvs) = volume_group n d (writable_volumes lvs)
  writable (luks header p) = luks header (writable p)
  writable p = p

  pub writable_volumes : LogicalVolumes → LogicalVolumes
  writable_volumes no_volumes = no_volumes
  writable_volumes (volume n s p lvs) = volume n s (writable p) (writable_volumes lvs)

abbrev pub writable_table : PartitionTable → PartitionTable
writable_table pt = record pt {
  partitions =
      map (λ (part : Partition). record part { payload = writable part.payload }) pt.partitions;
}

clone_geometry-same :
    (g : Option MkfsOptionGeometry)
    → Option.map
        (λ (g : MkfsOptionGeometry). record {
          heads = g.heads;
          sectors_per_track = g.sectors_per_track;
        })
        g
      ≡ g
clone_geometry-same none = refl
clone_geometry-same (some g) = refl

clone_filesystem-same : (fs : Filesystem) → clone_filesystem fs ≡ fs
unfolding clone_filesystem
clone_filesystem-same fs =
    ap (λ g. record fs { mkfs_options = record fs.mkfs_options { geometry = g } })
      (clone_geometry-same fs.mkfs_options.geometry)

clone_clevis-same :
    (c : Option ClevisBind)
    → Option.map
        (λ (c : ClevisBind). record {
          pin = c.pin;
          policy = c.policy;
          remove_passphrase = c.remove_passphrase;
        })
        c
      ≡ c
clone_clevis-same none = refl
clone_clevis-same (some c) = refl

clone_luks_header-same : (lc : LuksHeader) → clone_luks_header lc ≡ lc
unfolding clone_luks_header
clone_luks_header-same lc = ap (λ c. record lc { clevis = c }) (clone_clevis-same lc.clevis)

clone_btrfs-eq :
    (b : Btrfs) → clone_btrfs b ≡ record b { subvolumes = map writable_subvolume b.subvolumes }
unfolding clone_btrfs
clone_btrfs-eq b = refl

mutual
  unfolding clone_payload writable is_set

  clone_payload-eq : (p : Payload) → is_set p ≡ true → clone_payload p ≡ ok (writable p)
  clone_payload-eq no_payload h = cc
  clone_payload-eq (filesystem fs) h = ap (λ x. ok (filesystem x)) (clone_filesystem-same fs)
  clone_payload-eq (swap s) h = refl
  clone_payload-eq (raw r) h = refl
  clone_payload-eq (btrfs b) h = ap (λ x. ok (btrfs x)) (clone_btrfs-eq b)
  clone_payload-eq (volume_group n d lvs) h = rw (clone_volumes-eq lvs h) refl
  clone_payload-eq (luks header p) h =
      rw (clone_payload-eq p h) (ap (λ x. ok (luks x (writable p))) (clone_luks_header-same header))

  clone_volumes-eq :
      (lvs : LogicalVolumes) → are_set lvs ≡ true → clone_volumes lvs ≡ ok (writable_volumes lvs)
  clone_volumes-eq no_volumes h = refl
  clone_volumes-eq (volume n s p lvs) h =
      let (set, rest) = and-eq-true (is_set p) (are_set lvs) h in
      rw (clone_payload-eq p set, clone_volumes-eq lvs rest) refl

clone_if_set-eq : (p : Payload) → is_complete_payload p ≡ true → clone_if_set p ≡ ok (writable p)
unfolding clone_if_set writable is_set
clone_if_set-eq no_payload h = refl
clone_if_set-eq (filesystem fs) h = clone_payload-eq (filesystem fs) h
clone_if_set-eq (swap s) h = clone_payload-eq (swap s) h
clone_if_set-eq (raw r) h = clone_payload-eq (raw r) h
clone_if_set-eq (btrfs b) h = clone_payload-eq (btrfs b) h
clone_if_set-eq (volume_group n d lvs) h = clone_payload-eq (volume_group n d lvs) h
clone_if_set-eq (luks header p) h = clone_payload-eq (luks header p) h

clone_partitions-eq :
    (parts : List Partition)
    → is_complete parts ≡ true
    → clone_partitions parts
      ≡ ok (map (λ (part : Partition). record part { payload = writable part.payload }) parts)
unfolding clone_partitions clone_partition
clone_partitions-eq [] h = refl
clone_partitions-eq (part ∷ parts) h =
    let (set, rest) = and-eq-true (is_complete_payload part.payload) (is_complete parts) h in
    rw (clone_if_set-eq part.payload set, clone_partitions-eq parts rest) refl

map-same : (b : Option Bool) → Option.map (λ (b : Bool). b) b ≡ b
map-same none = refl
map-same (some b) = refl

clone_policy-same : (p : Option PartitionTablePolicy) → Option.map clone_policy p ≡ p
unfolding clone_policy
clone_policy-same none = refl
clone_policy-same (some p) =
    ap (λ g. some (record p { grow_root_to_fill_disk = g })) (map-same p.grow_root_to_fill_disk)

-- Where no logical volume and no LUKS container has a nil payload, the clone of a partition table
-- is the table itself but for the read-only flags of its Btrfs subvolumes, which are false.
pub clone_table-eq :
    (pt : PartitionTable)
    → is_complete pt.partitions ≡ true
    → clone_table pt ≡ ok (writable_table pt)
unfolding clone_table
clone_table-eq pt h =
    rw (clone_partitions-eq pt.partitions h)
      (ap (λ p. ok (record (writable_table pt) { policy = p })) (clone_policy-same pt.policy))
