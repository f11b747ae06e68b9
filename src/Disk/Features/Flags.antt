-- ===== src/Disk/Features/Flags.antt =====
-- The flags that `features` sets: each is set exactly where a test holds of a payload of the table.
use mathlib.Core.Bool.{or-false}
use image_builder.Prelude.{
  String, ◌≡◌, ap, ◌∙◌, sym, Bool, true, false, ◌||◌, List, [], ◌∷◌, str_eq,
}
use image_builder.Disk.Entities.{
  Filesystem, Swap, Raw, Btrfs, LuksHeader, Payload, no_payload, filesystem, swap, raw, btrfs,
  volume_group, luks, LogicalVolumes, no_volumes, volume, Partition,
}
use image_builder.Disk.Create.Contains.{or_assoc}
use image_builder.Disk.Features.{
  PartitionTableFeatures, visit_fs_type, visit_payload, visit_volumes, visit_partitions,
}

-- Whether a payload, or one below it, satisfies a test.
module _ (test : Payload → Bool) where
  unfoldable mutual
    pub has_payload : Payload → Bool
    has_payload (volume_group n d lvs) = test (volume_group n d lvs) || have_payload lvs
    has_payload (luks header p) = test (luks header p) || has_payload p
    has_payload p = test p

    pub have_payload : LogicalVolumes → Bool
    have_payload no_volumes = false
    have_payload (volume n s p lvs) = has_payload p || have_payload lvs

  abbrev pub has_payload_in : List Partition → Bool
  has_payload_in [] = false
  has_payload_in (part ∷ parts) = has_payload part.payload || has_payload_in parts

abbrev pub is_volume_group : Payload → Bool
is_volume_group (volume_group n d lvs) = true
is_volume_group _ = false

abbrev pub is_luks : Payload → Bool
is_luks (luks header p) = true
is_luks _ = false

abbrev pub is_filesystem : String → Payload → Bool
is_filesystem type (filesystem fs) = str_eq fs.type type
is_filesystem type _ = false

abbrev pub is_btrfs : Payload → Bool
is_btrfs (btrfs b) = true
is_btrfs (filesystem fs) = str_eq fs.type "btrfs"
is_btrfs _ = false

-- A flag that a volume group does not set: it is set where the test holds of a payload.
module _ (flag : PartitionTableFeatures → Bool) (test : Payload → Bool)
    (keeps : (f : PartitionTableFeatures) → flag (record f { lvm = true }) ≡ flag f)
    (no_group : (n d : String) (lvs : LogicalVolumes) → test (volume_group n d lvs) ≡ false)
    (none_on : test no_payload ≡ false)
    (on_type : (fs : Filesystem) (f : PartitionTableFeatures)
      → flag (visit_fs_type fs.type f) ≡ (flag f || test (filesystem fs)))
    (on_swap : (s : Swap) (f : PartitionTableFeatures)
      → flag (record f { swap = true }) ≡ (flag f || test (swap s)))
    (on_raw : (r : Raw) (f : PartitionTableFeatures)
      → flag (record f { raw = true }) ≡ (flag f || test (raw r)))
    (on_btrfs : (b : Btrfs) (f : PartitionTableFeatures)
      → flag (record f { btrfs = true }) ≡ (flag f || test (btrfs b)))
    (on_luks : (header : LuksHeader) (p : Payload) (f : PartitionTableFeatures)
      → flag (record f { luks = true }) ≡ (flag f || test (luks header p))) where
  mutual
    unfolding visit_payload has_payload

    visit_payload-flag :
        (p : Payload) (f : PartitionTableFeatures)
        → flag (visit_payload p f) ≡ (flag f || has_payload test p)
    visit_payload-flag no_payload f = rw none_on (sym (or-false (flag f)))
    visit_payload-flag (filesystem fs) f = on_type fs f
    visit_payload-flag (swap s) f = on_swap s f
    visit_payload-flag (raw r) f = on_raw r f
    visit_payload-flag (btrfs b) f = on_btrfs b f
    visit_payload-flag (volume_group n d lvs) f = rw no_group (
        visit_volumes-flag lvs (record f { lvm = true })
        ∙ ap (λ (c : Bool). c || have_payload test lvs) (keeps f))
    visit_payload-flag (luks header p) f =
        visit_payload-flag p (record f { luks = true })
        ∙ ap (λ (c : Bool). c || has_payload test p) (on_luks header p f)
        ∙ or_assoc (flag f) (test (luks header p)) (has_payload test p)

    visit_volumes-flag :
        (lvs : LogicalVolumes) (f : PartitionTableFeatures)
        → flag (visit_volumes lvs f) ≡ (flag f || have_payload test lvs)
    visit_volumes-flag no_volumes f = sym (or-false (flag f))
    visit_volumes-flag (volume n s p lvs) f =
        visit_volumes-flag lvs (visit_payload p (record f { lvm = true }))
        ∙ ap (λ (c : Bool). c || have_payload test lvs)
            (visit_payload-flag p (record f { lvm = true })
              ∙ ap (λ (c : Bool). c || has_payload test p) (keeps f))
        ∙ or_assoc (flag f) (has_payload test p) (have_payload test lvs)

  pub visit_partitions-flag :
      (parts : List Partition) (f : PartitionTableFeatures)
      → flag (visit_partitions parts f) ≡ (flag f || has_payload_in test parts)
  unfolding visit_partitions
  visit_partitions-flag [] f = sym (or-false (flag f))
  visit_partitions-flag (part ∷ parts) f =
      visit_partitions-flag parts (visit_payload part.payload f)
      ∙ ap (λ (c : Bool). c || has_payload_in test parts) (visit_payload-flag part.payload f)
      ∙ or_assoc (flag f) (has_payload test part.payload) (has_payload_in test parts)
