-- ===== src/Disk/Features/Packages.antt =====
-- A build package is required exactly where an entity of the table needs it.
use mathlib.Core.Bool.{or-true, or-false, and-true, and-false}
use image_builder.Prelude.{
  String, ◌≡◌, refl, ap, ◌∙◌, sym, Bool, true, false, ◌||◌, ◌&&◌, List, [], ◌∷◌, ◌++◌, str_eq,
  Bool-cases, inl, inr, eq_iff, if◌then◌else◌,
}
use image_builder.Text.{contains}
use image_builder.Disk.Entities.{
  Payload, no_payload, filesystem, swap, raw, btrfs, volume_group, luks, LogicalVolumes, no_volumes,
  volume, Partition, PartitionTable,
}
use image_builder.Disk.Create.Contains.{or_assoc}
use image_builder.Disk.Features.{
  PartitionTableFeatures, no_features, visit_fs_type, visit_payload, visit_volumes,
  visit_partitions, features, packages_for, get_build_packages,
}
use image_builder.Disk.Features.Flags.{
  has_payload, has_payload_in, is_volume_group, is_luks, is_filesystem, is_btrfs,
  visit_partitions-flag,
}

ruleset bool_laws = (and-true, and-false, or-true, or-false)

contains-append :
    (xs ys : List String) (x : String) → contains (xs ++ ys) x ≡ (contains xs x || contains ys x)
unfolding contains
contains-append [] ys x = refl
contains-append (z ∷ xs) ys x =
    ap (λ (b : Bool). str_eq z x || b) (contains-append xs ys x)
    ∙ sym (or_assoc (str_eq z x) (contains xs x) (contains ys x))

-- A conditional part of the list, before the others and at the end.
contains-if :
    (a : Bool) (xs ys : List String) (x : String) {b : Bool}
    → contains ys x ≡ b
    → contains ((if a then xs else []) ++ ys) x ≡ ((a && contains xs x) || b)
unfolding contains
contains-if true xs ys x h = contains-append xs ys x ∙ ap (λ (b : Bool). contains xs x || b) h
contains-if false xs ys x h = h

contains-if_last :
    (a : Bool) (xs : List String) (x : String)
    → contains (if a then xs else []) x ≡ (a && contains xs x)
unfolding contains
contains-if_last true xs x = refl
contains-if_last false xs x = refl

packages_eq :
    (f : PartitionTableFeatures) (x : String)
    → contains (packages_for f) x ≡ (
        (f.lvm && contains ("lvm2" ∷ []) x)
        || ((f.btrfs && contains ("btrfs-progs" ∷ []) x)
            || ((f.xfs && contains ("xfsprogs" ∷ []) x)
                || ((f.fat && contains ("dosfstools" ∷ []) x)
                    || ((f.ext4 && contains ("e2fsprogs" ∷ []) x)
                        || (f.luks
                            && contains ("clevis" ∷ "clevis-luks" ∷ "cryptsetup" ∷ []) x))))))
unfolding packages_for
packages_eq f x = contains-if f.lvm _ _ x (
    contains-if f.btrfs _ _ x (
      contains-if f.xfs _ _ x
        (contains-if f.fat _ _ x (contains-if f.ext4 _ _ x (contains-if_last f.luks _ x)))))

-- The flag that a filesystem's type sets.
type_flag :
    (type : String) (f : PartitionTableFeatures)
    → ((visit_fs_type type f).fat ≡ (f.fat || str_eq type "vfat"))
      × ((visit_fs_type type f).btrfs ≡ (f.btrfs || str_eq type "btrfs"))
      × ((visit_fs_type type f).xfs ≡ (f.xfs || str_eq type "xfs"))
      × ((visit_fs_type type f).ext4 ≡ (f.ext4 || str_eq type "ext4"))
      × ((visit_fs_type type f).luks ≡ f.luks)
      × ((visit_fs_type type f).lvm ≡ f.lvm)
unfolding visit_fs_type
type_flag type f = elim (Bool-cases (str_eq type "vfat")) [
  | inl is_vfat ↦ rw ((eq_iff type "vfat").0 is_vfat) (
    sym (or-true f.fat),
    sym (or-false f.btrfs),
    sym (or-false f.xfs),
    sym (or-false f.ext4),
    refl,
    refl,
  )
  | inr not_vfat ↦ elim (Bool-cases (str_eq type "btrfs")) [
    | inl is_btrfs_type ↦ rw ((eq_iff type "btrfs").0 is_btrfs_type) (
      sym (or-false f.fat),
      sym (or-true f.btrfs),
      sym (or-false f.xfs),
      sym (or-false f.ext4),
      refl,
      refl,
    )
    | inr not_btrfs ↦ elim (Bool-cases (str_eq type "xfs")) [
      | inl is_xfs ↦ rw ((eq_iff type "xfs").0 is_xfs) (
        sym (or-false f.fat),
        sym (or-false f.btrfs),
        sym (or-true f.xfs),
        sym (or-false f.ext4),
        refl,
        refl,
      )
      | inr not_xfs ↦ elim (Bool-cases (str_eq type "ext4")) [
        | inl is_ext4 ↦ rw ((eq_iff type "ext4").0 is_ext4) (
          sym (or-false f.fat),
          sym (or-false f.btrfs),
          sym (or-false f.xfs),
          sym (or-true f.ext4),
          refl,
          refl,
        )
        | inr not_ext4 ↦
            rw (not_vfat, not_btrfs, not_xfs, not_ext4)
              (
                sym (or-false f.fat),
                sym (or-false f.btrfs),
                sym (or-false f.xfs),
                sym (or-false f.ext4),
                refl,
                refl,
              )
      ]
    ]
  ]
]

-- The flag of LVM stays set, and a volume group sets it.
mutual
  unfolding visit_payload

  visit_payload-lvm :
      (p : Payload) (f : PartitionTableFeatures) → f.lvm ≡ true → (visit_payload p f).lvm ≡ true
  visit_payload-lvm no_payload f h = h
  visit_payload-lvm (filesystem fs) f h = (type_flag fs.type f).5 ∙ h
  visit_payload-lvm (swap s) f h = h
  visit_payload-lvm (raw r) f h = h
  visit_payload-lvm (btrfs b) f h = h
  visit_payload-lvm (volume_group n d lvs) f h = visit_volumes-lvm lvs _ refl
  visit_payload-lvm (luks header p) f h = visit_payload-lvm p _ h

  visit_volumes-lvm :
      (lvs : LogicalVolumes) (f : PartitionTableFeatures)
      → f.lvm ≡ true
      → (visit_volumes lvs f).lvm ≡ true
  visit_volumes-lvm no_volumes f h = h
  visit_volumes-lvm (volume n s p lvs) f h = visit_volumes-lvm lvs _ (visit_payload-lvm p _ refl)

visit_payload-group :
    (p : Payload) (f : PartitionTableFeatures)
    → (visit_payload p f).lvm ≡ (f.lvm || has_payload is_volume_group p)
unfolding visit_payload has_payload
visit_payload-group no_payload f = sym (or-false f.lvm)
visit_payload-group (filesystem fs) f = (type_flag fs.type f).5 ∙ sym (or-false f.lvm)
visit_payload-group (swap s) f = sym (or-false f.lvm)
visit_payload-group (raw r) f = sym (or-false f.lvm)
visit_payload-group (btrfs b) f = sym (or-false f.lvm)
visit_payload-group (volume_group n d lvs) f = visit_volumes-lvm lvs _ refl ∙ sym (or-true f.lvm)
visit_payload-group (luks header p) f = visit_payload-group p (record f { luks = true })

visit_partitions-group :
    (parts : List Partition) (f : PartitionTableFeatures)
    → (visit_partitions parts f).lvm ≡ (f.lvm || has_payload_in is_volume_group parts)
unfolding visit_partitions
visit_partitions-group [] f = sym (or-false f.lvm)
visit_partitions-group (part ∷ parts) f =
    visit_partitions-group parts (visit_payload part.payload f)
    ∙ ap (λ (c : Bool). c || has_payload_in is_volume_group parts)
        (visit_payload-group part.payload f)
    ∙ or_assoc f.lvm (has_payload is_volume_group part.payload)
        (has_payload_in is_volume_group parts)

luks_flag :
    (parts : List Partition)
    → (visit_partitions parts no_features).luks ≡ has_payload_in is_luks parts
luks_flag parts =
    visit_partitions-flag (λ f. f.luks) is_luks (λ f. refl) (λ n d lvs. refl) refl
      (λ fs f. (type_flag fs.type f).4 ∙ sym (or-false f.luks)) (λ s f. sym (or-false f.luks))
      (λ r f. sym (or-false f.luks)) (λ b f. sym (or-false f.luks))
      (λ header p f. sym (or-true f.luks)) parts no_features

-- `GetBuildPackages` lists lvm2 exactly where a payload of the table is a volume group, btrfs-progs
-- where one is a Btrfs volume or filesystem, xfsprogs, dosfstools and e2fsprogs where one is a
-- filesystem of type xfs, vfat and ext4, and cryptsetup, clevis and clevis-luks where one is a LUKS
-- container.
pub contains-get_build_packages :
    (pt : PartitionTable)
    → (contains (get_build_packages pt) "lvm2" ≡ has_payload_in is_volume_group pt.partitions)
      × (contains (get_build_packages pt) "btrfs-progs" ≡ has_payload_in is_btrfs pt.partitions)
      × (contains (get_build_packages pt) "xfsprogs"
          ≡ has_payload_in (is_filesystem "xfs") pt.partitions)
      × (contains (get_build_packages pt) "dosfstools"
          ≡ has_payload_in (is_filesystem "vfat") pt.partitions)
      × (contains (get_build_packages pt) "e2fsprogs"
          ≡ has_payload_in (is_filesystem "ext4") pt.partitions)
      × (contains (get_build_packages pt) "cryptsetup" ≡ has_payload_in is_luks pt.partitions)
      × (contains (get_build_packages pt) "clevis" ≡ has_payload_in is_luks pt.partitions)
      × (contains (get_build_packages pt) "clevis-luks" ≡ has_payload_in is_luks pt.partitions)
unfolding get_build_packages features contains
contains-get_build_packages pt = (
  packages_eq (features pt) "lvm2"
      ∙ (simp bool_laws)
      ∙ visit_partitions-group pt.partitions no_features,
  packages_eq (features pt) "btrfs-progs"
      ∙ (simp bool_laws)
      ∙ visit_partitions-flag (λ f. f.btrfs) is_btrfs (λ f. refl) (λ n d lvs. refl) refl
          (λ fs f. (type_flag fs.type f).1) (λ s f. sym (or-false f.btrfs))
          (λ r f. sym (or-false f.btrfs)) (λ b f. sym (or-true f.btrfs))
          (λ header p f. sym (or-false f.btrfs)) pt.partitions no_features,
  packages_eq (features pt) "xfsprogs"
      ∙ (simp bool_laws)
      ∙ visit_partitions-flag (λ f. f.xfs) (is_filesystem "xfs") (λ f. refl) (λ n d lvs. refl) refl
          (λ fs f. (type_flag fs.type f).2) (λ s f. sym (or-false f.xfs))
          (λ r f. sym (or-false f.xfs)) (λ b f. sym (or-false f.xfs))
          (λ header p f. sym (or-false f.xfs)) pt.partitions no_features,
  packages_eq (features pt) "dosfstools"
      ∙ (simp bool_laws)
      ∙ visit_partitions-flag (λ f. f.fat) (is_filesystem "vfat") (λ f. refl) (λ n d lvs. refl) refl
          (λ fs f. (type_flag fs.type f).0) (λ s f. sym (or-false f.fat))
          (λ r f. sym (or-false f.fat)) (λ b f. sym (or-false f.fat))
          (λ header p f. sym (or-false f.fat)) pt.partitions no_features,
  packages_eq (features pt) "e2fsprogs"
      ∙ (simp bool_laws)
      ∙ visit_partitions-flag (λ f. f.ext4) (is_filesystem "ext4") (λ f. refl) (λ n d lvs. refl)
          refl (λ fs f. (type_flag fs.type f).3) (λ s f. sym (or-false f.ext4))
          (λ r f. sym (or-false f.ext4)) (λ b f. sym (or-false f.ext4))
          (λ header p f. sym (or-false f.ext4)) pt.partitions no_features,
  packages_eq (features pt) "cryptsetup" ∙ (simp bool_laws) ∙ luks_flag pt.partitions,
  packages_eq (features pt) "clevis" ∙ (simp bool_laws) ∙ luks_flag pt.partitions,
  packages_eq (features pt) "clevis-luks" ∙ (simp bool_laws) ∙ luks_flag pt.partitions,
)
