-- ===== src/Disk/Custom/Boot/Needed.antt =====
-- When a "/boot" partition is needed.
use mathlib.Core.Bool.{or-true, or-false, and-true, and-false}
use image_builder.Prelude.{
  String, ◌≡◌, refl, ap, ◌∙◌, Bool, true, false, not, ◌&&◌, ◌||◌, List, [], ◌∷◌, str_eq, eq_iff,
  Bool-cases, inl, inr,
}
use image_builder.Disk.Create.Contains.{or_assoc}
use image_builder.Disk.Custom.{PartitionCustomization, is_plain}
use image_builder.Disk.Custom.Boot.{
  BootNeeds, subvolumes_have, visit_customization, boot_needs, decide_boot, no_needs, needs_boot,
}

-- A plain partition for this mountpoint.
abbrev pub is_plain_at : String → PartitionCustomization → Bool
is_plain_at mountpoint part = is_plain part && str_eq part.mountpoint mountpoint

abbrev pub is_btrfs_volume : PartitionCustomization → Bool
is_btrfs_volume part =
    not (is_plain part) && (not (str_eq part.type "lvm") && str_eq part.type "btrfs")

-- A volume group or a Btrfs volume.
abbrev pub is_volume : PartitionCustomization → Bool
is_volume part = not (is_plain part) && (str_eq part.type "lvm" || str_eq part.type "btrfs")

-- A Btrfs volume with subvolumes for both "/" and "/boot".
abbrev pub has_root_and_boot : PartitionCustomization → Bool
has_root_and_boot part =
    is_btrfs_volume part
    && (subvolumes_have "/" part.subvolumes && subvolumes_have "/boot" part.subvolumes)

abbrev pub any : (PartitionCustomization → Bool) → List PartitionCustomization → Bool
any test [] = false
any test (part ∷ parts) = test part || any test parts

-- What one round does to each flag.
Visited : PartitionCustomization → BootNeeds → BootNeeds → Type 0
Visited part n n' =
    (n'.found_btrfs_or_lvm ≡ (n.found_btrfs_or_lvm || is_volume part))
    × (n'.has_plain_root ≡ (n.has_plain_root || is_plain_at "/" part))
    × (n'.has_plain_boot ≡ (n.has_plain_boot || is_plain_at "/boot" part))
    × (n'.has_btrfs_root_with_boot ≡ (n.has_btrfs_root_with_boot || has_root_and_boot part))
    × ((n.root_needs_boot ≡ true → n.found_btrfs_or_lvm ≡ true)
        → n'.root_needs_boot ≡ true
        → n'.found_btrfs_or_lvm ≡ true)

ruleset bool_laws = (or-true, or-false, and-true, and-false)

visit_customization-Visited :
    (part : PartitionCustomization) (n : BootNeeds) → Visited part n (visit_customization part n)
unfolding visit_customization Visited
visit_customization-Visited part n = elim (Bool-cases (is_plain part)) [
  | inl plain ↦ elim (Bool-cases (str_eq part.mountpoint "/")) [
    | inl is_root ↦
        rw (plain, (eq_iff part.mountpoint "/").0 is_root)
          (simp bool_laws, simp bool_laws, simp bool_laws, simp bool_laws, λ h. h)
    | inr not_root ↦ elim (Bool-cases (str_eq part.mountpoint "/boot")) [
      | inl is_boot ↦
          rw (plain, (eq_iff part.mountpoint "/boot").0 is_boot)
            (simp bool_laws, simp bool_laws, simp bool_laws, simp bool_laws, λ h. h)
      | inr other ↦
          rw (plain, not_root, other)
            (simp bool_laws, simp bool_laws, simp bool_laws, simp bool_laws, λ h. h)
    ]
  ]
  | inr not_plain ↦ elim (Bool-cases (str_eq part.type "lvm")) [
    | inl is_lvm ↦
        rw (not_plain, is_lvm)
          (simp bool_laws, simp bool_laws, simp bool_laws, simp bool_laws, λ h k. refl)
    | inr not_lvm ↦ elim (Bool-cases (str_eq part.type "btrfs")) [
      | inl is_btrfs ↦
          rw (not_plain, not_lvm, is_btrfs)
            (simp bool_laws, simp bool_laws, simp bool_laws, refl, λ h k. refl)
      | inr other ↦
          rw (not_plain, not_lvm, other)
            (simp bool_laws, simp bool_laws, simp bool_laws, simp bool_laws, λ h. h)
    ]
  ]
]

-- What the loop does to the flags that decide.
AllVisited : List PartitionCustomization → BootNeeds → BootNeeds → Type 0
AllVisited parts n n' =
    (n'.found_btrfs_or_lvm ≡ (n.found_btrfs_or_lvm || any is_volume parts))
    × (n'.has_plain_root ≡ (n.has_plain_root || any (is_plain_at "/") parts))
    × (n'.has_plain_boot ≡ (n.has_plain_boot || any (is_plain_at "/boot") parts))
    × (n'.has_btrfs_root_with_boot ≡ (n.has_btrfs_root_with_boot || any has_root_and_boot parts))
    × ((n.root_needs_boot ≡ true → n.found_btrfs_or_lvm ≡ true)
        → n'.root_needs_boot ≡ true
        → n'.found_btrfs_or_lvm ≡ true)

or_step : (a d e : Bool) {b c : Bool} → c ≡ (b || e) → b ≡ (a || d) → c ≡ (a || (d || e))
or_step a d e h k = h ∙ ap (λ (x : Bool). x || e) k ∙ or_assoc a d e

boot_needs-AllVisited :
    (parts : List PartitionCustomization) (n : BootNeeds) → AllVisited parts n (boot_needs parts n)
unfolding boot_needs AllVisited Visited
boot_needs-AllVisited [] n =
    (simp bool_laws, simp bool_laws, simp bool_laws, simp bool_laws, λ h. h)
boot_needs-AllVisited (part ∷ parts) n =
    let v = visit_customization-Visited part n in
    let w = boot_needs-AllVisited parts (visit_customization part n) in
    (
      or_step n.found_btrfs_or_lvm (is_volume part) (any is_volume parts) w.0 v.0,
      or_step n.has_plain_root (is_plain_at "/" part) (any (is_plain_at "/") parts) w.1 v.1,
      or_step n.has_plain_boot (is_plain_at "/boot" part) (any (is_plain_at "/boot") parts) w.2 v.2,
      or_step n.has_btrfs_root_with_boot (has_root_and_boot part) (any has_root_and_boot parts) w.3
          v.3,
      λ h. w.4 (v.4 h),
    )

decide_boot-eq :
    (n : BootNeeds)
    → (n.root_needs_boot ≡ true → n.found_btrfs_or_lvm ≡ true)
    → decide_boot n ≡ (
        not (n.has_plain_root || (n.has_plain_boot || n.has_btrfs_root_with_boot))
        && n.found_btrfs_or_lvm)
unfolding decide_boot
decide_boot-eq n h =
    elim (Bool-cases (n.has_plain_root || (n.has_plain_boot || n.has_btrfs_root_with_boot))) [
      | inl enough ↦ rw enough refl
      | inr undecided ↦ elim (Bool-cases n.root_needs_boot) [
        | inl needed ↦ rw (undecided, needed, h needed) refl
        | inr not_needed ↦ rw (undecided, not_needed) refl
      ]
    ]

-- `needsBoot` asks for a "/boot" partition exactly where there is a volume group or a Btrfs volume
-- and no plain partition for "/", none for "/boot" and no Btrfs volume with subvolumes for both. Thus a
-- plain "/boot" is enough where no root is defined, and a logical volume for "/boot" is not enough.
pub needs_boot-eq :
    (parts : List PartitionCustomization)
    → needs_boot parts ≡ (
        not (
          any (is_plain_at "/") parts
          || (any (is_plain_at "/boot") parts || any has_root_and_boot parts))
        && any is_volume parts)
unfolding needs_boot AllVisited
needs_boot-eq parts =
    let w = boot_needs-AllVisited parts no_needs in
    decide_boot-eq (boot_needs parts no_needs) (w.4 (λ h. cc)) ∙ rw (w.0, w.1, w.2, w.3) refl
