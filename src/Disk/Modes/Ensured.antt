-- ===== src/Disk/Modes/Ensured.antt =====
-- What `ensureLVM` and `ensureBtrfs` ensure of the table that they return.
use mathlib.Core.Path.{subst}
use image_builder.Prelude.{
  String, ◌≡◌, refl, ap, ◌∙◌, sym, Bool, true, false, ◌||◌, ◌&&◌, inl, inr, Option, none, some,
  str_eq, Option-cases, if◌then◌else◌,
}
use image_builder.Prelude.Result.{ok, wrap, IfOk, IfOk-bind, IfOk-map, IfOk-wrap, IfOk-total}
use image_builder.Disk.Errors.{creating_boot}
use image_builder.Disk.Entities.{PartitionTable, PartitionTablePolicy}
use image_builder.Disk.Types.{Arch}
use image_builder.Disk.Paths.{EntityPath, is_some, entity_path, contains_mountpoint}
use image_builder.Disk.Create.{create_mountpoint}
use image_builder.Disk.Create.Contains.{create_mountpoint-Adds, or_false}
use image_builder.Disk.Customize.Applied.{already_there}
use image_builder.Disk.Modes.{
  Parent, in_volume, in_btrfs, parent_at, root_to_lvm, ensure_boot_for_lvm, ensure_lvm,
  root_to_btrfs, ensure_boot_for_btrfs, ensure_btrfs, ensures_xbootldr, default_boot_partition_size,
}
use image_builder.Disk.Modes.Converted.{
  IsConverted, root_to_lvm-IsConverted, root_to_btrfs-IsConverted,
}

-- The mountpoints of the first table with "/boot", where it is added.
abbrev HasBoot : Bool → PartitionTable → PartitionTable → Type 0
HasBoot added pt pt' =
    (target : String)
    → contains_mountpoint pt' target
      ≡ (contains_mountpoint pt target || (added && str_eq target "/boot"))

-- Besides, the root is on what the mode asks for.
abbrev pub IsEnsured : Parent → Bool → PartitionTable → PartitionTable → Type 0
IsEnsured goal added pt pt' =
    HasBoot added pt pt'
    × (path : EntityPath) × (entity_path pt' "/" ≡ some path)
    × (parent_at pt' path ≡ some goal)

IsConverted-IsEnsured :
    (goal : Parent) (added : Bool) (pt pt1 pt2 : PartitionTable)
    → HasBoot added pt pt1
    → IsConverted goal pt1 pt2
    → IsEnsured goal added pt pt2
IsConverted-IsEnsured goal added pt pt1 pt2 boot c =
    ((λ target. c.0 target ∙ boot target), c.1, c.2, c.3)

create_mountpoint-HasBoot :
    (pt : PartitionTable) (fs_type : String)
    → IfOk (HasBoot true pt) (create_mountpoint pt "/boot" fs_type default_boot_partition_size)
unfolding contains_mountpoint entity_path
create_mountpoint-HasBoot pt fs_type =
    create_mountpoint-Adds pt "/boot" fs_type default_boot_partition_size

had_boot :
    (pt : PartitionTable) (added : Bool) (boot : EntityPath)
    → entity_path pt "/boot" ≡ some boot
    → HasBoot added pt pt
had_boot pt true boot found target =
    already_there (contains_mountpoint pt) "/boot" target
      (unfold contains_mountpoint in ap (is_some {A = EntityPath}) found)
had_boot pt false boot found target = sym (or_false (contains_mountpoint pt target))

ensure_boot_for_lvm-HasBoot :
    (pt : PartitionTable) (fs_type : String) (boot : Option EntityPath)
    → entity_path pt "/boot" ≡ boot
    → IfOk (HasBoot true pt) (ensure_boot_for_lvm pt fs_type boot)
unfolding ensure_boot_for_lvm
ensure_boot_for_lvm-HasBoot pt fs_type (some boot) found = had_boot pt true boot found
ensure_boot_for_lvm-HasBoot pt fs_type none absent =
    IfOk-bind (λ (b : Bool). Unit {0}) (HasBoot true pt) (ensures_xbootldr pt.policy) _
      (IfOk-total (λ (b : Bool). Unit {0}) _ (λ b. tt))
      (elim [ true ↦ λ _. create_mountpoint-HasBoot pt fs_type | false ↦ λ _. tt ])

-- A table that `ensureLVM` returns has the mountpoints of the given one and "/boot", and its root is
-- on a logical volume.
pub ensure_lvm-IsEnsured :
    (pt : PartitionTable) (fs_type : String)
    → IfOk (IsEnsured in_volume true pt) (ensure_lvm pt fs_type)
unfolding ensure_lvm
ensure_lvm-IsEnsured pt fs_type = elim (Option-cases (entity_path pt "/")) [
  | inl absent ↦ rw (absent, IfOk) tt
  | inr (path, found) ↦
      rw (found, IfOk)
        (IfOk-bind (HasBoot true pt) (IsEnsured in_volume true pt)
          (ensure_boot_for_lvm pt fs_type (entity_path pt "/boot")) root_to_lvm
          (ensure_boot_for_lvm-HasBoot pt fs_type (entity_path pt "/boot") refl)
          (λ pt1 boot.
            IfOk-map (IsConverted in_volume pt1) (IsEnsured in_volume true pt) (root_to_lvm pt1)
              (root_to_lvm-IsConverted pt1)
              (λ pt2 c. IsConverted-IsEnsured in_volume true pt pt1 pt2 boot c)))
]

-- Whether a table without "/boot" gets one: its policy asks for it.
abbrev pub adds_boot : Option PartitionTablePolicy → Bool
adds_boot none = false
adds_boot (some policy) = policy.ensure_xbootldr

ensures_xbootldr-adds_boot :
    (policy : Option PartitionTablePolicy)
    → IfOk (λ b. b ≡ adds_boot policy) (ensures_xbootldr policy)
unfolding ensures_xbootldr
ensures_xbootldr-adds_boot none = tt
ensures_xbootldr-adds_boot (some policy) = refl

boot_if_asked :
    (pt : PartitionTable) (fs_type : String) (ensures : Bool)
    → IfOk (HasBoot ensures pt) (
        if ensures
        then wrap creating_boot (create_mountpoint pt "/boot" fs_type default_boot_partition_size)
        else ok pt)
boot_if_asked pt fs_type true =
    IfOk-wrap (HasBoot true pt) creating_boot
      (create_mountpoint pt "/boot" fs_type default_boot_partition_size)
      (create_mountpoint-HasBoot pt fs_type)
boot_if_asked pt fs_type false = λ target. sym (or_false (contains_mountpoint pt target))

ensure_boot_for_btrfs-HasBoot :
    (pt : PartitionTable) (fs_type : String) (boot : Option EntityPath)
    → entity_path pt "/boot" ≡ boot
    → IfOk (HasBoot (adds_boot pt.policy) pt) (ensure_boot_for_btrfs pt fs_type boot)
unfolding ensure_boot_for_btrfs
ensure_boot_for_btrfs-HasBoot pt fs_type (some boot) found =
    had_boot pt (adds_boot pt.policy) boot found
ensure_boot_for_btrfs-HasBoot pt fs_type none absent =
    IfOk-bind (λ b. b ≡ adds_boot pt.policy) (HasBoot (adds_boot pt.policy) pt)
      (ensures_xbootldr pt.policy) _ (ensures_xbootldr-adds_boot pt.policy)
      (λ ensures e.
        IfOk-map (HasBoot ensures pt) (HasBoot (adds_boot pt.policy) pt)
          (if ensures
            then wrap creating_boot
                (create_mountpoint pt "/boot" fs_type default_boot_partition_size)
            else ok pt)
          (boot_if_asked pt fs_type ensures) (λ pt1 h. subst (λ b. HasBoot b pt pt1) e h))

-- A table that `ensureBtrfs` returns has the mountpoints of the given one, and "/boot" if the policy
-- asks for it, and no others, and its root is on a Btrfs subvolume.
pub ensure_btrfs-IsEnsured :
    (pt : PartitionTable) (fs_type : String) (architecture : Arch)
    → IfOk (IsEnsured in_btrfs (adds_boot pt.policy) pt) (ensure_btrfs pt fs_type architecture)
unfolding ensure_btrfs
ensure_btrfs-IsEnsured pt fs_type architecture = elim (Option-cases (entity_path pt "/")) [
  | inl absent ↦ rw (absent, IfOk) tt
  | inr (path, found) ↦
      rw (found, IfOk)
        (IfOk-bind (HasBoot (adds_boot pt.policy) pt) (IsEnsured in_btrfs (adds_boot pt.policy) pt)
          (ensure_boot_for_btrfs pt fs_type (entity_path pt "/boot"))
          (λ pt1. root_to_btrfs pt1 architecture)
          (ensure_boot_for_btrfs-HasBoot pt fs_type (entity_path pt "/boot") refl)
          (λ pt1 boot.
            IfOk-map (IsConverted in_btrfs pt1) (IsEnsured in_btrfs (adds_boot pt.policy) pt)
              (root_to_btrfs pt1 architecture) (root_to_btrfs-IsConverted pt1 architecture)
              (λ pt2 c. IsConverted-IsEnsured in_btrfs (adds_boot pt.policy) pt pt1 pt2 boot c)))
]
