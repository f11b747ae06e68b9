-- ===== src/Disk/Modes/Returned.antt =====
-- Where `ensureLVM` and `ensureBtrfs` return a table.
use image_builder.Prelude.{
  ℕ, zero, suc, String, ◌≡◌, refl, ap, ◌∙◌, sym, true, some, List, [], ◌∷◌, get_elem?, Option-cases,
  inl, inr,
}
use image_builder.Prelude.Result.{Result, ok, err, panic, ◌>>=◌, wrap, IfOk}
use image_builder.Disk.Errors.{Error, converting_to_btrfs}
use image_builder.Disk.Entities.{Partition, PartitionTableType, PartitionTable}
use image_builder.Disk.Types.{Arch, partition_type_id}
use image_builder.Disk.Paths.{EntityPath, entity_path}
use image_builder.Disk.Create.{create_logical_volume, volume_name}
use image_builder.Disk.Modes.{
  in_partition, in_volume, in_btrfs, parent_in, parent_at, wrap_in_volume, btrfs_partition,
  wrap_in_btrfs, convert_at, convert_to_lvm, convert_to_btrfs, root_to_lvm, root_to_btrfs,
  ensure_boot_for_lvm, ensure_boot_for_btrfs, ensure_lvm, ensure_btrfs,
}
use image_builder.Disk.Modes.Plain.{parent_below-above}
use image_builder.Disk.Modes.Converted.{some-injective, in_partition-injective, none-apart}
use image_builder.Disk.Modes.Ensured.{
  IsEnsured, adds_boot, ensure_lvm-IsEnsured, ensure_btrfs-IsEnsured,
}

-- The table that is returned satisfies the predicate.
abbrev pub Returns : (PartitionTable → Type 0) → Result Error PartitionTable → Type 0
Returns P r = (pt : PartitionTable) × (r ≡ ok pt) × P pt

Returns-IfOk :
    (P : PartitionTable → Type 0) (r : Result Error PartitionTable) (pt : PartitionTable)
    → r ≡ ok pt
    → IfOk P r
    → Returns P r
Returns-IfOk P (ok pt') pt e h = (pt', refl, h)
Returns-IfOk P (err error) pt e h = cc
Returns-IfOk P panic pt e h = cc

-- The partition that holds the root is in the table.
root_partition-found :
    (pt : PartitionTable) (path : EntityPath) (i : ℕ)
    → parent_at pt path ≡ some (in_partition i)
    → (part : Partition) × (get_elem? pt.partitions i ≡ some part)
unfolding parent_at parent_in
root_partition-found pt [] i at = cc
root_partition-found pt (i' ∷ []) i at = cc
root_partition-found pt (i' ∷ j ∷ path) i at = elim (Option-cases (get_elem? pt.partitions i')) [
  | inl e ↦ absurd (none-apart (ap (λ o. parent_in o i' path) (sym e) ∙ at))
  | inr (part, e) ↦ (
    part,
    ap (get_elem? pt.partitions) (
          in_partition-injective (
            sym (
              parent_below-above part.payload path (in_partition i') i
                (some-injective (ap (λ o. parent_in o i' path) (sym e) ∙ at)))))
        ∙ e,
  )
]

convert_at-ok :
    (f : Partition → Result Error Partition)
    (makes : (part : Partition) → (part' : Partition) × (f part ≡ ok part'))
    (parts : List Partition) (i : ℕ) (part : Partition)
    → get_elem? parts i ≡ some part
    → (parts' : List Partition) × (convert_at f parts i ≡ ok parts')
unfolding convert_at
convert_at-ok f makes [] i part e = cc
convert_at-ok f makes (p ∷ parts) zero part e =
    ((makes p).0 ∷ parts, ap (λ r. r >>= λ part'. ok (part' ∷ parts)) (makes p).1)
convert_at-ok f makes (p ∷ parts) (suc i) part e =
    let (parts', h) = convert_at-ok f makes parts i part e in
    (p ∷ parts', ap (λ r. r >>= λ parts'. ok (p ∷ parts')) h)

wrap_in_volume-ok :
    (type : PartitionTableType) (part : Partition)
    → (part' : Partition) × (wrap_in_volume type part ≡ ok part')
unfolding wrap_in_volume create_logical_volume volume_name
wrap_in_volume-ok type part = (_, refl)

wrap_in_btrfs-ok :
    (type : PartitionTableType) (architecture : Arch) (id : String)
    → partition_type_id type "root" architecture ≡ ok id
    → (part : Partition) → (part' : Partition) × (wrap_in_btrfs type architecture part ≡ ok part')
unfolding wrap_in_btrfs
wrap_in_btrfs-ok type architecture id e part = (
  btrfs_partition part id,
  ap (λ r. wrap converting_to_btrfs r >>= λ id. ok (btrfs_partition part id)) e,
)

-- A table with its root on a plain partition and with "/boot".
pub record IsPlain (pt : PartitionTable) : Type 0 where
  pub root : EntityPath
  pub boot : EntityPath
  pub partition : ℕ
  pub has_root : entity_path pt "/" ≡ some root
  pub has_boot : entity_path pt "/boot" ≡ some boot
  pub on_partition : parent_at pt root ≡ some (in_partition partition)

root_to_lvm-ok :
    (pt : PartitionTable) (plain : IsPlain pt) → (pt' : PartitionTable) × (root_to_lvm pt ≡ ok pt')
unfolding root_to_lvm convert_to_lvm
root_to_lvm-ok pt plain =
    let (part, there) = root_partition-found pt plain.root plain.partition plain.on_partition in
    let (parts, converted) =
      convert_at-ok (wrap_in_volume pt.type) (wrap_in_volume-ok pt.type) pt.partitions
        plain.partition part there in
    rw (plain.has_root, root_to_lvm, plain.on_partition, converted)
      (record pt { partitions = parts }, refl)

-- `ensureLVM` returns a table for every table with "/boot" and with its root on a plain partition: it
-- has the same mountpoints, and its root is on a logical volume.
pub ensure_lvm-Returns :
    (pt : PartitionTable) (fs_type : String)
    → IsPlain pt
    → Returns (IsEnsured in_volume true pt) (ensure_lvm pt fs_type)
unfolding ensure_lvm ensure_boot_for_lvm
ensure_lvm-Returns pt fs_type plain =
    let (pt', converted) = root_to_lvm-ok pt plain in
    Returns-IfOk (IsEnsured in_volume true pt) (ensure_lvm pt fs_type) pt'
      (rw (plain.has_root, ensure_lvm, plain.has_boot) converted) (ensure_lvm-IsEnsured pt fs_type)

root_to_btrfs-ok :
    (pt : PartitionTable) (architecture : Arch) (id : String) (plain : IsPlain pt)
    → partition_type_id pt.type "root" architecture ≡ ok id
    → (pt' : PartitionTable) × (root_to_btrfs pt architecture ≡ ok pt')
unfolding root_to_btrfs convert_to_btrfs
root_to_btrfs-ok pt architecture id plain e =
    let (part, there) = root_partition-found pt plain.root plain.partition plain.on_partition in
    let (parts, converted) =
      convert_at-ok (wrap_in_btrfs pt.type architecture)
        (wrap_in_btrfs-ok pt.type architecture id e) pt.partitions plain.partition part there in
    rw (plain.has_root, root_to_btrfs, plain.on_partition, converted)
      (record pt { partitions = parts }, refl)

-- `ensureBtrfs` returns a table for every table with "/boot" and with its root on a plain partition,
-- where the type of table and the architecture have a type identifier for a root partition: it has the
-- same mountpoints, and its root is on a Btrfs subvolume.
pub ensure_btrfs-Returns :
    (pt : PartitionTable) (fs_type : String) (architecture : Arch) (id : String)
    → IsPlain pt
    → partition_type_id pt.type "root" architecture ≡ ok id
    → Returns (IsEnsured in_btrfs (adds_boot pt.policy) pt) (ensure_btrfs pt fs_type architecture)
unfolding ensure_btrfs ensure_boot_for_btrfs
ensure_btrfs-Returns pt fs_type architecture id plain e =
    let (pt', converted) = root_to_btrfs-ok pt architecture id plain e in
    Returns-IfOk (IsEnsured in_btrfs (adds_boot pt.policy) pt)
      (ensure_btrfs pt fs_type architecture) pt'
      (rw (plain.has_root, ensure_btrfs, plain.has_boot) converted)
      (ensure_btrfs-IsEnsured pt fs_type architecture)
