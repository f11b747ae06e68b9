-- ===== src/Disk/Modes/Converted.antt =====
-- `ensureLVM` and `ensureBtrfs` move the root to a logical volume and to a subvolume, and the
-- mountpoints of the table stay.

use image_builder.Prelude.{
  ℕ, zero, suc, String, ◌≡◌, refl, ap, ◌∙◌, sym, Bool, true, ◌||◌, inl, inr, Option, none, some,
  List, [], ◌∷◌, str_eq, eq_iff, Bool-cases, Option-cases, arith, get_elem?, if◌then◌else◌,
}
use image_builder.Prelude.Result.{Result, ok, ◌>>=◌, wrap, IfOk, IfOk-bind, IfOk-total}
use image_builder.Disk.Errors.{Error, converting_to_btrfs}
use image_builder.Disk.Entities.{
  Filesystem, Payload, filesystem, Partition, PartitionTableType, PartitionTable,
}
use image_builder.Disk.Types.{Arch, partition_type_id}
use image_builder.Disk.Paths.{
  EntityPath, is_some, is_some-first_path, is_some-through, first_path, through, path_payload,
  path_subvolumes, path_partition, path_partitions, entity_path, contains_mountpoint,
}
use image_builder.Disk.Create.{append_volume, create_logical_volume}
use image_builder.Disk.Create.Contains.{or_false}
use image_builder.Disk.Modes.{
  Parent, in_partition, in_volume, in_btrfs, in_luks, parent_below, parent_in, parent_at,
  wrap_in_volume, convert_at, convert_to_lvm, root_to_lvm, btrfs_partition, wrap_in_btrfs,
  convert_to_btrfs, root_to_btrfs,
}
use image_builder.Disk.Modes.Plain.{
  plain_payload, parent_below-above, first_path-inv, first_path-none, through-inv,
}

-- The two payloads have the same mountpoints.
abbrev SameMountpoints : Payload → Payload → Type 0
SameMountpoints p p' =
    (target : String) → is_some (path_payload p' target) ≡ is_some (path_payload p target)

-- The root is below the payload, and what holds it is of the given kind.
abbrev HasRoot : Parent → Payload → Type 0
HasRoot goal p =
    (path : EntityPath) × (path_payload p "/" ≡ some path)
    × ((i : ℕ) → parent_below p path (in_partition i) ≡ goal)

-- A filesystem "/" of a partition goes into a payload of the new kind.
abbrev Wrapped : Parent → Partition → Partition → Type 0
Wrapped goal part part' = SameMountpoints part.payload part'.payload × HasRoot goal part'.payload

wrap_in_volume-Wrapped :
    (type : PartitionTableType) (part : Partition) (fs : Filesystem)
    → part.payload ≡ filesystem fs
    → str_eq "/" fs.mountpoint ≡ true
    → IfOk (Wrapped in_volume part) (wrap_in_volume type part)
unfolding wrap_in_volume create_logical_volume append_volume path_payload parent_below first_path
    through
wrap_in_volume-Wrapped type part fs e root = (
  λ target.
      is_some-first_path (through (path_payload part.payload target)) none
      ∙ or_false (is_some (through (path_payload part.payload target)))
      ∙ is_some-through (path_payload part.payload target),
  (
    0 ∷ 0 ∷ [],
    ap (λ p. first_path (through (path_payload p "/")) none) e ∙ rw root refl,
    λ i. ap (λ p. parent_below p [] in_volume) e,
  ),
)

wrap_in_btrfs-Wrapped :
    (type : PartitionTableType) (architecture : Arch) (part : Partition) (fs : Filesystem)
    → part.payload ≡ filesystem fs
    → str_eq "/" fs.mountpoint ≡ true
    → IfOk (Wrapped in_btrfs part) (wrap_in_btrfs type architecture part)
unfolding wrap_in_btrfs path_payload path_subvolumes parent_below first_path
wrap_in_btrfs-Wrapped type architecture part fs e root =
    IfOk-bind (λ (id : String). Unit {0}) (Wrapped in_btrfs part)
      (wrap converting_to_btrfs (partition_type_id type "root" architecture))
      (λ id. ok (btrfs_partition part id)) (IfOk-total (λ (id : String). Unit {0}) _ (λ id. tt))
      (λ id _. (same, (0 ∷ [], refl, λ i. refl)))
  where
    before :
        (target : String)
        → is_some (path_payload part.payload target)
          ≡ is_some {A = EntityPath} (if str_eq target "/" then some [] else none)
    before target =
        ap (λ p. is_some (path_payload p target)) e
        ∙ ap (λ (m : String). is_some {A = EntityPath} (if str_eq target m then some [] else none))
            (sym ((eq_iff "/" fs.mountpoint).0 root))

    same :
        (target : String)
        → is_some (path_payload (btrfs_partition part "").payload target)
          ≡ is_some (path_payload part.payload target)
    same target = elim (Bool-cases (str_eq target "/")) [
      | inl is ↦ rw is (sym (before target ∙ rw is refl))
      | inr other ↦ rw other (sym (before target ∙ rw other refl))
    ]

-- A conversion of the partition of "/" that wraps its filesystem.
module _ (goal : Parent) (f : Partition → Result Error Partition)
    (wraps : (part : Partition) (fs : Filesystem)
      → part.payload ≡ filesystem fs
      → str_eq "/" fs.mountpoint ≡ true
      → IfOk (Wrapped goal part) (f part)) where
  -- The partitions behind the conversion of the one at an index.
  abbrev ConvertedAt : List Partition → ℕ → List Partition → Type 0
  ConvertedAt parts i parts' =
      ((target : String)
        → is_some (path_partitions parts' target) ≡ is_some (path_partitions parts target))
      × (path : EntityPath) × (path_partitions parts' "/" ≡ some (i ∷ 0 ∷ path))
      × (part : Partition) × (get_elem? parts' i ≡ some part)
      × ((k : ℕ) → parent_below part.payload path (in_partition k) ≡ goal)

  convert_at-ConvertedAt :
      (parts : List Partition) (i j k : ℕ) (path : EntityPath) (part : Partition)
      → path_partitions parts "/" ≡ some (i ∷ j ∷ path)
      → get_elem? parts i ≡ some part
      → parent_below part.payload path (in_partition k) ≡ in_partition k
      → IfOk (ConvertedAt parts i) (convert_at f parts i)
  unfolding convert_at path_partitions
  convert_at-ConvertedAt [] i j k path part h e at = tt
  convert_at-ConvertedAt (part' ∷ parts) zero j k path part h e at =
      elim (first_path-inv (path_partition part' "/") (path_partitions parts "/") 0 (j ∷ path) h) [
        | inr (k', e', later) ↦ absurd (omega (arith, e'))
        | inl (e', here) ↦
            let found = (through-inv (path_payload part'.payload "/") j path here).1 in
            let is : part' ≡ part = cc in
            let (fs, plain, root) =
              plain_payload part'.payload "/" path k found
                (ap (λ (p : Partition). parent_below p.payload path (in_partition k)) is ∙ at) in
            IfOk-bind (Wrapped goal part') (ConvertedAt (part' ∷ parts) 0) (f part')
              (λ new. ok (new ∷ parts)) (wraps part' fs plain root)
              (λ new (same, (path', found', parent)). (
                λ target.
                    is_some-first_path (path_partition new target) (path_partitions parts target)
                    ∙ ap (λ (b : Bool). b || is_some (path_partitions parts target))
                        (is_some-through (path_payload new.payload target)
                          ∙ same target
                          ∙ sym (is_some-through (path_payload part'.payload target)))
                    ∙ sym (
                        is_some-first_path (path_partition part' target)
                          (path_partitions parts target)),
                path',
                ap (λ o. first_path (through o) (path_partitions parts "/")) found',
                new,
                refl,
                parent,
              ))
      ]
  convert_at-ConvertedAt (part' ∷ parts) (suc i) j k path part h e at =
      elim (first_path-inv (path_partition part' "/") (path_partitions parts "/") (suc i) (j ∷ path)
        h) [
          | inl (e', here) ↦ absurd (omega (arith, e'))
          | inr (k', e', later) ↦
              let without =
                first_path-none (path_partition part' "/") (path_partitions parts "/") i (j ∷ path)
                  h in
              IfOk-bind (ConvertedAt parts i) (ConvertedAt (part' ∷ parts) (suc i))
                (convert_at f parts i) (λ parts'. ok (part' ∷ parts'))
                (convert_at-ConvertedAt parts i j k path part
                  (later ∙ ap (λ (n : ℕ). some (n ∷ j ∷ path)) (omega (arith, e'))) e at)
                (λ parts' (same, path', found', new, there, parent). (
                  λ target.
                      is_some-first_path (path_partition part' target)
                        (path_partitions parts' target)
                      ∙ ap (λ (b : Bool). is_some (path_partition part' target) || b) (same target)
                      ∙ sym (
                          is_some-first_path (path_partition part' target)
                            (path_partitions parts target)),
                  path',
                  ap (λ o. first_path o (path_partitions parts' "/")) without
                      ∙ ap (first_path none) found',
                  new,
                  there,
                  parent,
                ))
        ]

-- The table with its root moved: the same mountpoints, and the root in what the mode asks for.
abbrev pub IsConverted : Parent → PartitionTable → PartitionTable → Type 0
IsConverted goal pt pt' =
    ((target : String) → contains_mountpoint pt' target ≡ contains_mountpoint pt target)
    × (path : EntityPath) × (entity_path pt' "/" ≡ some path)
    × (parent_at pt' path ≡ some goal)

pub none-apart : {parent : Parent} → none ≡ some parent → ⊥
none-apart h = cc

pub some-injective : {a b : Parent} → some a ≡ some b → a ≡ b
some-injective h = cc

pub in_partition-injective : {i k : ℕ} → in_partition i ≡ in_partition k → i ≡ k
in_partition-injective h = cc

module _ (goal : Parent) (f : Partition → Result Error Partition)
    (wraps : (part : Partition) (fs : Filesystem)
      → part.payload ≡ filesystem fs
      → str_eq "/" fs.mountpoint ≡ true
      → IfOk (Wrapped goal part) (f part)) where
  convert_at-IsConverted :
      (pt : PartitionTable) (path : EntityPath) (i : ℕ)
      → entity_path pt "/" ≡ some path
      → parent_at pt path ≡ some (in_partition i)
      → IfOk
          (IsConverted goal pt)
          (convert_at f pt.partitions i >>= λ parts. ok (record pt { partitions = parts }))
  unfolding entity_path contains_mountpoint parent_at
  convert_at-IsConverted pt [] i h at = cc
  convert_at-IsConverted pt (i' ∷ []) i h at = cc
  convert_at-IsConverted pt (i' ∷ j ∷ path) i h at =
      elim (Option-cases (get_elem? pt.partitions i')) [
        | inl e ↦ absurd (none-apart (ap (λ o. parent_in o i' path) (sym e) ∙ at))
        | inr (part, e) ↦
            let here : parent_below part.payload path (in_partition i') ≡ in_partition i =
              some-injective (ap (λ o. parent_in o i' path) (sym e) ∙ at) in
            let same : i ≡ i' =
              in_partition-injective
                (sym (parent_below-above part.payload path (in_partition i') i here)) in
            rw same (
              IfOk-bind (ConvertedAt goal f wraps pt.partitions i') (IsConverted goal pt)
                (convert_at f pt.partitions i') (λ parts. ok (record pt { partitions = parts }))
                (convert_at-ConvertedAt goal f wraps pt.partitions i' j i' path part h e
                  (here ∙ ap (λ k. in_partition k) same))
                (λ parts (kept, path', found, new, there, parent). (
                  kept,
                  i' ∷ 0 ∷ path',
                  found,
                  ap (λ o. parent_in o i' path') there ∙ ap (λ (p : Parent). some p) (parent i'),
                )))
      ]

convert_to_lvm-IsConverted :
    (pt : PartitionTable) (path : EntityPath)
    → entity_path pt "/" ≡ some path
    → (parent : Option Parent) → parent_at pt path ≡ parent
    → IfOk (IsConverted in_volume pt) (convert_to_lvm pt parent)
unfolding convert_to_lvm
convert_to_lvm-IsConverted pt path found none at = tt
convert_to_lvm-IsConverted pt path found (some in_volume) at = ((λ target. refl), path, found, at)
convert_to_lvm-IsConverted pt path found (some in_btrfs) at = tt
convert_to_lvm-IsConverted pt path found (some in_luks) at = tt
convert_to_lvm-IsConverted pt path found (some (in_partition i)) at =
    convert_at-IsConverted in_volume (wrap_in_volume pt.type) (wrap_in_volume-Wrapped pt.type) pt
      path i found at

convert_to_btrfs-IsConverted :
    (pt : PartitionTable) (architecture : Arch) (path : EntityPath)
    → entity_path pt "/" ≡ some path
    → (parent : Option Parent) → parent_at pt path ≡ parent
    → IfOk (IsConverted in_btrfs pt) (convert_to_btrfs pt architecture parent)
unfolding convert_to_btrfs
convert_to_btrfs-IsConverted pt architecture path found none at = tt
convert_to_btrfs-IsConverted pt architecture path found (some in_btrfs) at =
    ((λ target. refl), path, found, at)
convert_to_btrfs-IsConverted pt architecture path found (some in_volume) at = tt
convert_to_btrfs-IsConverted pt architecture path found (some in_luks) at = tt
convert_to_btrfs-IsConverted pt architecture path found (some (in_partition i)) at =
    convert_at-IsConverted in_btrfs (wrap_in_btrfs pt.type architecture)
      (wrap_in_btrfs-Wrapped pt.type architecture) pt path i found at

pub root_to_lvm-IsConverted :
    (pt : PartitionTable) → IfOk (IsConverted in_volume pt) (root_to_lvm pt)
unfolding root_to_lvm
root_to_lvm-IsConverted pt = elim (Option-cases (entity_path pt "/")) [
  | inl absent ↦ rw (absent, IfOk) tt
  | inr (path, found) ↦
      rw (found, IfOk) (convert_to_lvm-IsConverted pt path found (parent_at pt path) refl)
]

pub root_to_btrfs-IsConverted :
    (pt : PartitionTable) (architecture : Arch)
    → IfOk (IsConverted in_btrfs pt) (root_to_btrfs pt architecture)
unfolding root_to_btrfs
root_to_btrfs-IsConverted pt architecture = elim (Option-cases (entity_path pt "/")) [
  | inl absent ↦ rw (absent, IfOk) tt
  | inr (path, found) ↦
      rw (found, IfOk)
        (convert_to_btrfs-IsConverted pt architecture path found (parent_at pt path) refl)
]
