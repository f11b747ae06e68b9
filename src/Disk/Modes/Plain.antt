-- ===== src/Disk/Modes/Plain.antt =====
-- A mountable that a partition holds is the partition's own filesystem.

use image_builder.Prelude.{
  ℕ, zero, suc, String, ◌≡◌, refl, ap, ◌∙◌, true, ◌⊎◌, inl, inr, Option, none, some, List, [], ◌∷◌,
  str_eq, Bool-cases, arith,
}
use image_builder.Disk.Entities.{
  Filesystem, BtrfsSubvolume, Payload, no_payload, filesystem, swap, raw, btrfs, volume_group, luks,
  LogicalVolumes, no_volumes, volume,
}
use image_builder.Disk.Paths.{
  EntityPath, first_path, through, path_subvolumes, path_payload, path_volumes,
}
use image_builder.Disk.Modes.{Parent, in_partition, in_volume, in_luks, parent_below, parent_among}

pub first_path-inv :
    (a b : Option EntityPath) (i : ℕ) (rest : EntityPath)
    → first_path a b ≡ some (i ∷ rest)
    → ((i ≡ 0) × (a ≡ some rest)) ⊎ ((k : ℕ) × (i ≡ suc k) × (b ≡ some (k ∷ rest)))
unfolding first_path
first_path-inv (some path) b i rest h = inl (cc, cc)
first_path-inv none none i rest h = cc
first_path-inv none (some []) i rest h = cc
first_path-inv none (some (k ∷ path)) i rest h = inr (k, cc, cc)

pub first_path-none :
    (a b : Option EntityPath) (i : ℕ) (rest : EntityPath)
    → first_path a b ≡ some (suc i ∷ rest)
    → a ≡ none
unfolding first_path
first_path-none (some path) b i rest h = cc
first_path-none none b i rest h = refl

pub through-inv :
    (a : Option EntityPath) (j : ℕ) (rest : EntityPath)
    → through a ≡ some (j ∷ rest)
    → (j ≡ 0) × (a ≡ some rest)
unfolding through
through-inv none j rest h = cc
through-inv (some path) j rest h = (cc, cc)

in_luks-apart : (i : ℕ) → in_luks ≡ in_partition i → ⊥
in_luks-apart i h = cc

in_volume-apart : (i : ℕ) → in_volume ≡ in_partition i → ⊥
in_volume-apart i h = cc

none-apart : {path : EntityPath} → none ≡ some path → ⊥
none-apart h = cc

first_path-nil : (a b : Option EntityPath) → first_path a b ≡ some [] → b ≡ some []
unfolding first_path
first_path-nil (some path) b h = cc
first_path-nil none none h = cc
first_path-nil none (some []) h = refl
first_path-nil none (some (k ∷ path)) h = cc

through-nil : (a : Option EntityPath) → through a ≡ some [] → ⊥
unfolding through
through-nil none h = cc
through-nil (some path) h = cc

-- Only the partition itself is a parent that is a partition.
mutual
  unfolding parent_below

  pub parent_below-above :
      (p : Payload) (path : EntityPath) (above : Parent) (i : ℕ)
      → parent_below p path above ≡ in_partition i
      → above ≡ in_partition i
  parent_below-above (btrfs b) (j ∷ path) above i h = cc
  parent_below-above (volume_group n d lvs) (j ∷ path) above i h =
      parent_among-above lvs j path above i h
  parent_below-above (luks header p) (j ∷ path) above i h =
      absurd (in_luks-apart i (parent_below-above p path in_luks i h))
  parent_below-above p path above i h = h

  parent_among-above :
      (lvs : LogicalVolumes) (j : ℕ) (path : EntityPath) (above : Parent) (i : ℕ)
      → parent_among lvs j path above ≡ in_partition i
      → above ≡ in_partition i
  parent_among-above (volume n s p lvs) zero (k ∷ path) above i h =
      absurd (in_volume-apart i (parent_below-above p path in_volume i h))
  parent_among-above (volume n s p lvs) (suc j) path above i h =
      parent_among-above lvs j path above i h
  parent_among-above lvs j path above i h = h

-- The parent of a mountable below a volume group is not a partition.
path_volumes-inner :
    (g d : String) (lvs : LogicalVolumes) (target : String) (path : EntityPath)
    → path_volumes lvs target ≡ some path
    → (above : Parent) (i : ℕ) → parent_below (volume_group g d lvs) path above ≡ in_partition i
    → ⊥
unfolding path_payload parent_below
path_volumes-inner g d no_volumes target path h above i at = cc
path_volumes-inner g d (volume n s p lvs) target [] h above i at =
    path_volumes-inner g d lvs target []
      (first_path-nil (through (path_payload p target)) (path_volumes lvs target) h) above i at
path_volumes-inner g d (volume n s p lvs) target (zero ∷ []) h above i at =
    elim (first_path-inv (through (path_payload p target)) (path_volumes lvs target) 0 [] h) [
      | inl (e, here) ↦ through-nil (path_payload p target) here
      | inr (k, e, later) ↦ absurd (omega (arith, e))
    ]
path_volumes-inner g d (volume n s p lvs) target (zero ∷ k ∷ path) h above i at =
    in_volume-apart i (parent_below-above p path in_volume i at)
path_volumes-inner g d (volume n s p lvs) target (suc j ∷ path) h above i at =
    elim (first_path-inv (through (path_payload p target)) (path_volumes lvs target) (suc j) path
      h) [
        | inl (e, here) ↦ absurd (omega (arith, e))
        | inr (k, e, later) ↦
            path_volumes-inner g d lvs target (j ∷ path)
              (later ∙ ap (λ (k : ℕ). some (k ∷ path)) (omega (arith, e))) above i at
      ]

path_subvolumes-inner :
    (svs : List BtrfsSubvolume) (target : String) → path_subvolumes svs target ≡ some [] → ⊥
unfolding path_subvolumes
path_subvolumes-inner [] target h = cc
path_subvolumes-inner (sv ∷ svs) target h =
    path_subvolumes-inner svs target (first_path-nil _ (path_subvolumes svs target) h)

-- A payload whose mountable has the partition for its parent is a filesystem.
pub plain_payload :
    (p : Payload) (target : String) (path : EntityPath) (i : ℕ)
    → path_payload p target ≡ some path
    → parent_below p path (in_partition i) ≡ in_partition i
    → (fs : Filesystem) × (p ≡ filesystem fs) × (str_eq target fs.mountpoint ≡ true)
unfolding path_payload parent_below
plain_payload no_payload target path i h at = cc
plain_payload (filesystem fs) target path i h at = elim (Bool-cases (str_eq target fs.mountpoint)) [
  | inl same ↦ (fs, refl, same)
  | inr other ↦ absurd (none-apart {path = path} (rw other at h))
]
plain_payload (swap s) target path i h at = cc
plain_payload (raw r) target path i h at = cc
plain_payload (btrfs b) target [] i h at = absurd (path_subvolumes-inner b.subvolumes target h)
plain_payload (btrfs b) target (j ∷ path) i h at = cc
plain_payload (volume_group n d lvs) target path i h at =
    absurd (path_volumes-inner n d lvs target path h (in_partition i) i at)
plain_payload (luks header p) target [] i h at = absurd (through-nil (path_payload p target) h)
plain_payload (luks header p) target (j ∷ path) i h at =
    absurd (in_luks-apart i (parent_below-above p path in_luks i at))
