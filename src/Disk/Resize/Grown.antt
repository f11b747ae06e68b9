-- ===== src/Disk/Resize/Grown.antt =====
-- After a branch is resized, its mountpoint has at least the size asked for.
use mathlib.Core.Option
use mathlib.Core.Path.{subst}
use image_builder.Prelude.{
  ℕ, zero, suc, ◌+◌, ◌≤◌, ◌<◌, String, ◌≡◌, ◌∙◌, refl, Option, none, some, List, [], ◌∷◌, arith,
  ltb, get_elem?, length, or_else, Bool-cases, inl, inr, All,
}
use image_builder.Prelude.Result.{Result, ok}
use image_builder.Disk.Errors.{Error}
use image_builder.Word.{u64_mod}
use image_builder.Disk.Align.{lvm_default_extent_size}
use image_builder.Disk.Align.Rounding.{align_extent-IsRoundedUp}
use image_builder.Disk.Entities.{
  BtrfsSubvolume, Payload, no_payload, filesystem, swap, raw, btrfs, volume_group, luks,
  LogicalVolumes, no_volumes, volume, Partition, PartitionTable,
}
use image_builder.Disk.Paths.{EntityPath, entity_path}
use image_builder.Disk.Sizes.Totals.{need}
use image_builder.Disk.Resize.{
  resize_container, resize_subvolumes, ensure_volume, resize_payload, resize_volumes,
  ensure_partition, resize_partitions, resize_entity_branch, sized_payload, sized_volumes,
  sized_partitions, get_mountpoint_size,
}
use image_builder.Disk.Resize.Passes.{
  Ends, EndsVolumes, weight, weight_volumes, Passes, payload-Passes,
}
use image_builder.Disk.Resize.Ends.{EndsPartitions, path_partitions-EndsPartitions}
use image_builder.Disk.Resize.Fits.{HasRoom, partitions-resize_table}
use image_builder.Disk.Resize.Shape.{entity_path-resize_entity_branch}

-- The first sizeable entity of the path is large enough; where there is none yet, the size that is
-- passed up is.
abbrev Grown : (size : ℕ) → (sized up : Option ℕ) → Type 0
Grown size (some s) up = size ≤ s
Grown size none none = ⊥
Grown size none (some u) = size ≤ u

Grown-map :
    (f : ℕ → ℕ) (size : ℕ) (sized up : Option ℕ)
    → ((u : ℕ) → u ≤ f u)
    → Grown size sized up
    → Grown size sized (Option.map f up)
Grown-map f size (some s) up h g = g
Grown-map f size none none h g = g
Grown-map f size none (some u) h g = omega (arith, h u)

resize_container-grows : (p : Payload) (u : ℕ) → u ≤ resize_container p u
unfolding resize_container
resize_container-grows (btrfs b) u = ground arith
resize_container-grows (volume_group n d lvs) u = ground arith
resize_container-grows (luks header p) u = ground arith
resize_container-grows no_payload u = omega arith
resize_container-grows (filesystem fs) u = omega arith
resize_container-grows (swap s) u = omega arith
resize_container-grows (raw r) u = omega arith

subvolumes-Grown :
    (svs : List BtrfsSubvolume) (i size : ℕ)
    → i < length svs
    → Grown size
        (Option.map
          (λ (sv : BtrfsSubvolume). sv.size)
          (get_elem? (resize_subvolumes svs i size).0 i))
        none
unfolding resize_subvolumes
subvolumes-Grown [] i size h = absurd (omega arith)
subvolumes-Grown (sv ∷ svs) zero size h = elim (Bool-cases (ltb sv.size size)) [
  | inl larger ↦ rw larger (omega arith)
  | inr kept ↦ rw kept (ground arith)
]
subvolumes-Grown (sv ∷ svs) (suc i) size h = subvolumes-Grown svs i size (omega arith)

Grown-any : (size : ℕ) (sized up : Option ℕ) → Grown size sized none → Grown size sized up
Grown-any size (some s) up g = g
Grown-any size none up g = absurd g

or_else-Grown :
    (size s : ℕ) (sized up : Option ℕ)
    → Grown size sized up
    → (sized ≡ none → size ≤ s)
    → Grown size (or_else sized (some s)) none
or_else-Grown size s (some t) up g h = g
or_else-Grown size s none up g h = h refl

abbrev Within : ℕ → Option ℕ → Type 0
Within bound none = Unit
Within bound (some u) = u ≤ bound

Passes-Within :
    (before after weight size : ℕ) (up : Option ℕ)
    → Passes before after weight size up
    → Within (weight + size) up
Passes-Within before after weight size none h = tt
Passes-Within before after weight size (some u) h = h.2

ensure_volume-Grown :
    (n : String) (s : ℕ) (p : Payload) (lvs : LogicalVolumes) (j : ℕ) (path : EntityPath)
    (size bound : ℕ) (up : Option ℕ)
    → bound + lvm_default_extent_size < u64_mod
    → Within bound up
    → Grown size (sized_payload p path) up
    → Grown size (sized_volumes (ensure_volume n s p lvs up).0 zero (j ∷ path)) none
unfolding ensure_volume sized_payload
ensure_volume-Grown n s p lvs j path size bound none h w g =
    or_else-Grown size s (sized_payload p path) none g
      (λ e. absurd (subst (λ o. Grown size o none) e g))
ensure_volume-Grown n s p lvs j path size bound (some u) h w g = elim (Bool-cases (ltb s u)) [
  | inl larger ↦ rw larger (
      or_else-Grown size _ (sized_payload p path) (some u) g (λ e.
        let v : size ≤ u = subst (λ o. Grown size o (some u)) e g in
        omega (arith, v, align_extent-IsRoundedUp u (omega (arith, w)))))
  | inr kept ↦ rw kept (
      or_else-Grown size s (sized_payload p path) (some u) g
        (λ e. let v : size ≤ u = subst (λ o. Grown size o (some u)) e g in ground (arith, v, kept)))
]

ensure_volume-Grown_self :
    (n : String) (s : ℕ) (p : Payload) (lvs : LogicalVolumes) (size : ℕ)
    → size + lvm_default_extent_size < u64_mod
    → Grown size (sized_volumes (ensure_volume n s p lvs (some size)).0 zero []) none
unfolding ensure_volume sized_payload
ensure_volume-Grown_self n s p lvs size h = elim (Bool-cases (ltb s size)) [
  | inl larger ↦ rw larger (omega (arith, align_extent-IsRoundedUp size h))
  | inr kept ↦ rw kept (ground (arith, kept))
]

mutual
  unfolding resize_payload sized_payload

  payload-Grown :
      (p : Payload) (path : EntityPath) (size : ℕ)
      → weight p + size < u64_mod
      → Ends p path
      → Grown size
          (sized_payload (resize_payload p path size).0 path)
          (resize_payload p path size).1
  payload-Grown (btrfs b) (i ∷ path) size h e =
      Grown-any size _ _ (subvolumes-Grown b.subvolumes i size e)
  payload-Grown (volume_group n d lvs) (i ∷ path) size h e =
      Grown-any size _ _ (volumes-Grown lvs i path size (omega arith) e)
  payload-Grown (luks header p) (i ∷ path) size h e =
      let (p', up) = resize_payload p path size in
      Grown-map (resize_container (luks header p')) size (sized_payload p' path) up
        (resize_container-grows (luks header p')) (payload-Grown p path size (omega arith) e)
  payload-Grown (filesystem fs) [] size h e = resize_container-grows (filesystem fs) size
  payload-Grown (filesystem fs) (i ∷ path) size h e = resize_container-grows (filesystem fs) size
  payload-Grown no_payload path size h e = absurd e
  payload-Grown (swap s) path size h e = absurd e
  payload-Grown (raw r) path size h e = absurd e
  payload-Grown (btrfs b) [] size h e = absurd e
  payload-Grown (volume_group n d lvs) [] size h e = absurd e
  payload-Grown (luks header p) [] size h e = absurd e

  volumes-Grown :
      (lvs : LogicalVolumes) (i : ℕ) (path : EntityPath) (size : ℕ)
      → weight_volumes lvs + size < u64_mod
      → EndsVolumes lvs i path
      → Grown size (sized_volumes (resize_volumes lvs i path size).0 i path) none
  volumes-Grown no_volumes i path size h e = absurd e
  volumes-Grown (volume n s p lvs) zero [] size h e =
      ensure_volume-Grown_self n s p lvs size (omega arith)
  volumes-Grown (volume n s p lvs) zero (j ∷ path) size h e =
      let (p', up) = resize_payload p path size in
      ensure_volume-Grown n s p' lvs j path size (weight p + size) up (omega arith)
        (Passes-Within (need p) _ _ _ _ (payload-Passes p path size (omega arith) e))
        (payload-Grown p path size (omega arith) e)
  volumes-Grown (volume n s p lvs) (suc i) path size h e =
      volumes-Grown lvs i path size (omega arith) e

ensure_partition-Grown :
    (part : Partition) (sized up : Option ℕ) (size : ℕ)
    → Grown size sized up
    → Grown size (or_else sized (some (ensure_partition part up).0.size)) none
unfolding ensure_partition
ensure_partition-Grown part (some s) up size g = g
ensure_partition-Grown part none none size g = absurd g
ensure_partition-Grown part none (some u) size g = ground (arith, g)

payload-ensure_partition :
    (part : Partition) (up : Option ℕ) → (ensure_partition part up).0.payload ≡ part.payload
unfolding ensure_partition
payload-ensure_partition part none = refl
payload-ensure_partition part (some u) = ground arith

partitions-Grown :
    (parts : List Partition) (path : EntityPath) (size : ℕ)
    → All (HasRoom size) parts
    → EndsPartitions parts path
    → Grown size (sized_partitions (resize_partitions parts path size).0 path) none
unfolding resize_partitions sized_partitions
partitions-Grown [] path size h e = absurd e
partitions-Grown (part ∷ parts) [] size h e = absurd e
partitions-Grown (part ∷ parts) (zero ∷ []) size h e =
    ensure_partition-Grown part none (some size) size (omega arith)
partitions-Grown (part ∷ parts) (zero ∷ j ∷ path) size h e =
    let (p, up) = resize_payload part.payload path size in
    rw (payload-ensure_partition (record part { payload = p }) up) (
      ensure_partition-Grown (record part { payload = p }) (sized_payload p path) up size
        (payload-Grown part.payload path size h.0 e))
partitions-Grown (part ∷ parts) (suc i ∷ path) size h e =
    partitions-Grown parts (i ∷ path) size h.1 e

sized_cases :
    (size table : ℕ) (sized : Option ℕ)
    → Grown size sized none
    → (s : ℕ) × (◌≡◌ {A = Result Error ℕ} (elim sized [ none ↦ ok table | some t ↦ ok t ]) (ok s))
      × (size ≤ s)
sized_cases size table none g = absurd g
sized_cases size table (some s) g = (s, refl, g)

get_mountpoint_size-eq :
    (pt : PartitionTable) (target : String) (path : EntityPath)
    → entity_path pt target ≡ some path
    → get_mountpoint_size pt target
      ≡ elim (sized_partitions pt.partitions path) [ none ↦ ok pt.size | some s ↦ ok s ]
unfolding get_mountpoint_size
get_mountpoint_size-eq pt target path e = ground arith

-- After the branch of a mountpoint is resized to `size`, `GetMountpointSize` returns at least
-- `size` for it, provided that the sizes together fit 64 bits.
pub get_mountpoint_size-resize_entity_branch :
    (pt : PartitionTable) (target : String) (path : EntityPath) (size : ℕ)
    → entity_path pt target ≡ some path
    → All (HasRoom size) pt.partitions
    → (s : ℕ) × (get_mountpoint_size (resize_entity_branch pt path size) target ≡ ok s) × (size ≤ s)
unfolding resize_entity_branch
get_mountpoint_size-resize_entity_branch pt target path size e h =
    let after = resize_entity_branch pt path size in
    let (parts, up) = resize_partitions pt.partitions path size in
    let found : entity_path after target ≡ some path =
      entity_path-resize_entity_branch pt path size target ∙ e in
    rw
      (
        get_mountpoint_size-eq after target path found,
        partitions-resize_table (record pt { partitions = parts }) up,
      )
      (sized_cases size after.size (sized_partitions parts path) (
        partitions-Grown pt.partitions path size h
          (unfold entity_path in path_partitions-EndsPartitions pt.partitions target path e)))
