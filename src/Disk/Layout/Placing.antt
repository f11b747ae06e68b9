-- ===== src/Disk/Layout/Placing.antt =====
-- Placing partitions one behind the other, as the loop of `relayout` does, where nothing wraps
-- around.
use image_builder.Prelude.{
  ℕ, ◌+◌, ◌%◌, ◌≤◌, ◌<◌, ◌≡◌, refl, true, false, List, [], ◌∷◌, ◌++◌, arith, All,
}
use image_builder.Word.{u64_mod, add64}
use image_builder.Disk.Align.{grain_size, lvm_default_extent_size}
use image_builder.Disk.Align.Rounding.{align_up-IsRoundedUp}
use image_builder.Disk.Entities.{Partition, PartitionTable}
use image_builder.Disk.Sizes.{fitted_size}
use image_builder.Disk.Sizes.Totals.{need, fitted_size_bounds}
use image_builder.Disk.Layout.{contains_root, place, place_others}

-- The most that a partition can take up once it is placed.
abbrev pub claim : PartitionTable → Partition → ℕ
claim pt part = part.size + need part.payload + lvm_default_extent_size + grain_size pt

abbrev pub claims : PartitionTable → List Partition → ℕ
claims pt [] = 0
claims pt (part ∷ parts) = claim pt part + claims pt parts

-- A placed partition starts where it is put, its size is a multiple of the grain, and it is as large
-- as the given partition and as its contents need.
pub record IsPlaced (pt : PartitionTable) (start : ℕ) (part placed : Partition) : Type 0 where
  pub starts : placed.start ≡ start
  pub aligned : placed.size % grain_size pt ≡ 0
  pub kept : part.size ≤ placed.size
  pub roomy : need part.payload ≤ placed.size
  pub bounded : placed.size ≤ claim pt part
  pub payload : placed.payload ≡ part.payload

pub place-IsPlaced :
    (pt : PartitionTable) (start : ℕ) (part : Partition)
    → claim pt part < u64_mod
    → IsPlaced pt start part (place pt start part)
unfolding place
place-IsPlaced pt start part h =
    let b = fitted_size_bounds part.payload part.size (omega arith) in
    let r = align_up-IsRoundedUp pt (fitted_size part.payload part.size) (omega (arith, b)) in
    record {
      starts = refl;
      aligned = r.multiple;
      kept = omega (arith, b, r.above);
      roomy = omega (arith, b, r.above);
      bounded = omega (arith, b, r.least);
      payload = refl;
    }

-- Partitions that are no root, placed from `start` on, and the end of the last one.
unfoldable pub lay : PartitionTable → ℕ → List Partition → List Partition
lay pt start [] = []
lay pt start (part ∷ parts) =
    place pt start part ∷ lay pt (add64 start (place pt start part).size) parts

unfoldable pub lay_end : PartitionTable → ℕ → List Partition → ℕ
lay_end pt start [] = start
lay_end pt start (part ∷ parts) = lay_end pt (add64 start (place pt start part).size) parts

abbrev pub NoRoot : List Partition → Type 0
NoRoot parts = All (λ part. contains_root part ≡ false) parts

place_others-others :
    (pt : PartitionTable) (start : ℕ) (ys : List Partition)
    → NoRoot ys
    → place_others pt start ys ≡ (lay pt start ys, lay_end pt start ys)
unfolding place_others lay lay_end
place_others-others pt start [] h = refl
place_others-others pt start (part ∷ parts) h =
    rw h.0 (rw (place_others-others pt (add64 start (place pt start part).size) parts h.1) refl)

-- With one root partition the loop places the others, and leaves the root where it stands.
pub place_others-eq :
    (pt : PartitionTable) (start : ℕ) (xs : List Partition) (root : Partition) (ys : List Partition)
    → NoRoot xs
    → contains_root root ≡ true
    → NoRoot ys
    → place_others pt start (xs ++ root ∷ ys) ≡ (
      lay pt start xs ++ root ∷ lay pt (lay_end pt start xs) ys,
      lay_end pt (lay_end pt start xs) ys,
    )
unfolding place_others lay lay_end
place_others-eq pt start [] root ys hx hr hy = rw hr (rw (place_others-others pt start ys hy) refl)
place_others-eq pt start (x ∷ xs) root ys hx hr hy =
    rw hx.0
      (rw (place_others-eq pt (add64 start (place pt start x).size) xs root ys hx.1 hr hy) refl)
