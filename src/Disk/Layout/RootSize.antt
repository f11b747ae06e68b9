-- ===== src/Disk/Layout/RootSize.antt =====
-- The size of the table and of the root partition that `relayout` chooses.
use image_builder.Prelude.{ℕ, ◌+◌, ◌≤◌, ◌<◌, ◌≡◌, refl, true, arith}
use image_builder.Word.{u64_mod, add64, sub64, add64-eq, sub64-eq}
use image_builder.Disk.Align.{grain_size, align_up}
use image_builder.Disk.Align.Rounding.{align_up-IsRoundedUp}
use image_builder.Disk.Entities.{Partition, PartitionTable}
use image_builder.Disk.Sizes.{at_least}
use image_builder.Disk.Layout.{grow_root_to_fill_disk, reserved_size, table_size, root_size}

pub record IsTableSize (pt : PartitionTable) (size : ℕ) (root : Partition) (table : ℕ)
    : Type 0 where
  pub inside : root.start + root.size + reserved_size pt ≤ table
  pub requested : size ≤ table
  pub present : pt.size ≤ table
  pub fits : table < u64_mod

-- The three sizes that `table_size` compares.
max_bounds :
    (a b c : ℕ)
    → (a ≤ at_least (at_least a b) c)
      × (b ≤ at_least (at_least a b) c)
      × (c ≤ at_least (at_least a b) c)
      × ((m : ℕ) → a < m → b < m → c < m → at_least (at_least a b) c < m)
unfolding at_least
max_bounds a b c = (ground arith, ground arith, ground arith, λ m p q r. ground arith)

table_size-eq :
    (pt : PartitionTable) (size : ℕ) (root : Partition)
    → table_size pt size root
      ≡ at_least
          (at_least
            (align_up pt (add64 (add64 root.start (reserved_size pt)) root.size))
            (align_up pt size))
          pt.size
unfolding table_size
table_size-eq pt size root = refl

pub table_size-IsTableSize :
    (pt : PartitionTable) (size : ℕ) (root : Partition)
    → root.start + root.size + reserved_size pt + grain_size pt < u64_mod
    → size + grain_size pt < u64_mod
    → pt.size < u64_mod
    → IsTableSize pt size root (table_size pt size root)
table_size-IsTableSize pt size root h k l =
    let reserved = reserved_size pt in
    let sum = add64 (add64 root.start reserved) root.size in
    let e : sum ≡ root.start + root.size + reserved = omega (
      arith,
      add64-eq root.start reserved (omega arith),
      add64-eq (add64 root.start reserved) root.size
          (omega (arith, add64-eq root.start reserved (omega arith))),
    ) in
    let end = align_up-IsRoundedUp pt sum (omega (arith, e)) in
    let asked = align_up-IsRoundedUp pt size k in
    let b = max_bounds (align_up pt sum) (align_up pt size) pt.size in
    rw (table_size-eq pt size root) (record {
      inside = omega (arith, b, e, end.above);
      requested = omega (arith, b, asked.above);
      present = b.2;
      fits = b.3 u64_mod (omega (arith, e, end.least)) (omega (arith, asked.least)) l;
    })

-- The grown root reaches up to what is reserved, and never shrinks.
pub record IsRootSize (pt : PartitionTable) (table : ℕ) (root : Partition) (s : ℕ) : Type 0 where
  pub kept : root.size ≤ s
  pub inside : root.start + s + reserved_size pt ≤ table
  pub grown : grow_root_to_fill_disk pt ≡ true → root.start + s + reserved_size pt ≡ table

pub root_size-IsRootSize :
    (pt : PartitionTable) (table : ℕ) (root : Partition)
    → root.start + root.size + reserved_size pt ≤ table
    → table < u64_mod
    → IsRootSize pt table root (root_size pt table root)
unfolding root_size
root_size-IsRootSize pt table root h k =
    let left = sub64 table root.start in
    ground (arith, sub64-eq table root.start, sub64-eq left (reserved_size pt))
