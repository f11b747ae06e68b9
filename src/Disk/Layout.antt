-- ===== src/Disk/Layout.antt =====
-- `relayout` and `sortPartitions` of partition_table.go. A partition is placed by the loop's body,
-- and the root partition, the last one that contains "/", behind all others.
pub mod Sorting
pub mod Placing
pub mod Contiguous
pub mod RootSize
pub mod Disjoint
use mathlib.Core.Option
use image_builder.Prelude.{
  ℕ, suc, Bool, true, ◌&&◌, Option, none, some, List, [], ◌∷◌, ltb, or_else, get_elem?, modify,
  if◌then◌else◌,
}
use image_builder.Prelude.Result.{Result, ok, panic}
use image_builder.Word.{add64, sub64}
use image_builder.Disk.Errors.{Error}
use image_builder.Disk.Align.{align_up, header_size}
use image_builder.Disk.Entities.{Partition, PartitionTable, PartitionTablePolicy, pt_gpt}
use image_builder.Disk.Paths.{is_some, path_partition}
use image_builder.Disk.Sizes.{at_least, fit_to, ensure_size}

-- `growRootToFillDisk`: true unless the policy says otherwise.
unfoldable pub grow_root_to_fill_disk : PartitionTable → Bool
grow_root_to_fill_disk pt = elim pt.policy [
  | none ↦ true
  | some policy ↦ elim policy.grow_root_to_fill_disk [ none ↦ true | some grow ↦ grow ]
]

-- The room for the second header at the end of a GPT table.
unfoldable pub footer_size : PartitionTable → ℕ
footer_size pt = elim pt.type [ pt_gpt ↦ align_up pt (header_size pt) | _ ↦ 0 ]

-- All that is kept free at the end: the footer and the extra padding.
unfoldable pub reserved_size : PartitionTable → ℕ
unfolding footer_size
reserved_size pt = add64 (footer_size pt) pt.extra_padding

unfoldable pub start_base : PartitionTable → ℕ
start_base pt =
    if pt.absolute_start_offset && ltb (header_size pt) pt.start_offset
    then pt.start_offset
    else add64 (header_size pt) pt.start_offset

unfoldable pub first_start : PartitionTable → ℕ
unfolding start_base
first_start pt = align_up pt (start_base pt)

unfoldable pub contains_root : Partition → Bool
unfolding path_partition
contains_root part = is_some (path_partition part "/")

-- The body of the loop for one partition.
unfoldable pub place : PartitionTable → ℕ → Partition → Partition
unfolding fit_to
place pt start part =
    let fitted = fit_to (record part { start = start }) part.size in
    record fitted { size = align_up pt fitted.size }

-- The loop: the partitions, and the start point behind them. A root partition stays as it is.
unfoldable pub place_others : PartitionTable → ℕ → List Partition → List Partition × ℕ
unfolding contains_root
place_others pt start [] = ([], start)
place_others pt start (part ∷ parts) =
    let placed = place pt start part in
    let (rest, end) =
      place_others pt (if contains_root part then start else add64 start placed.size) parts in
    ((if contains_root part then part else placed) ∷ rest, end)

-- `rootIdx`: the index of the last root partition.
unfoldable pub root_index : List Partition → Option ℕ
unfolding contains_root
root_index [] = none
root_index (part ∷ parts) =
    or_else (Option.map suc (root_index parts)) (if contains_root part then some 0 else none)

unfoldable pub insert_by_start : Partition → List Partition → List Partition
insert_by_start part [] = part ∷ []
insert_by_start part (other ∷ others) =
    let rest = insert_by_start part others in
    if ltb other.start part.start then other ∷ rest else part ∷ other ∷ others

-- `sortPartitions`. Go sorts up to twelve elements by insertion, which keeps the order of equals.
unfoldable pub sort_partitions : List Partition → List Partition
unfolding insert_by_start
sort_partitions [] = []
sort_partitions (part ∷ parts) = insert_by_start part (sort_partitions parts)

-- The new size of the table: the size asked for, or the end of the last partition with what is
-- reserved behind it, or the present size, whichever is largest.
unfoldable pub table_size : PartitionTable → ℕ → Partition → ℕ
unfolding at_least reserved_size
table_size pt size root =
    let end = align_up pt (add64 (add64 root.start (reserved_size pt)) root.size) in
    at_least (at_least end (align_up pt size)) pt.size

unfoldable pub root_size : PartitionTable → ℕ → Partition → ℕ
unfolding reserved_size grow_root_to_fill_disk
root_size pt table root =
    if grow_root_to_fill_disk pt
    then sub64 (sub64 table root.start) (reserved_size pt)
    else root.size

-- The part of `relayout` behind the loop: the root partition, the size of the table, the sorting.
unfoldable pub lay_root :
    PartitionTable
    → ℕ
    → List Partition
    → ℕ
    → ℕ
    → Option Partition
    → Result Error (PartitionTable × ℕ)
lay_root pt size parts start idx none = panic
lay_root pt size parts start idx (some part) =
    let root = place pt start part in
    let table = table_size pt size root in
    let grown = record root { size = root_size pt table root } in
    ok (
      record pt { size = table; partitions = sort_partitions (modify parts idx (λ _. grown)) },
      start,
    )

unfoldable pub relayout_from :
    PartitionTable → ℕ → List Partition × ℕ → Option ℕ → Result Error (PartitionTable × ℕ)
relayout_from pt size placed none = panic
relayout_from pt size (parts, start) (some idx) =
    lay_root pt size parts start idx (get_elem? parts idx)

-- `relayout`: the table and the start point that it returns. It panics without a root partition.
unfoldable pub relayout : PartitionTable → ℕ → Result Error (PartitionTable × ℕ)
relayout pt size =
    relayout_from pt size (place_others pt (first_start pt) pt.partitions)
      (root_index pt.partitions)
