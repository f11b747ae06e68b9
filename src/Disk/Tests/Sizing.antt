-- ===== src/Disk/Tests/Sizing.antt =====
-- The theorems on layouts and sizes at the tables of the tests.

use mathlib.Core.List.{Perm}
use image_builder.Prelude.{ℕ, ◌≤◌, String, ◌≡◌, refl, some, List, [], ◌∷◌, arith, All, inl, inr}
use image_builder.Prelude.Result.{ok}
use image_builder.Word.{add64, sub64, mul64}
use image_builder.Disk.Entities.{PartitionTable}
use image_builder.Disk.Align.{align_up, align_to, grain_size, header_size}
use image_builder.Disk.Paths.{entity_path}
use image_builder.Disk.Sizes.Totals.{total}
use image_builder.Disk.Layout.{contains_root, reserved_size, first_start, sort_partitions, relayout}
use image_builder.Disk.Layout.Sorting.{IsSorted, sort_partitions_lem}
use image_builder.Disk.Layout.Disjoint.{IsLayoutable, IsLaidOut, relayout-IsLaidOut}
use image_builder.Disk.Resize.{resize_entity_branch, get_mountpoint_size}
use image_builder.Disk.Resize.Erased.{sizeless_table, sizeless_table-resize_entity_branch}
use image_builder.Disk.Resize.Fits.{Fits, HasRoom, resize_entity_branch-Fits}
use image_builder.Disk.Resize.Grown.{get_mountpoint_size-resize_entity_branch}
use image_builder.Disk.Directories.{ensure_directory_sizes}
use image_builder.Disk.Directories.Kept.{ensure_directory_sizes-ok, IsProperDir}
use image_builder.Text.Filepath.{clean_text, dir_elements, starts_with_slash}
use image_builder.Disk.Tests.{plain_table, lvm_table, boot_partition, root_partition}

plain_table-IsLayoutable : IsLayoutable plain_table 5000000000
unfolding first_start reserved_size grain_size align_to header_size total contains_root align_up
    add64 mul64 sub64
plain_table-IsLayoutable = record {
  before = boot_partition ∷ [];
  root = root_partition;
  behind = [];
  partitions = refl;
  no_root_before = (refl, tt);
  has_root = refl;
  no_root_behind = tt;
  positive = tt;
  room = omega arith;
  requested = omega arith;
  present = omega arith;
}

relayout-IsLaidOut_example :
    (after : PartitionTable) × (start : ℕ) × (relayout plain_table 5000000000 ≡ ok (after, start))
    × IsLaidOut plain_table 5000000000 after
relayout-IsLaidOut_example = relayout-IsLaidOut plain_table 5000000000 plain_table-IsLayoutable

sort_partitions_example :
    IsSorted 0 (sort_partitions (root_partition ∷ boot_partition ∷ []))
    × Perm
        (sort_partitions (root_partition ∷ boot_partition ∷ []))
        (root_partition ∷ boot_partition ∷ [])
sort_partitions_example = sort_partitions_lem (root_partition ∷ boot_partition ∷ [])

lvm_root : entity_path lvm_table "/" ≡ some (1 ∷ 0 ∷ 0 ∷ 0 ∷ [])
unfolding entity_path
lvm_root = refl

lvm_table-HasRoom : All (HasRoom 3000000000) lvm_table.partitions
lvm_table-HasRoom = (omega arith, (omega arith, tt))

lvm_table-Fits : All Fits lvm_table.partitions
unfolding total
lvm_table-Fits = ((omega arith, tt), ((omega arith, (omega arith, tt, tt)), tt))

resize_entity_branch-Fits_example :
    All Fits (resize_entity_branch lvm_table (1 ∷ 0 ∷ 0 ∷ 0 ∷ []) 3000000000).partitions
resize_entity_branch-Fits_example =
    resize_entity_branch-Fits lvm_table "/" (1 ∷ 0 ∷ 0 ∷ 0 ∷ []) 3000000000 lvm_root
      lvm_table-HasRoom lvm_table-Fits

get_mountpoint_size-resize_entity_branch_example :
    (s : ℕ) × (get_mountpoint_size
        (resize_entity_branch lvm_table (1 ∷ 0 ∷ 0 ∷ 0 ∷ []) 3000000000)
        "/"
      ≡ ok s)
    × (3000000000 ≤ s)
get_mountpoint_size-resize_entity_branch_example =
    get_mountpoint_size-resize_entity_branch lvm_table "/" (1 ∷ 0 ∷ 0 ∷ 0 ∷ []) 3000000000 lvm_root
      lvm_table-HasRoom

sizeless_table-resize_entity_branch_example :
    sizeless_table (resize_entity_branch lvm_table (1 ∷ 0 ∷ 0 ∷ 0 ∷ []) 3000000000)
    ≡ sizeless_table lvm_table
sizeless_table-resize_entity_branch_example =
    sizeless_table-resize_entity_branch lvm_table (1 ∷ 0 ∷ 0 ∷ 0 ∷ []) 3000000000

abbrev required : List (String × ℕ)
required = ("/", 1073741824) ∷ ("/usr", 2147483648) ∷ []

required-IsProperDir : All (λ entry. IsProperDir entry.0) required
unfolding starts_with_slash dir_elements clean_text
required-IsProperDir = ((refl, inr refl), ((refl, inl refl), tt))

ensure_directory_sizes-ok_example :
    (pt' : PartitionTable) × (ensure_directory_sizes (λ l. l) lvm_table required ≡ ok pt')
    × ((target : String) → entity_path pt' target ≡ entity_path lvm_table target)
ensure_directory_sizes-ok_example =
    ensure_directory_sizes-ok (λ l. l) lvm_table required (1 ∷ 0 ∷ 0 ∷ 0 ∷ []) lvm_root
      required-IsProperDir
