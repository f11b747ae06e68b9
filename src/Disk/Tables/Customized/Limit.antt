-- ===== src/Disk/Tables/Customized/Limit.antt =====
-- The limit of a DOS partition table.
use mathlib.Core.Bool.{and-false}
use image_builder.Prelude.{
  ◌≡◌, refl, Bool-cases, inl, inr, arith, ◌≤◌, ℕ, true, false, ◌&&◌, Option, List, length, ltb,
  if◌then◌else◌,
}
use image_builder.Prelude.Result.{Result, ok, err, ◌>>=◌, IfOk, IfOk-wrap, IfOk-bind, IfOk-total}
use image_builder.Disk.Errors.{Error, too_many_dos_partitions, generating_table}
use image_builder.Disk.Entities.{
  PartitionTableType, pt_none, pt_dos, pt_gpt, PartitionTablePolicy, PartitionTable,
}
use image_builder.Disk.Directories.{MntSize}
use image_builder.Disk.Layout.{relayout}
use image_builder.Disk.Identify.{Random, generate_uuids}
use image_builder.Disk.Custom.{DiskCustomization, CustomPartitionTableOptions}
use image_builder.Disk.Tables.Customized.{
  Validators, customizations_or_empty, options_or_empty, policy_or_default, build_table, is_dos,
  check_dos_limit, new_custom_partition_table,
}

abbrev IsWithinLimit : PartitionTable → Type 0
IsWithinLimit pt = pt.type ≡ pt_dos → length pt.partitions ≤ 4

not_over : (n : ℕ) → ltb 4 n ≡ false → n ≤ 4
not_over n h = ground arith

check_dos_limit-IsWithinLimit : (pt : PartitionTable) → IfOk IsWithinLimit (check_dos_limit pt)
unfolding check_dos_limit
check_dos_limit-IsWithinLimit pt = elim (Bool-cases (ltb 4 (length pt.partitions))) [
  | inl over ↦ rw over (go pt.type refl)
  | inr within ↦ rw (within, and-false) (λ is. not_over (length pt.partitions) within)
]
  where
    go :
        (type : PartitionTableType)
        → pt.type ≡ type
        → IfOk IsWithinLimit (if is_dos type && true then err too_many_dos_partitions else ok pt)
    go pt_dos e = tt
    go pt_gpt e = λ is. cc
    go pt_none e = λ is. cc

-- A DOS partition table that `NewCustomPartitionTable` returns has at most four partitions, whatever
-- the validations accept.
pub new_custom_partition_table-limit :
    {R : Type 0} (random : Random R) (order : List MntSize → List MntSize) (validators : Validators)
    (customizations : Option DiskCustomization) (options : Option CustomPartitionTableOptions)
    (policy : Option PartitionTablePolicy) (r : R)
    → IfOk
        (λ new. new.0.type ≡ pt_dos → length new.0.partitions ≤ 4)
        (new_custom_partition_table random order validators customizations options policy r)
unfolding new_custom_partition_table
new_custom_partition_table-limit {R = R} random order validators customizations options policy r =
    let customizations' = customizations_or_empty customizations in
    IfOk-wrap (λ new. IsWithinLimit new.0) generating_table
      (build_table random order validators customizations' (options_or_empty options)
          (policy_or_default policy)
        >>= λ pt. relayout pt customizations'.min_size >>= λ (pt1, end). finish pt1)
      (IfOk-bind (λ (pt : PartitionTable). Unit {0}) (λ new. IsWithinLimit new.0)
        (build_table random order validators customizations' (options_or_empty options)
          (policy_or_default policy))
        (λ pt. relayout pt customizations'.min_size >>= λ (pt1, end). finish pt1)
        (IfOk-total (λ (pt : PartitionTable). Unit {0}) _ (λ _. tt))
        (λ pt _.
          IfOk-bind (λ (laid : PartitionTable × ℕ). Unit {0}) (λ new. IsWithinLimit new.0)
            (relayout pt customizations'.min_size) (λ (pt1, end). finish pt1)
            (IfOk-total (λ (laid : PartitionTable × ℕ). Unit {0}) _ (λ _. tt))
            (λ laid _. finished laid.0)))
  where
    finish : PartitionTable → Result Error (PartitionTable × R)
    finish pt1 =
        let (pt2, r') = generate_uuids random pt1 r in check_dos_limit pt2 >>= λ pt3. ok (pt3, r')

    finished : (pt1 : PartitionTable) → IfOk (λ new. IsWithinLimit new.0) (finish pt1)
    finished pt1 =
        IfOk-bind IsWithinLimit (λ new. IsWithinLimit new.0)
          (check_dos_limit (generate_uuids random pt1 r).0)
          (λ pt3. ok (pt3, (generate_uuids random pt1 r).1))
          (check_dos_limit-IsWithinLimit (generate_uuids random pt1 r).0) (λ pt3 h. h)
