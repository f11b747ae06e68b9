-- ===== src/Disk/Customize/Mountpoints.antt =====
-- Which mountpoints a table has after `applyCustomization`.

use image_builder.Prelude.{
  ℕ, zero, suc, String, ◌≡◌, ap, ◌∙◌, Option, none, some, List, [], ◌∷◌, length,
}
use image_builder.Prelude.Result.{Result, ok, panic, ◌>>=◌, wrap, IfOk, IfOk-bind, IfOk-wrap}
use image_builder.Disk.Errors.{Error, creating_volume}
use image_builder.Disk.Entities.{Partition, PartitionTable}
use image_builder.Disk.Paths.{EntityPath, is_some, entity_path, contains_mountpoint}
use image_builder.Disk.Resize.{align_entity_branch, resize_entity_branch}
use image_builder.Disk.Resize.Shape.{entity_path-resize_entity_branch}
use image_builder.Disk.Create.{create_in_payload, create_mountpoint}
use image_builder.Disk.Create.Contains.{
  in_payload, in_partitions, in_partitions-cons, Adds, IfSome, IfSome-map, Adds-beside, Adds-behind,
  create_mountpoint-Adds,
}
use image_builder.Disk.Create.Nested.{create_in_payload-adds}
use image_builder.Disk.Customize.{create_in_partitions, create_volume, create_filesystem}

abbrev AddsPartitions : String → List Partition → List Partition × EntityPath → Type 0
AddsPartitions mountpoint parts new = Adds mountpoint (in_partitions parts) (in_partitions new.0)

create_in_partitions-adds :
    (parts : List Partition) (path : EntityPath) (mountpoint fs_type : String)
    → IfSome (AddsPartitions mountpoint parts) (create_in_partitions parts path mountpoint fs_type)
unfolding create_in_partitions
create_in_partitions-adds (part ∷ parts) (zero ∷ j ∷ path) mountpoint fs_type =
    IfSome-map (λ new. Adds mountpoint (in_payload part.payload) (in_payload new.0))
      (AddsPartitions mountpoint (part ∷ parts)) _
      (create_in_payload part.payload path mountpoint fs_type)
      (create_in_payload-adds part.payload path mountpoint fs_type)
      (λ new a.
        Adds-beside mountpoint (in_partitions parts) (in_payload part.payload) (in_payload new.0) _
          _ (in_partitions-cons part parts)
          (in_partitions-cons (record part { payload = new.0 }) parts) a)
create_in_partitions-adds (part ∷ parts) (suc i ∷ path) mountpoint fs_type =
    IfSome-map (AddsPartitions mountpoint parts) (AddsPartitions mountpoint (part ∷ parts)) _
      (create_in_partitions parts (i ∷ path) mountpoint fs_type)
      (create_in_partitions-adds parts (i ∷ path) mountpoint fs_type)
      (λ new a.
        Adds-behind mountpoint (in_payload part.payload) (in_partitions parts) (in_partitions new.0)
          _ _ (in_partitions-cons part parts) (in_partitions-cons part new.0) a)
create_in_partitions-adds parts path mountpoint fs_type = tt

abbrev pub AddsTable : String → PartitionTable → PartitionTable → Type 0
AddsTable mountpoint pt pt' = Adds mountpoint (contains_mountpoint pt) (contains_mountpoint pt')

volume_adds :
    (pt : PartitionTable) (mountpoint fs_type : String)
    (o : Option (Result Error (List Partition × EntityPath)))
    → IfSome (AddsPartitions mountpoint pt.partitions) o
    → IfOk {A = PartitionTable × EntityPath}
        (λ new. AddsTable mountpoint pt new.0)
        (elim o [
          | some r ↦ r >>= λ (parts, path'). ok (record pt { partitions = parts }, path')
          | none ↦ create_mountpoint pt mountpoint fs_type 0 >>= λ pt'.
              ok (pt', length pt.partitions ∷ [])
        ])
unfolding contains_mountpoint entity_path
volume_adds pt mountpoint fs_type (some r) h =
    IfOk-bind (AddsPartitions mountpoint pt.partitions) _ r _ h (λ new a. a)
volume_adds pt mountpoint fs_type none h =
    IfOk-bind
      (λ (pt' : PartitionTable).
        Adds mountpoint (in_partitions pt.partitions) (in_partitions pt'.partitions))
      _ (create_mountpoint pt mountpoint fs_type 0) _
      (create_mountpoint-Adds pt mountpoint fs_type 0) (λ pt' a. a)

create_volume-adds :
    (pt : PartitionTable) (path : EntityPath) (mountpoint fs_type : String)
    → IfOk (λ new. AddsTable mountpoint pt new.0) (create_volume pt path mountpoint fs_type)
unfolding create_volume
create_volume-adds pt path mountpoint fs_type =
    volume_adds pt mountpoint fs_type (create_in_partitions pt.partitions path mountpoint fs_type)
      (create_in_partitions-adds pt.partitions path mountpoint fs_type)

pub contains-resize :
    (pt : PartitionTable) (path : EntityPath) (size : ℕ) (target : String)
    → contains_mountpoint (resize_entity_branch pt path size) target ≡ contains_mountpoint pt target
unfolding contains_mountpoint
contains-resize pt path size target =
    ap (is_some {A = EntityPath}) (entity_path-resize_entity_branch pt path size target)

filesystem_adds :
    (pt : PartitionTable) (mountpoint fs_type : String) (size : ℕ) (root : Option EntityPath)
    → IfOk (AddsTable mountpoint pt) (elim root [
      | none ↦ panic
      | some path ↦
          wrap creating_volume (create_volume pt path mountpoint fs_type) >>= λ (pt', path').
          ok (resize_entity_branch pt' path' (align_entity_branch pt' path' size))
    ])
filesystem_adds pt mountpoint fs_type size none = tt
filesystem_adds pt mountpoint fs_type size (some path) =
    IfOk-bind (λ new. AddsTable mountpoint pt new.0) (AddsTable mountpoint pt)
      (wrap creating_volume (create_volume pt path mountpoint fs_type)) _
      (IfOk-wrap (λ new. AddsTable mountpoint pt new.0) creating_volume
        (create_volume pt path mountpoint fs_type) (create_volume-adds pt path mountpoint fs_type))
      (λ new a target.
        contains-resize new.0 new.1 (align_entity_branch new.0 new.1 size) target ∙ a target)

-- A created filesystem adds its mountpoint to the table, and no other mountpoint comes or goes.
pub create_filesystem-adds :
    (pt : PartitionTable) (mountpoint fs_type : String) (size : ℕ)
    → IfOk (AddsTable mountpoint pt) (create_filesystem pt mountpoint fs_type size)
unfolding create_filesystem
create_filesystem-adds pt mountpoint fs_type size =
    filesystem_adds pt mountpoint fs_type size (entity_path pt "/")
