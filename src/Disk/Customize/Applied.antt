-- ===== src/Disk/Customize/Applied.antt =====
-- `applyCustomization` as its two callers use it: collecting the new mountpoints, and creating them.

use image_builder.Prelude.{
  String, ◌≡◌, refl, ap, ◌∙◌, sym, Bool, true, false, ◌||◌, Option, none, some, List, [], ◌∷◌, ◌++◌,
  str_eq, eq_iff, Bool-cases, inl, inr, if◌then◌else◌,
}
use mathlib.Core.List.{append-nil, append_assoc}
use image_builder.Prelude.Result.{Result, ok, ◌>>=◌, IfOk, IfOk-bind, IfOk-map}
use image_builder.Disk.Errors.{Error}
use image_builder.Disk.Entities.{PartitionTable}
use image_builder.Disk.Paths.{EntityPath, is_some, entity_path, contains_mountpoint}
use image_builder.Disk.Resize.{align_entity_branch, resize_entity_branch}
use image_builder.Disk.Resize.Shape.{entity_path-resize_entity_branch}
use image_builder.Disk.Create.Contains.{or_assoc, or_false}
use image_builder.Disk.Customize.{
  FilesystemCustomization, create_filesystem, clamp_fs_size, apply_at, apply_from,
  apply_customization,
}
use image_builder.Disk.Customize.Mountpoints.{AddsTable, contains-resize, create_filesystem-adds}

-- Whether a mountpoint is among the customized ones.
abbrev pub requested : List FilesystemCustomization → String → Bool
requested [] target = false
requested (mnt ∷ mountpoints) target = str_eq target mnt.mountpoint || requested mountpoints target

-- The customizations whose mountpoint the table does not have, in order.
abbrev pub missing : PartitionTable → List FilesystemCustomization → List FilesystemCustomization
missing pt [] = []
missing pt (mnt ∷ mountpoints) =
    let rest = missing pt mountpoints in
    if contains_mountpoint pt mnt.mountpoint then rest else mnt ∷ rest

-- A round with `create`: the mountpoint is in the table behind it, and nothing is left over.
abbrev Created :
    PartitionTable
    → List FilesystemCustomization
    → FilesystemCustomization
    → PartitionTable × List FilesystemCustomization
    → Type 0
Created pt left mnt new = AddsTable mnt.mountpoint pt new.0 × (new.1 ≡ left)

pub already_there :
    (a : String → Bool) (mountpoint target : String)
    → a mountpoint ≡ true
    → a target ≡ (a target || str_eq target mountpoint)
already_there a mountpoint target h = elim (Bool-cases (str_eq target mountpoint)) [
  | inl same ↦ rw ((eq_iff target mountpoint).0 same) (rw h refl)
  | inr other ↦ rw other (sym (or_false (a target)))
]

apply_at-create :
    (pt : PartitionTable) (left : List FilesystemCustomization) (mnt : FilesystemCustomization)
    (fs_type : String) (path : Option EntityPath)
    → entity_path pt mnt.mountpoint ≡ path
    → IfOk (Created pt left mnt) (apply_at pt left mnt fs_type true path)
unfolding apply_at
apply_at-create pt left mnt fs_type none absent =
    let size = clamp_fs_size mnt.mountpoint mnt.min_size in
    IfOk-bind (AddsTable mnt.mountpoint pt) (Created pt left mnt)
      (create_filesystem pt mnt.mountpoint fs_type size) _
      (create_filesystem-adds pt mnt.mountpoint fs_type size) (λ pt' a. (a, refl))
apply_at-create pt left mnt fs_type (some path) found =
    let size = align_entity_branch pt path (clamp_fs_size mnt.mountpoint mnt.min_size) in
    (
      λ target.
          contains-resize pt path size target
          ∙ already_there (contains_mountpoint pt) mnt.mountpoint target
              (unfold contains_mountpoint in ap (is_some {A = EntityPath}) found),
      refl,
    )

-- The table has the customized mountpoints besides its own.
abbrev pub AddsAll : PartitionTable → List FilesystemCustomization → PartitionTable → Type 0
AddsAll pt mountpoints pt' =
    (target : String)
    → contains_mountpoint pt' target
      ≡ (contains_mountpoint pt target || requested mountpoints target)

apply_from-create :
    (pt : PartitionTable) (left mountpoints : List FilesystemCustomization) (fs_type : String)
    → IfOk
        (λ new. AddsAll pt mountpoints new.0 × (new.1 ≡ left))
        (apply_from pt left mountpoints fs_type true)
unfolding apply_from
apply_from-create pt left [] fs_type =
    (λ target. sym (or_false (contains_mountpoint pt target)), refl)
apply_from-create pt left (mnt ∷ mountpoints) fs_type =
    IfOk-bind (Created pt left mnt) (λ new. AddsAll pt (mnt ∷ mountpoints) new.0 × (new.1 ≡ left))
      (apply_at pt left mnt fs_type true (entity_path pt mnt.mountpoint)) _
      (apply_at-create pt left mnt fs_type (entity_path pt mnt.mountpoint) refl)
      (λ new a.
        IfOk-map (λ end. AddsAll new.0 mountpoints end.0 × (end.1 ≡ new.1))
          (λ end. AddsAll pt (mnt ∷ mountpoints) end.0 × (end.1 ≡ left))
          (apply_from new.0 new.1 mountpoints fs_type true)
          (apply_from-create new.0 new.1 mountpoints fs_type)
          (λ end b. (
            λ target.
                b.0 target
                ∙ ap (λ (c : Bool). c || requested mountpoints target) (a.0 target)
                ∙ or_assoc (contains_mountpoint pt target) (str_eq target mnt.mountpoint)
                    (requested mountpoints target),
            b.1 ∙ a.1,
          )))

-- With `create`, a table that `applyCustomization` returns has its former mountpoints and the
-- customized ones, and no others, and no mountpoint is left over.
pub apply_customization-creates :
    (pt : PartitionTable) (mountpoints : List FilesystemCustomization) (fs_type : String)
    → IfOk
        (λ new. AddsAll pt mountpoints new.0 × (new.1 ≡ []))
        (apply_customization pt mountpoints fs_type true)
unfolding apply_customization
apply_customization-creates pt mountpoints fs_type = apply_from-create pt [] mountpoints fs_type

-- Every entity path of the first table is that of the second.
abbrev SamePaths : PartitionTable → PartitionTable → Type 0
SamePaths pt pt' = (target : String) → entity_path pt' target ≡ entity_path pt target

missing-SamePaths :
    (pt pt' : PartitionTable) (mountpoints : List FilesystemCustomization)
    → SamePaths pt pt'
    → missing pt' mountpoints ≡ missing pt mountpoints
unfolding contains_mountpoint
missing-SamePaths pt pt' [] h = refl
missing-SamePaths pt pt' (mnt ∷ mountpoints) h =
    rw (h mnt.mountpoint, missing-SamePaths pt pt' mountpoints h) refl

-- A run without `create` over these customizations: it returns the missing ones behind those it had.
abbrev Collected :
    PartitionTable
    → List FilesystemCustomization
    → List FilesystemCustomization
    → Result Error (PartitionTable × List FilesystemCustomization)
    → Type 0
Collected pt left mountpoints r =
    (pt' : PartitionTable) × (r ≡ ok (pt', left ++ missing pt mountpoints)) × SamePaths pt pt'

apply_at-collects :
    (pt : PartitionTable) (left : List FilesystemCustomization) (mnt : FilesystemCustomization)
    (mountpoints : List FilesystemCustomization) (fs_type : String) (path : Option EntityPath)
    → entity_path pt mnt.mountpoint ≡ path
    → ((pt' : PartitionTable) (left' : List FilesystemCustomization)
        → Collected pt' left' mountpoints (apply_from pt' left' mountpoints fs_type false))
    → Collected pt left (mnt ∷ mountpoints) (
        apply_at pt left mnt fs_type false path >>= λ (pt', left').
        apply_from pt' left' mountpoints fs_type false)
unfolding apply_at contains_mountpoint
apply_at-collects pt left mnt mountpoints fs_type none absent ih =
    let (pt', result, same) = ih pt (left ++ mnt ∷ []) in
    (
      pt',
      result
          ∙ ap (λ l. ok (pt', l))
              (append_assoc left (mnt ∷ []) (missing pt mountpoints)
                ∙ ap
                    (λ (c : Bool).
                      left ++ (if c then missing pt mountpoints else mnt ∷ missing pt mountpoints))
                    (sym (ap (is_some {A = EntityPath}) absent))),
      same,
    )
apply_at-collects pt left mnt mountpoints fs_type (some path) found ih =
    let size = align_entity_branch pt path (clamp_fs_size mnt.mountpoint mnt.min_size) in
    let grown = resize_entity_branch pt path size in
    let (pt', result, same) = ih grown left in
    let kept : SamePaths pt grown =
      λ target. entity_path-resize_entity_branch pt path size target in
    (
      pt',
      result
          ∙ ap (λ l. ok (pt', left ++ l))
              (missing-SamePaths pt grown mountpoints kept
                ∙ ap
                    (λ (c : Bool).
                      if c then missing pt mountpoints else mnt ∷ missing pt mountpoints)
                    (sym (ap (is_some {A = EntityPath}) found))),
      λ target. same target ∙ kept target,
    )

apply_from-collects :
    (pt : PartitionTable) (left mountpoints : List FilesystemCustomization) (fs_type : String)
    → Collected pt left mountpoints (apply_from pt left mountpoints fs_type false)
unfolding apply_from
apply_from-collects pt left [] fs_type =
    (pt, ap (λ l. ok (pt, l)) (sym (append-nil left)), λ target. refl)
apply_from-collects pt left (mnt ∷ mountpoints) fs_type =
    apply_at-collects pt left mnt mountpoints fs_type (entity_path pt mnt.mountpoint) refl
      (λ pt' left'. apply_from-collects pt' left' mountpoints fs_type)

-- Without `create`, `applyCustomization` returns: the mountpoints left over are those customized
-- ones that the table does not have, in order, and the path of each mountpoint stays as it was.
pub apply_customization-collects :
    (pt : PartitionTable) (mountpoints : List FilesystemCustomization) (fs_type : String)
    → (pt' : PartitionTable) × (apply_customization pt mountpoints fs_type false
        ≡ ok (pt', missing pt mountpoints))
      × ((target : String) → entity_path pt' target ≡ entity_path pt target)
unfolding apply_customization
apply_customization-collects pt mountpoints fs_type = apply_from-collects pt [] mountpoints fs_type
