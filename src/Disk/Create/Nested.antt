-- ===== src/Disk/Create/Nested.antt =====
-- A new volume below a payload of the tree adds its mountpoint, wherever the path leads.

use image_builder.Prelude.{
  ℕ, zero, suc, String, ◌≡◌, ap, ◌∙◌, sym, Bool, ◌||◌, Option, none, some, [], ◌∷◌, str_eq,
}
use image_builder.Prelude.Result.{Result, ok, ◌>>=◌, IfOk-bind}
use image_builder.Disk.Errors.{Error}
use image_builder.Disk.Entities.{
  Btrfs, LuksHeader, Payload, btrfs, volume_group, luks, LogicalVolumes, volume,
}
use image_builder.Disk.Paths.{EntityPath, is_some-through, path_payload}
use image_builder.Disk.Create.{
  count_volumes, create_mountpoint_volume, create_mountpoint_subvolume, create_in_payload,
  create_in_volumes,
}
use image_builder.Disk.Create.Contains.{
  in_payload, in_volumes, in_subvolumes, in_volumes-cons, Adds, IfSome, IfSome-map, Adds-beside,
  Adds-behind, create_mountpoint_volume-Adds, create_mountpoint_subvolume-Adds,
}

abbrev AddsPayload : String → Payload → Payload × EntityPath → Type 0
AddsPayload mountpoint p new = Adds mountpoint (in_payload p) (in_payload new.0)

abbrev AddsVolumes : String → LogicalVolumes → LogicalVolumes × EntityPath → Type 0
AddsVolumes mountpoint lvs new = Adds mountpoint (in_volumes lvs) (in_volumes new.0)

in_luks :
    (header : LuksHeader) (p : Payload) (target : String)
    → in_payload (luks header p) target ≡ in_payload p target
unfolding path_payload
in_luks header p target = is_some-through (path_payload p target)

luks-Adds :
    (mountpoint : String) (header : LuksHeader) (p p' : Payload)
    → Adds mountpoint (in_payload p) (in_payload p')
    → Adds mountpoint (in_payload (luks header p)) (in_payload (luks header p'))
luks-Adds mountpoint header p p' a target =
    in_luks header p' target
    ∙ a target
    ∙ ap (λ (b : Bool). b || str_eq target mountpoint) (sym (in_luks header p target))

-- The volume group creates the volume where nothing below it does.
group_adds :
    (n d mountpoint fs_type : String) (lvs : LogicalVolumes)
    (o : Option (Result Error (LogicalVolumes × EntityPath)))
    → IfSome (AddsVolumes mountpoint lvs) o
    → IfSome (AddsPayload mountpoint (volume_group n d lvs)) (elim o [
      | some r ↦ some (r >>= λ (lvs', path'). ok (volume_group n d lvs', path'))
      | none ↦ some (
          create_mountpoint_volume lvs mountpoint fs_type 0 >>= λ lvs'.
          ok (volume_group n d lvs', count_volumes lvs ∷ []))
    ])
unfolding path_payload
group_adds n d mountpoint fs_type lvs (some r) h =
    IfOk-bind (AddsVolumes mountpoint lvs) (AddsPayload mountpoint (volume_group n d lvs)) r _ h
      (λ new a. a)
group_adds n d mountpoint fs_type lvs none h =
    IfOk-bind (λ lvs'. Adds mountpoint (in_volumes lvs) (in_volumes lvs'))
      (AddsPayload mountpoint (volume_group n d lvs))
      (create_mountpoint_volume lvs mountpoint fs_type 0) _
      (create_mountpoint_volume-Adds lvs mountpoint fs_type 0) (λ lvs' a. a)

btrfs_adds :
    (b : Btrfs) (path : EntityPath) (mountpoint fs_type : String)
    → IfSome
        (AddsPayload mountpoint (btrfs b))
        (create_in_payload (btrfs b) path mountpoint fs_type)
unfolding path_payload create_in_payload
btrfs_adds b path mountpoint fs_type =
    IfOk-bind
      (λ (b' : Btrfs). Adds mountpoint (in_subvolumes b.subvolumes) (in_subvolumes b'.subvolumes))
      (AddsPayload mountpoint (btrfs b)) (create_mountpoint_subvolume b mountpoint fs_type 0) _
      (create_mountpoint_subvolume-Adds b mountpoint fs_type 0) (λ b' a. a)

mutual
  unfolding create_in_payload

  pub create_in_payload-adds :
      (p : Payload) (path : EntityPath) (mountpoint fs_type : String)
      → IfSome (AddsPayload mountpoint p) (create_in_payload p path mountpoint fs_type)
  create_in_payload-adds (btrfs b) path mountpoint fs_type = btrfs_adds b path mountpoint fs_type
  create_in_payload-adds (volume_group n d lvs) (i ∷ path) mountpoint fs_type =
      group_adds n d mountpoint fs_type lvs (create_in_volumes lvs i path mountpoint fs_type)
        (create_in_volumes-adds lvs i path mountpoint fs_type)
  create_in_payload-adds (luks header p) (i ∷ path) mountpoint fs_type =
      IfSome-map (AddsPayload mountpoint p) (AddsPayload mountpoint (luks header p)) _
        (create_in_payload p path mountpoint fs_type)
        (create_in_payload-adds p path mountpoint fs_type)
        (λ new a. luks-Adds mountpoint header p new.0 a)
  create_in_payload-adds p path mountpoint fs_type = tt

  create_in_volumes-adds :
      (lvs : LogicalVolumes) (i : ℕ) (path : EntityPath) (mountpoint fs_type : String)
      → IfSome (AddsVolumes mountpoint lvs) (create_in_volumes lvs i path mountpoint fs_type)
  create_in_volumes-adds (volume n s p lvs) zero (j ∷ path) mountpoint fs_type =
      IfSome-map (AddsPayload mountpoint p) (AddsVolumes mountpoint (volume n s p lvs)) _
        (create_in_payload p path mountpoint fs_type)
        (create_in_payload-adds p path mountpoint fs_type)
        (λ new a.
          Adds-beside mountpoint (in_volumes lvs) (in_payload p) (in_payload new.0) _ _
            (in_volumes-cons n s p lvs) (in_volumes-cons n s new.0 lvs) a)
  create_in_volumes-adds (volume n s p lvs) (suc i) path mountpoint fs_type =
      IfSome-map (AddsVolumes mountpoint lvs) (AddsVolumes mountpoint (volume n s p lvs)) _
        (create_in_volumes lvs i path mountpoint fs_type)
        (create_in_volumes-adds lvs i path mountpoint fs_type)
        (λ new a.
          Adds-behind mountpoint (in_payload p) (in_volumes lvs) (in_volumes new.0) _ _
            (in_volumes-cons n s p lvs) (in_volumes-cons n s p new.0) a)
  create_in_volumes-adds lvs i path mountpoint fs_type = tt
