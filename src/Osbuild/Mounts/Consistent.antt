-- ===== src/Osbuild/Mounts/Consistent.antt =====
-- `GenMountsDevicesFromPT` succeeds where the devices of the paths agree.
use mathlib.Core.Path.{subst}
use image_builder.Prelude.{
  ℕ, String, ◌≡◌, refl, sym, ap, ◌∙◌, Bool, true, false, not, Option, none, some, List, [], ◌∷◌,
  str_eq, eq_iff, eq_refl, arith, All, Bool-cases, inl, inr, if◌then◌else◌, ◌⊎◌,
}
use image_builder.Prelude.Result.{Result, ok, err, panic, IfOk}
use image_builder.Dictionary.{lookup, insert, lookup-insert}
use image_builder.Sorting.{sort_by}
use image_builder.Disk.Entities.{PartitionTable}
use image_builder.Disk.Paths.{Mountable, contains_mountpoint}
use image_builder.Disk.Walks.{Visit, for_each_mountable_path}
use image_builder.Osbuild.Devices.{Device, unset, loopback, luks2, lvm2_lv, Devices, get_devices}
use image_builder.Osbuild.Mounts.{
  MountError, no_root_mount, Mount, same_option, same_flag, same_device, conflicts, add_devices,
  gen_osbuild_mount, Gathered, gen_mount, gen_mounts, by_target, gen_mounts_devices_from_pt,
}
use image_builder.Osbuild.Mounts.Merged.{HasEntry}
use image_builder.Osbuild.Mounts.Mounted.{RangesOver}
use image_builder.Osbuild.Mounts.Returned.{
  IsMounted, root_name, sorted-IsMounted, gen_mounts_from-IsGathered,
}

same_option_refl : (a : Option ℕ) → same_option a a ≡ true
unfolding same_option
same_option_refl none = refl
same_option_refl (some a) = ground arith

same_flag_refl : (a : Bool) → same_flag a a ≡ true
unfolding same_flag
same_flag_refl true = refl
same_flag_refl false = refl

same_device_refl : (device : Device) → same_device device device ≡ true
unfolding same_device
same_device_refl unset = refl
same_device_refl (loopback o) =
    ground (arith, eq_refl o.filename, same_option_refl o.sector_size, same_flag_refl o.lock)
same_device_refl (luks2 p s) = ground (arith, eq_refl p, eq_refl s)
same_device_refl (lvm2_lv p v) = ground (arith, eq_refl p, eq_refl v)

conflicts-false :
    (o : Option Device) (device : Device)
    → ((d : Device) → o ≡ some d → d ≡ device)
    → conflicts o device ≡ false
unfolding conflicts
conflicts-false none device h = refl
conflicts-false (some d) device h =
    ap not (ap (same_device d) (sym (h d refl)) ∙ same_device_refl d)

ok-injective : {a b : Gathered} → ◌≡◌ {A = Result MountError Gathered} (ok a) (ok b) → a ≡ b
ok-injective h = cc

value_of :
    (P : Gathered → Type 0) (m : Result MountError Gathered) (st : Gathered)
    → m ≡ ok st
    → IfOk P m
    → P st
value_of P (ok st') st e h = subst P (ok-injective e) h
value_of P (err error) st e h = cc
value_of P panic st e h = cc

module _ (all : Devices) where
  -- The devices are among those of the whole table.
  abbrev AreWithin : Devices → Type 0
  AreWithin ds =
      (name : String) (device : Device)
      → lookup name ds ≡ some device
      → lookup name all ≡ some device

  insert-AreWithin :
      (name : String) (device : Device) (ds : Devices)
      → lookup name all ≡ some device
      → AreWithin ds
      → AreWithin (insert name device ds)
  insert-AreWithin name device ds at within k d here = elim (Bool-cases (str_eq name k)) [
    | inl same ↦
        ap (λ n. lookup n all) (sym ((eq_iff name k).0 same))
        ∙ at
        ∙ sym (lookup-insert name k device ds ∙ rw same refl)
        ∙ here
    | inr other ↦ within k d (sym (lookup-insert name k device ds ∙ rw other refl) ∙ here)
  ]

  some-injective : {a b : Device} → some a ≡ some b → a ≡ b
  some-injective h = cc

  add_devices-ok :
      (ds entries : Devices)
      → AreWithin ds
      → ((name : String) (device : Device)
          → HasEntry name device entries
          → lookup name all ≡ some device)
      → (ds' : Devices) × (add_devices ds entries ≡ ok ds') × AreWithin ds'
  unfolding add_devices
  add_devices-ok ds [] within has = (ds, refl, within)
  add_devices-ok ds ((name, device) ∷ entries) within has =
      let at : lookup name all ≡ some device = has name device (inl (refl, refl)) in
      rw
        (conflicts-false (lookup name ds) device
          (λ d here. some-injective (sym (within name d here) ∙ at)))
        (add_devices-ok (insert name device ds) entries (insert-AreWithin name device ds at within)
          (λ n d entry. has n d (inr entry)))

  empty-AreWithin : AreWithin []
  unfolding lookup
  empty-AreWithin name device h = cc

  module _ (range : Devices → Devices) (ranges : RangesOver range) (filename : String) where
    -- The mountable has devices, which are among those of the whole table, and a mount.
    pub record IsPlanned (visit : Visit Mountable) : Type 0 where
      pub found : Devices × String
      pub mount : Mount
      pub has_devices : get_devices {E = MountError} filename false visit.1 ≡ ok found
      pub has_mount : gen_osbuild_mount found.1 visit.0 ≡ ok mount
      pub agrees : AreWithin found.0

    gen_mounts-ok :
        (visits : List (Visit Mountable)) (st : Gathered)
        → AreWithin st.devices
        → All IsPlanned visits
        → (st' : Gathered) × (gen_mounts range filename st visits ≡ ok st')
    unfolding gen_mounts gen_mount
    gen_mounts-ok [] st within planned = (st, refl)
    gen_mounts-ok ((mnt, path) ∷ visits) st within planned =
        let plan : IsPlanned (mnt, path) = planned.0 in
        let (ds, added, still) =
          add_devices-ok st.devices (range plan.found.0) within (λ name device entry.
            plan.agrees name device (ranges.only plan.found.0 name device entry)) in
        rw (plan.has_devices, plan.has_mount, added) (gen_mounts-ok visits _ still planned.1)

    on_both_branches :
        (pt : PartitionTable)
        → All IsPlanned (for_each_mountable_path pt)
        → (contains_mountpoint pt "/" ≡ true
            → (st : Gathered) × (gen_mounts_devices_from_pt range filename pt ≡ ok st)
              × IsMounted filename pt st)
          × (contains_mountpoint pt "/" ≡ false
              → gen_mounts_devices_from_pt range filename pt ≡ err no_root_mount)
    unfolding gen_mounts_devices_from_pt
    on_both_branches pt planned =
        let (st, gathered) =
          gen_mounts-ok (for_each_mountable_path pt)
            (record { fs_root_mnt_name = ""; mounts = []; devices = [] }) empty-AreWithin planned in
        let holds =
          value_of _ _ st gathered (gen_mounts_from-IsGathered range ranges filename pt) in
        let root = root_name range ranges filename pt st holds in
        (
          (λ there. (
            record st { mounts = sort_by by_target st.mounts },
            rw gathered (
                rw (ap (λ name. str_eq name "") (root ∙ ap (λ b. if b then "-" else "") there))
                  refl),
            sorted-IsMounted range ranges filename pt st holds there,
          )),
          (λ absent. rw gathered (
              rw (ap (λ name. str_eq name "") (root ∙ ap (λ b. if b then "-" else "") absent))
                refl)),
        )

    -- Where each mountable of the table has devices and a mount, and no two paths give different devices
    -- one name, `GenMountsDevicesFromPT` returns mounts and devices if the table has "/", and the error
    -- that there is no mount for the root if it has none.
    pub gen_mounts_devices_from_pt-ok :
        (pt : PartitionTable)
        → All IsPlanned (for_each_mountable_path pt)
        → ((contains_mountpoint pt "/" ≡ true)
            × (st : Gathered) × (gen_mounts_devices_from_pt range filename pt ≡ ok st)
            × IsMounted filename pt st)
          ⊎ ((contains_mountpoint pt "/" ≡ false)
              × (gen_mounts_devices_from_pt range filename pt ≡ err no_root_mount))
    gen_mounts_devices_from_pt-ok pt planned =
        let (with_root, without_root) = on_both_branches pt planned in
        elim (Bool-cases (contains_mountpoint pt "/")) [
          | inl there ↦
              let (st, returned, mounted) = with_root there in inl (there, st, returned, mounted)
          | inr gone ↦ inr (gone, without_root gone)
        ]
