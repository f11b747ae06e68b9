-- ===== src/Osbuild/Mounts/Returned.antt =====
-- When `GenMountsDevicesFromPT` returns mounts and devices, and which.
use mathlib.Core.Path.{subst}
use mathlib.Core.List.Perm
use mathlib.Core.List.{Perm}
use image_builder.Prelude.{
  String, ◌≡◌, refl, sym, ap, ◌∙◌, true, List, [], ◌∷◌, map, str_eq, eq_iff, arith, All, Bool-cases,
  inl, inr, if◌then◌else◌,
}
use image_builder.Prelude.Result.{ok, err, IfOk, IfOk-bind}
use image_builder.Sorting.{
  less_asymm, sort_by, IsOrdered, sort_by-perm, sort_by-IsOrdered, sort_by-All,
}
use image_builder.Disk.Entities.{PartitionTable}
use image_builder.Disk.Paths.{
  Mountable, get_mountpoint, for_each_mountable, contains_mountpoint, is_some,
}
use image_builder.Disk.Paths.Found.{first_with, contains_mountpoint-eq}
use image_builder.Disk.Walks.{Visit, for_each_mountable_path}
use image_builder.Disk.Walks.Visited.{visited, visited-for_each_mountable_path}
use image_builder.Osbuild.Devices.{Devices}
use image_builder.Osbuild.Devices.Closed.{
  InDevices, IsClosed, empty-IsClosed, for_each_mountable_path-AreBelow,
}
use image_builder.Osbuild.Mounts.{
  no_root_mount, Mount, Gathered, gen_mounts, by_target, gen_mounts_devices_from_pt,
}
use image_builder.Osbuild.Mounts.Mounted.{
  RangesOver, has_root, HoldsPath, IsGathered, gen_mounts-IsGathered,
}

-- The mounts and devices of a table: a mount for each mountable, sorted by target; the source of
-- each mount and the parent of each device are among the devices, which hold those of each path.
pub record IsMounted (filename : String) (pt : PartitionTable) (st : Gathered) : Type 0 where
  pub targets :
      Perm (map (λ (m : Mount). m.target) st.mounts) (map get_mountpoint (for_each_mountable pt))
  pub in_order : IsOrdered by_target st.mounts
  pub sources : All (λ (m : Mount). InDevices st.devices m.source) st.mounts
  pub closed : IsClosed st.devices
  pub paths : All (HoldsPath filename st.devices) (for_each_mountable_path pt)
  pub root : st.fs_root_mnt_name ≡ "-"
  pub root_there : contains_mountpoint pt "/" ≡ true

has_root-first_with :
    (visits : List (Visit Mountable)) → has_root visits ≡ is_some (first_with "/" (visited visits))
has_root-first_with [] = refl
has_root-first_with ((mnt, path) ∷ visits) = ground (
  arith,
  eq_iff (get_mountpoint mnt) "/",
  eq_iff "/" (get_mountpoint mnt),
  has_root-first_with visits,
)

pub has_root-contains_mountpoint :
    (pt : PartitionTable) → has_root (for_each_mountable_path pt) ≡ contains_mountpoint pt "/"
has_root-contains_mountpoint pt =
    has_root-first_with (for_each_mountable_path pt)
    ∙ ap (λ ms. is_some (first_with "/" ms)) (visited-for_each_mountable_path pt)
    ∙ sym (contains_mountpoint-eq pt "/")

map-map :
    (visits : List (Visit Mountable))
    → map (λ (visit : Visit Mountable). get_mountpoint visit.0) visits
      ≡ map get_mountpoint (visited visits)
map-map [] = refl
map-map (v ∷ visits) = ap (◌∷◌ (get_mountpoint v.0)) (map-map visits)

module _ (range : Devices → Devices) (ranges : RangesOver range) (filename : String)
    (pt : PartitionTable) where
  pub root_name :
      (st : Gathered)
      → IsGathered filename (for_each_mountable_path pt) st
      → st.fs_root_mnt_name ≡ (if contains_mountpoint pt "/" then "-" else "")
  root_name st h = h.root ∙ ap (λ b. if b then "-" else "") (has_root-contains_mountpoint pt)

  pub sorted-IsMounted :
      (st : Gathered)
      → IsGathered filename (for_each_mountable_path pt) st
      → contains_mountpoint pt "/" ≡ true
      → IsMounted filename pt (record st { mounts = sort_by by_target st.mounts })
  sorted-IsMounted st h there = record {
    targets =
        subst (Perm (map (λ (m : Mount). m.target) (sort_by by_target st.mounts)))
          (h.targets
            ∙ map-map (for_each_mountable_path pt)
            ∙ ap (map get_mountpoint) (visited-for_each_mountable_path pt))
          (Perm.map (λ (m : Mount). m.target) (sort_by-perm by_target st.mounts));
    in_order = sort_by-IsOrdered by_target (λ a b. less_asymm a.target b.target) st.mounts;
    sources = sort_by-All by_target _ st.mounts h.sources;
    closed = h.closed;
    paths = h.paths;
    root = h.root ∙ rw (has_root-contains_mountpoint pt, there) refl;
    root_there = there;
  }

  finish-IsMounted :
      (st : Gathered)
      → IsGathered filename (for_each_mountable_path pt) st
      → IfOk (IsMounted filename pt) (
          if str_eq st.fs_root_mnt_name ""
          then err no_root_mount
          else ok (record st { mounts = sort_by by_target st.mounts }))
  finish-IsMounted st h = elim (Bool-cases (contains_mountpoint pt "/")) [
    | inl there ↦
        rw (ap (λ name. str_eq name "") (root_name st h ∙ ap (λ b. if b then "-" else "") there))
          (sorted-IsMounted st h there)
    | inr absent ↦
        rw (ap (λ name. str_eq name "") (root_name st h ∙ ap (λ b. if b then "-" else "") absent))
          tt
  ]

  pub gen_mounts_from-IsGathered : IfOk (IsGathered filename (for_each_mountable_path pt)) (
      gen_mounts range filename
        (record { fs_root_mnt_name = ""; mounts = []; devices = [] })
        (for_each_mountable_path pt))
  gen_mounts_from-IsGathered =
      gen_mounts-IsGathered filename range ranges [] (for_each_mountable_path pt) _
        (for_each_mountable_path-AreBelow pt)
        (record { targets = refl; sources = tt; closed = empty-IsClosed; paths = tt; root = refl })

  -- The mounts and devices that `GenMountsDevicesFromPT` returns: the targets are the mountpoints of
  -- the table, in sorted order, the source of each mount and the parent of each device are among the
  -- devices, these hold the devices of the path of each mountable, and the table has "/", whose mount
  -- is named.
  pub gen_mounts_devices_from_pt-IsMounted :
      IfOk (IsMounted filename pt) (gen_mounts_devices_from_pt range filename pt)
  unfolding gen_mounts_devices_from_pt
  gen_mounts_devices_from_pt-IsMounted =
      IfOk-bind (IsGathered filename (for_each_mountable_path pt)) (IsMounted filename pt)
        (gen_mounts range filename _ (for_each_mountable_path pt)) _ gen_mounts_from-IsGathered
        (λ st h. finish-IsMounted st h)
