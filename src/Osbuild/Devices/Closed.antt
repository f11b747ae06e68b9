-- ===== src/Osbuild/Devices/Closed.antt =====
-- The devices that `getDevices` returns: each has its parent among them.
use mathlib.Core.Path.{subst}
use image_builder.Prelude.{
  String, ◌≡◌, refl, sym, ap, ◌∙◌, Bool, Option, none, some, List, [], ◌∷◌, ◌++◌, str_eq, eq_refl,
  Bool-cases, inl, inr, All, All-append, map,
}
use image_builder.Prelude.Result.{IfOk, IfOk-bind, IfOk-total, ◌>>=◌}
use image_builder.Dictionary.{lookup, insert, lookup-insert}
use image_builder.Disk.Entities.{
  Payload, filesystem, btrfs, volume_group, luks, PartitionTable, Partition, BtrfsSubvolume,
  LogicalVolumes, no_volumes, volume,
}
use image_builder.Disk.Walks.{
  Entity, of_table, of_partition, of_payload, of_volume, of_btrfs_subvolume, Visit, mounts_payload,
  mounts_volumes, mounts_partitions, for_each_mountable_path,
}
use image_builder.Disk.Paths.{Mountable, of_subvolume}
use image_builder.Osbuild.Devices.{
  Device, unset, loopback, luks2, lvm2_lv, Devices, device_name, devices_from, get_devices,
}

-- A device has the name.
abbrev pub InDevices : Devices → String → Type 0
InDevices devices name = (device : Device) × (lookup name devices ≡ some device)

-- A device stands on the image file or on one of the devices.
abbrev pub IsRooted : Devices → Device → Type 0
IsRooted devices unset = Unit
IsRooted devices (loopback options) = Unit
IsRooted devices (luks2 parent passphrase) = InDevices devices parent
IsRooted devices (lvm2_lv parent lv) = InDevices devices parent

abbrev pub IsClosed : Devices → Type 0
IsClosed devices =
    (name : String) (device : Device) → lookup name devices ≡ some device → IsRooted devices device

some-apart : {device : Device} → none ≡ some device → ⊥
some-apart h = cc

some-injective : {a b : Device} → some a ≡ some b → a ≡ b
some-injective h = cc

pub empty-IsClosed : IsClosed []
unfolding lookup
empty-IsClosed name device h = absurd (some-apart h)

pub IsRooted-mono :
    (ds ds' : Devices) (device : Device)
    → ((name : String) → InDevices ds name → InDevices ds' name)
    → IsRooted ds device
    → IsRooted ds' device
IsRooted-mono ds ds' unset h r = tt
IsRooted-mono ds ds' (loopback options) h r = tt
IsRooted-mono ds ds' (luks2 parent passphrase) h r = h parent r
IsRooted-mono ds ds' (lvm2_lv parent lv) h r = h parent r

pub InDevices-insert :
    (name : String) (device : Device) (ds : Devices) (k : String)
    → InDevices ds k
    → InDevices (insert name device ds) k
InDevices-insert name device ds k (d, at) = elim (Bool-cases (str_eq name k)) [
  | inl same ↦ (device, lookup-insert name k device ds ∙ rw same refl)
  | inr other ↦ (d, lookup-insert name k device ds ∙ rw other at)
]

pub InDevices-insert_self :
    (name : String) (device : Device) (ds : Devices) → InDevices (insert name device ds) name
InDevices-insert_self name device ds =
    (device, lookup-insert name name device ds ∙ rw (eq_refl name) refl)

pub insert-IsClosed :
    (name : String) (device : Device) (ds : Devices)
    → IsClosed ds
    → IsRooted ds device
    → IsClosed (insert name device ds)
insert-IsClosed name device ds closed rooted k d at = elim (Bool-cases (str_eq name k)) [
  | inl same ↦
      subst (IsRooted (insert name device ds))
        (some-injective (sym (lookup-insert name k device ds ∙ rw same refl) ∙ at))
        (IsRooted-mono ds _ device (InDevices-insert name device ds) rooted)
  | inr other ↦
      IsRooted-mono ds _ d (InDevices-insert name device ds)
        (closed k d (sym (lookup-insert name k device ds ∙ rw other refl) ∙ at))
]

-- Closed devices, and the last one among them.
abbrev pub IsChain : Devices × String → Type 0
IsChain found = IsClosed found.0 × InDevices found.0 found.1

-- The path of an entity below a partition.
abbrev pub IsBelow : List Entity → Type 0
IsBelow path =
    (pt : PartitionTable) × (part : Partition) × (rest : List Entity) × (path
      ≡ of_table pt ∷ of_partition part ∷ rest)

IsBelow-append : (path rest : List Entity) → IsBelow path → IsBelow (path ++ rest)
IsBelow-append path rest (pt, part, below, e) =
    (pt, part, below ++ rest, ap (λ path. path ++ rest) e)

abbrev pub AreBelow : List (Visit Mountable) → Type 0
AreBelow visits = All (λ (visit : Visit Mountable). IsBelow visit.1) visits

mounts_subvolumes-AreBelow :
    (path : List Entity) (svs : List BtrfsSubvolume)
    → IsBelow path
    → AreBelow (map (λ sv. (of_subvolume sv, path ++ of_btrfs_subvolume sv ∷ [])) svs)
mounts_subvolumes-AreBelow path [] below = tt
mounts_subvolumes-AreBelow path (sv ∷ svs) below =
    (IsBelow-append path _ below, mounts_subvolumes-AreBelow path svs below)

mutual
  unfolding mounts_payload

  mounts_payload-AreBelow :
      (above : List Entity) (p : Payload) → IsBelow above → AreBelow (mounts_payload above p)
  mounts_payload-AreBelow above (filesystem fs) below = (IsBelow-append above _ below, tt)
  mounts_payload-AreBelow above (btrfs b) below =
      mounts_subvolumes-AreBelow _ b.subvolumes (IsBelow-append above _ below)
  mounts_payload-AreBelow above (volume_group n d lvs) below =
      mounts_volumes-AreBelow _ lvs (IsBelow-append above _ below)
  mounts_payload-AreBelow above (luks header p) below =
      mounts_payload-AreBelow _ p (IsBelow-append above _ below)
  mounts_payload-AreBelow above _ below = tt

  mounts_volumes-AreBelow :
      (above : List Entity) (lvs : LogicalVolumes)
      → IsBelow above
      → AreBelow (mounts_volumes above lvs)
  mounts_volumes-AreBelow above no_volumes below = tt
  mounts_volumes-AreBelow above (volume n size p lvs) below =
      All-append _ _ _ (mounts_payload-AreBelow _ p (IsBelow-append above _ below))
        (mounts_volumes-AreBelow above lvs below)

mounts_partitions-AreBelow :
    (pt : PartitionTable) (parts : List Partition)
    → AreBelow (mounts_partitions (of_table pt ∷ []) parts)
unfolding mounts_partitions
mounts_partitions-AreBelow pt [] = tt
mounts_partitions-AreBelow pt (part ∷ parts) =
    All-append _ _ _ (mounts_payload-AreBelow _ part.payload (pt, part, [], refl))
      (mounts_partitions-AreBelow pt parts)

pub for_each_mountable_path-AreBelow : (pt : PartitionTable) → AreBelow (for_each_mountable_path pt)
unfolding for_each_mountable_path
for_each_mountable_path-AreBelow pt = mounts_partitions-AreBelow pt pt.partitions

module _ (E : Type 0) (filename : String) (lock : Bool) where
  -- A step of the loop that adds a device on the last one.
  adds-IsChain :
      (p : Payload) (device : Device) (pt : Option PartitionTable) (ds : Devices)
      (path : List Entity)
      → IsClosed ds
      → IsRooted ds device
      → ((ds' : Devices) (name : String)
          → IsClosed ds'
          → InDevices ds' name
          → IfOk IsChain (devices_from {E = E} filename lock pt ds' name path))
      → IfOk IsChain (
          device_name {E = E} p >>= λ name.
          devices_from filename lock pt (insert name device ds) name path)
  adds-IsChain p device pt ds path closed rooted rest =
      IfOk-bind (λ name. Unit {0}) IsChain (device_name p)
        (λ name. devices_from filename lock pt (insert name device ds) name path)
        (IfOk-total (λ name. Unit {0}) (device_name p) (λ name. tt))
        (λ name h.
          rest (insert name device ds) name (insert-IsClosed name device ds closed rooted)
            (InDevices-insert_self name device ds))

  devices_from-IsChain :
      (pt : Option PartitionTable) (ds : Devices) (parent : String) (path : List Entity)
      → IsClosed ds
      → InDevices ds parent
      → IfOk IsChain (devices_from {E = E} filename lock pt ds parent path)
  unfolding devices_from
  devices_from-IsChain pt ds parent [] closed last = (closed, last)
  devices_from-IsChain pt ds parent (of_table table ∷ path) closed last =
      devices_from-IsChain (some table) ds parent path closed last
  devices_from-IsChain none ds parent (of_partition part ∷ path) closed last = tt
  devices_from-IsChain (some pt) ds parent (of_partition part ∷ path) closed last =
      adds-IsChain part.payload _ (some pt) ds path closed tt
        (λ ds' name. devices_from-IsChain (some pt) ds' name path)
  devices_from-IsChain pt ds parent (of_payload (luks header p) ∷ path) closed last =
      adds-IsChain p (luks2 parent header.passphrase) pt ds path closed last
        (λ ds' name. devices_from-IsChain pt ds' name path)
  devices_from-IsChain pt ds parent (of_volume v size p ∷ path) closed last =
      adds-IsChain p (lvm2_lv parent v) pt ds path closed last
        (λ ds' name. devices_from-IsChain pt ds' name path)
  devices_from-IsChain pt ds parent (of_payload q ∷ path) closed last =
      devices_from-IsChain pt ds parent path closed last
  devices_from-IsChain pt ds parent (of_btrfs_subvolume sv ∷ path) closed last =
      devices_from-IsChain pt ds parent path closed last

  from_partition-IsChain :
      (pt : PartitionTable) (part : Partition) (path : List Entity)
      → IfOk IsChain (get_devices {E = E} filename lock (of_table pt ∷ of_partition part ∷ path))
  unfolding get_devices devices_from
  from_partition-IsChain pt part path =
      adds-IsChain part.payload _ (some pt) [] path empty-IsClosed tt
        (λ ds' name. devices_from-IsChain (some pt) ds' name path)

  pub get_devices-IsChain :
      (path : List Entity) → IsBelow path → IfOk IsChain (get_devices {E = E} filename lock path)
  get_devices-IsChain path (pt, part, rest, e) = rw e (from_partition-IsChain pt part rest)
