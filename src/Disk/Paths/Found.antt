-- ===== src/Disk/Paths/Found.antt =====
-- What `entityPath` and `FindMountable` find, against the list of all mountables.
use mathlib.Core.Option
use image_builder.Prelude.{
  ℕ, String, ◌≡◌, refl, ◌∙◌, Bool, true, false, Option, none, some, List, [], ◌∷◌, ◌++◌, map, arith,
  str_eq, or_else, if◌then◌else◌, get_elem?,
}
use image_builder.Disk.Entities.{
  Filesystem, BtrfsSubvolume, Btrfs, LuksHeader, Payload, no_payload, filesystem, swap, raw, btrfs,
  volume_group, luks, LogicalVolumes, no_volumes, volume, Partition, PartitionTable,
}
use image_builder.Disk.Paths.{
  EntityPath, first_path, path_subvolumes, through, path_payload, path_volumes, path_partitions,
  entity_path, is_some, contains_mountpoint, Mountable, of_filesystem, of_subvolume, get_mountpoint,
  mountables_payload, mountables_volumes, mountables_partitions, for_each_mountable,
  mountable_payload, mountable_volumes, mountable_partitions, find_mountable,
}

-- The first mountable of a list that has the mountpoint.
abbrev pub first_with : String → List Mountable → Option Mountable
first_with target [] = none
first_with target (m ∷ ms) =
    if str_eq target (get_mountpoint m) then some m else first_with target ms

first_with-append :
    (target : String) (xs ys : List Mountable)
    → first_with target (xs ++ ys) ≡ or_else (first_with target xs) (first_with target ys)
first_with-append target [] ys = refl
first_with-append target (x ∷ xs) ys = ground (arith, first_with-append target xs ys)

abbrev then_at : Option EntityPath → (EntityPath → Option Mountable) → Option Mountable
then_at none look = none
then_at (some path) look = look path

abbrev look_subvolumes : List BtrfsSubvolume → EntityPath → Option Mountable
look_subvolumes svs [] = none
look_subvolumes svs (i ∷ []) = Option.map of_subvolume (get_elem? svs i)
look_subvolumes svs (i ∷ j ∷ path) = none

abbrev look_volumes : LogicalVolumes → EntityPath → Option Mountable
look_volumes lvs [] = none
look_volumes lvs (i ∷ path) = mountable_volumes lvs i path

-- A path and a search of a list agree: both fail, or the path leads to what the search finds.
record Agrees (path : Option EntityPath) (look : EntityPath → Option Mountable)
    (found : Option Mountable) : Type 0 where
  value : then_at path look ≡ found
  same : is_some path ≡ is_some found

-- The loop step: a path through the first child, or else the path through a later one.
subvolumes_step :
    (sv : BtrfsSubvolume) (svs : List BtrfsSubvolume) (b : Bool) (later : Option EntityPath)
    (found : Option Mountable)
    → Agrees later (look_subvolumes svs) found
    → Agrees
        (first_path (if b then some [] else none) later)
        (look_subvolumes (sv ∷ svs))
        (if b then some (of_subvolume sv) else found)
unfolding first_path
subvolumes_step sv svs true later found h = record { value = refl; same = refl }
subvolumes_step sv svs false none found h = record { value = h.value; same = h.same }
subvolumes_step sv svs false (some []) none h = cc h.same
subvolumes_step sv svs false (some []) (some m) h = cc h.value
subvolumes_step sv svs false (some (i ∷ [])) found h = record { value = h.value; same = h.same }
subvolumes_step sv svs false (some (i ∷ j ∷ path)) found h = record {
  value = h.value;
  same = h.same;
}

volumes_step :
    (n : String) (size : ℕ) (p : Payload) (lvs : LogicalVolumes) (here later : Option EntityPath)
    (found found' : Option Mountable)
    → Agrees here (mountable_payload p) found
    → Agrees later (look_volumes lvs) found'
    → Agrees
        (first_path (through here) later)
        (look_volumes (volume n size p lvs))
        (or_else found found')
unfolding first_path through mountable_payload
volumes_step n size p lvs (some path) later (some m) found' h k = record {
  value = h.value;
  same = refl;
}
volumes_step n size p lvs (some path) later none found' h k = cc h.same
volumes_step n size p lvs none later (some m) found' h k = cc h.same
volumes_step n size p lvs none none none found' h k = record { value = k.value; same = k.same }
volumes_step n size p lvs none (some []) none none h k = cc k.same
volumes_step n size p lvs none (some []) none (some m) h k = cc k.value
volumes_step n size p lvs none (some (i ∷ path)) none found' h k = record {
  value = k.value;
  same = k.same;
}

mountable_partitions-nil : (parts : List Partition) → mountable_partitions parts [] ≡ none
unfolding mountable_partitions
mountable_partitions-nil [] = refl
mountable_partitions-nil (part ∷ parts) = refl

partitions_step :
    (part : Partition) (parts : List Partition) (here later : Option EntityPath)
    (found found' : Option Mountable)
    → Agrees here (mountable_payload part.payload) found
    → Agrees later (mountable_partitions parts) found'
    → Agrees
        (first_path (through here) later)
        (mountable_partitions (part ∷ parts))
        (or_else found found')
unfolding first_path through mountable_partitions
partitions_step part parts (some path) later (some m) found' h k = record {
  value = h.value;
  same = refl;
}
partitions_step part parts (some path) later none found' h k = cc h.same
partitions_step part parts none later (some m) found' h k = cc h.same
partitions_step part parts none none none found' h k = record { value = k.value; same = k.same }
partitions_step part parts none (some []) none none h k = cc k.same
partitions_step part parts none (some []) none (some m) h k =
    cc (k.value, mountable_partitions-nil parts)
partitions_step part parts none (some (i ∷ path)) none found' h k = record {
  value = k.value;
  same = k.same;
}

subvolumes_agree :
    (svs : List BtrfsSubvolume) (target : String)
    → Agrees
        (path_subvolumes svs target)
        (look_subvolumes svs)
        (first_with target (map of_subvolume svs))
unfolding path_subvolumes get_mountpoint
subvolumes_agree [] target = record { value = refl; same = refl }
subvolumes_agree (sv ∷ svs) target =
    subvolumes_step sv svs (str_eq target sv.mountpoint) (path_subvolumes svs target)
      (first_with target (map of_subvolume svs)) (subvolumes_agree svs target)

filesystem-Agrees :
    (fs : Filesystem) (b : Bool)
    → Agrees
        (if b then some [] else none)
        (mountable_payload (filesystem fs))
        (if b then some (of_filesystem fs) else none)
unfolding mountable_payload
filesystem-Agrees fs true = record { value = refl; same = refl }
filesystem-Agrees fs false = record { value = refl; same = refl }

luks-Agrees :
    (header : LuksHeader) (p : Payload) (path : Option EntityPath) (found : Option Mountable)
    → Agrees path (mountable_payload p) found
    → Agrees (through path) (mountable_payload (luks header p)) found
unfolding mountable_payload through
luks-Agrees header p none found h = record { value = h.value; same = h.same }
luks-Agrees header p (some path) found h = record { value = h.value; same = h.same }

btrfs-Agrees :
    (b : Btrfs) (path : Option EntityPath) (found : Option Mountable)
    → Agrees path (look_subvolumes b.subvolumes) found
    → Agrees path (mountable_payload (btrfs b)) found
unfolding mountable_payload
btrfs-Agrees b none found h = record { value = h.value; same = h.same }
btrfs-Agrees b (some []) found h = record { value = h.value; same = h.same }
btrfs-Agrees b (some (i ∷ [])) found h = record { value = h.value; same = h.same }
btrfs-Agrees b (some (i ∷ j ∷ path)) found h = record { value = h.value; same = h.same }

group-Agrees :
    (n d : String) (lvs : LogicalVolumes) (path : Option EntityPath) (found : Option Mountable)
    → Agrees path (look_volumes lvs) found
    → Agrees path (mountable_payload (volume_group n d lvs)) found
unfolding mountable_payload
group-Agrees n d lvs none found h = record { value = h.value; same = h.same }
group-Agrees n d lvs (some []) found h = record { value = h.value; same = h.same }
group-Agrees n d lvs (some (i ∷ path)) found h = record { value = h.value; same = h.same }

mutual
  unfolding path_payload mountables_payload get_mountpoint

  payload-Agrees :
      (p : Payload) (target : String)
      → Agrees
          (path_payload p target)
          (mountable_payload p)
          (first_with target (mountables_payload p))
  payload-Agrees no_payload target = record { value = refl; same = refl }
  payload-Agrees (filesystem fs) target = filesystem-Agrees fs (str_eq target fs.mountpoint)
  payload-Agrees (swap s) target = record { value = refl; same = refl }
  payload-Agrees (raw r) target = record { value = refl; same = refl }
  payload-Agrees (btrfs b) target = btrfs-Agrees b _ _ (subvolumes_agree b.subvolumes target)
  payload-Agrees (volume_group n d lvs) target = group-Agrees n d lvs _ _ (volumes_agree lvs target)
  payload-Agrees (luks header p) target = luks-Agrees header p _ _ (payload-Agrees p target)

  volumes_agree :
      (lvs : LogicalVolumes) (target : String)
      → Agrees
          (path_volumes lvs target)
          (look_volumes lvs)
          (first_with target (mountables_volumes lvs))
  volumes_agree no_volumes target = record { value = refl; same = refl }
  volumes_agree (volume n size p lvs) target =
      rw (first_with-append target (mountables_payload p) (mountables_volumes lvs)) (
        volumes_step n size p lvs (path_payload p target) (path_volumes lvs target) _ _
          (payload-Agrees p target) (volumes_agree lvs target))

partitions_agree :
    (parts : List Partition) (target : String)
    → Agrees
        (path_partitions parts target)
        (mountable_partitions parts)
        (first_with target (mountables_partitions parts))
unfolding path_partitions mountables_partitions
partitions_agree [] target = record { value = refl; same = refl }
partitions_agree (part ∷ parts) target =
    rw (first_with-append target (mountables_payload part.payload) (mountables_partitions parts)) (
      partitions_step part parts (path_payload part.payload target) (path_partitions parts target) _
        _ (payload-Agrees part.payload target) (partitions_agree parts target))

find_mountable-then_at :
    (pt : PartitionTable) (target : String)
    → find_mountable pt target
      ≡ then_at (entity_path pt target) (mountable_partitions pt.partitions)
unfolding find_mountable
find_mountable-then_at pt target = ground arith

-- `FindMountable` returns the first mountable, in the order of `ForEachMountable`, that has the
-- mountpoint, and nil exactly when no mountable has it.
pub find_mountable-eq-first :
    (pt : PartitionTable) (target : String)
    → find_mountable pt target ≡ first_with target (for_each_mountable pt)
unfolding entity_path for_each_mountable
find_mountable-eq-first pt target =
    find_mountable-then_at pt target ∙ (partitions_agree pt.partitions target).value

-- `ContainsMountpoint` holds exactly when some mountable of the table has the mountpoint.
pub contains_mountpoint-eq :
    (pt : PartitionTable) (target : String)
    → contains_mountpoint pt target ≡ is_some (first_with target (for_each_mountable pt))
unfolding contains_mountpoint entity_path for_each_mountable
contains_mountpoint-eq pt target = (partitions_agree pt.partitions target).same
