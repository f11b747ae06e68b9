-- ===== src/Disk/Resize/Ends.antt =====
-- The paths of `entityPath` end at mountables.
use mathlib.Core.Path.{subst}
use image_builder.Prelude.{
  ℕ, zero, suc, ◌<◌, length, arith, String, ◌≡◌, Bool, true, false, Option, none, some, List, [],
  ◌∷◌, str_eq, if◌then◌else◌,
}
use image_builder.Disk.Entities.{
  BtrfsSubvolume, Btrfs, LuksHeader, Payload, no_payload, filesystem, swap, raw, btrfs,
  volume_group, luks, LogicalVolumes, no_volumes, volume, Partition,
}
use image_builder.Disk.Paths.{
  EntityPath, first_path, through, path_subvolumes, path_payload, path_volumes, path_partitions,
}
use image_builder.Disk.Resize.Passes.{Ends, EndsVolumes}

abbrev EndsIf : Payload → Option EntityPath → Type 0
EndsIf p none = Unit
EndsIf p (some path) = Ends p path

abbrev EndsVolumesIf : LogicalVolumes → Option EntityPath → Type 0
EndsVolumesIf lvs none = Unit
EndsVolumesIf lvs (some []) = ⊥
EndsVolumesIf lvs (some (i ∷ path)) = EndsVolumes lvs i path

-- The path through the partitions of a table goes on below one of them to a mountable or a volume,
-- or ends at the partition.
abbrev pub EndsPartitions : List Partition → EntityPath → Type 0
EndsPartitions [] path = ⊥
EndsPartitions (part ∷ parts) (zero ∷ []) = Unit
EndsPartitions (part ∷ parts) (zero ∷ j ∷ path) = Ends part.payload path
EndsPartitions (part ∷ parts) (suc i ∷ path) = EndsPartitions parts (i ∷ path)
EndsPartitions (part ∷ parts) [] = ⊥

abbrev EndsPartitionsIf : List Partition → Option EntityPath → Type 0
EndsPartitionsIf parts none = Unit
EndsPartitionsIf parts (some path) = EndsPartitions parts path

luks_ends :
    (header : LuksHeader) (p : Payload) (here : Option EntityPath)
    → EndsIf p here
    → EndsIf (luks header p) (through here)
unfolding through
luks_ends header p none h = tt
luks_ends header p (some path) h = h

volumes_end :
    (n : String) (size : ℕ) (p : Payload) (lvs : LogicalVolumes) (here later : Option EntityPath)
    → EndsIf p here
    → EndsVolumesIf lvs later
    → EndsVolumesIf (volume n size p lvs) (first_path (through here) later)
unfolding first_path through
volumes_end n size p lvs (some path) later h k = h
volumes_end n size p lvs none none h k = tt
volumes_end n size p lvs none (some []) h k = absurd k
volumes_end n size p lvs none (some (i ∷ path)) h k = k

not_at_table : (parts : List Partition) → EndsPartitions parts [] → ⊥
not_at_table [] h = h
not_at_table (part ∷ parts) h = h

partitions_end :
    (part : Partition) (parts : List Partition) (here later : Option EntityPath)
    → EndsIf part.payload here
    → EndsPartitionsIf parts later
    → EndsPartitionsIf (part ∷ parts) (first_path (through here) later)
unfolding first_path through
partitions_end part parts (some path) later h k = h
partitions_end part parts none none h k = tt
partitions_end part parts none (some []) h k = absurd (not_at_table parts k)
partitions_end part parts none (some (i ∷ path)) h k = k

group_ends :
    (n d : String) (lvs : LogicalVolumes) (path : Option EntityPath)
    → EndsVolumesIf lvs path
    → EndsIf (volume_group n d lvs) path
group_ends n d lvs none h = tt
group_ends n d lvs (some []) h = absurd h
group_ends n d lvs (some (i ∷ path)) h = h

EndsIf-if : (p : Payload) (b : Bool) → Ends p [] → EndsIf p (if b then some [] else none)
EndsIf-if p true h = h
EndsIf-if p false h = tt

abbrev EndsSubvolumesIf : List BtrfsSubvolume → Option EntityPath → Type 0
EndsSubvolumesIf svs none = Unit
EndsSubvolumesIf svs (some []) = ⊥
EndsSubvolumesIf svs (some (i ∷ path)) = i < length svs

subvolumes_end :
    (sv : BtrfsSubvolume) (svs : List BtrfsSubvolume) (b : Bool) (later : Option EntityPath)
    → EndsSubvolumesIf svs later
    → EndsSubvolumesIf (sv ∷ svs) (first_path (if b then some [] else none) later)
unfolding first_path
subvolumes_end sv svs true later h = omega arith
subvolumes_end sv svs false none h = tt
subvolumes_end sv svs false (some []) h = absurd h
subvolumes_end sv svs false (some (i ∷ path)) h = omega arith

path_subvolumes-Ends :
    (svs : List BtrfsSubvolume) (target : String)
    → EndsSubvolumesIf svs (path_subvolumes svs target)
unfolding path_subvolumes
path_subvolumes-Ends [] target = tt
path_subvolumes-Ends (sv ∷ svs) target =
    subvolumes_end sv svs (str_eq target sv.mountpoint) (path_subvolumes svs target)
      (path_subvolumes-Ends svs target)

btrfs_ends :
    (b : Btrfs) (path : Option EntityPath)
    → EndsSubvolumesIf b.subvolumes path
    → EndsIf (btrfs b) path
btrfs_ends b none h = tt
btrfs_ends b (some []) h = absurd h
btrfs_ends b (some (i ∷ path)) h = h

mutual
  unfolding path_payload

  path_payload-Ends : (p : Payload) (target : String) → EndsIf p (path_payload p target)
  path_payload-Ends no_payload target = tt
  path_payload-Ends (filesystem fs) target =
      EndsIf-if (filesystem fs) (str_eq target fs.mountpoint) tt
  path_payload-Ends (swap s) target = tt
  path_payload-Ends (raw r) target = tt
  path_payload-Ends (btrfs b) target =
      btrfs_ends b (path_subvolumes b.subvolumes target) (path_subvolumes-Ends b.subvolumes target)
  path_payload-Ends (volume_group n d lvs) target =
      group_ends n d lvs (path_volumes lvs target) (path_volumes-Ends lvs target)
  path_payload-Ends (luks header p) target =
      luks_ends header p (path_payload p target) (path_payload-Ends p target)

  path_volumes-Ends :
      (lvs : LogicalVolumes) (target : String) → EndsVolumesIf lvs (path_volumes lvs target)
  path_volumes-Ends no_volumes target = tt
  path_volumes-Ends (volume n size p lvs) target =
      volumes_end n size p lvs (path_payload p target) (path_volumes lvs target)
        (path_payload-Ends p target) (path_volumes-Ends lvs target)

path_partitions-EndsIf :
    (parts : List Partition) (target : String)
    → EndsPartitionsIf parts (path_partitions parts target)
unfolding path_partitions
path_partitions-EndsIf [] target = tt
path_partitions-EndsIf (part ∷ parts) target =
    partitions_end part parts (path_payload part.payload target) (path_partitions parts target)
      (path_payload-Ends part.payload target) (path_partitions-EndsIf parts target)

pub path_partitions-EndsPartitions :
    (parts : List Partition) (target : String) (path : EntityPath)
    → path_partitions parts target ≡ some path
    → EndsPartitions parts path
path_partitions-EndsPartitions parts target path e =
    subst (EndsPartitionsIf parts) e (path_partitions-EndsIf parts target)
