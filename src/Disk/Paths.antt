-- ===== src/Disk/Paths.antt =====
-- The walks over the entity tree of partition_table.go: `entityPath`, `ForEachMountable` and what
-- is read off a path. The code's path is a slice of pointers, the mountable first and the starting
-- entity last. Here it is the list of child indices (`GetChild`) from the starting entity down, so
-- that the entities of the slice are those met on the way.
pub mod Found
use mathlib.Core.Option
use image_builder.Prelude.{
  ℕ, zero, suc, ◌+◌, String, ◌≡◌, refl, ◌||◌, Bool, true, false, Option, none, some, List, [], ◌∷◌,
  ◌++◌, map, str_eq, if◌then◌else◌, get_elem?,
}
use image_builder.Disk.Entities.{
  Filesystem, BtrfsSubvolume, Btrfs, Payload, no_payload, filesystem, swap, raw, btrfs,
  volume_group, luks, LogicalVolumes, no_volumes, volume, Partition, PartitionTable,
}

abbrev pub EntityPath : Type 0
EntityPath = List ℕ

abbrev pub is_some {ℓ} : {A : Type ℓ} → Option A → Bool
is_some none = false
is_some (some a) = true

-- The loop over the children: the path through the first child, or else one through a later child.
unfoldable pub first_path : Option EntityPath → Option EntityPath → Option EntityPath
first_path (some path) later = some (0 ∷ path)
first_path none none = none
first_path none (some []) = some []
first_path none (some (i ∷ path)) = some (suc i ∷ path)

pub is_some-first_path :
    (a b : Option EntityPath) → is_some (first_path a b) ≡ (is_some a || is_some b)
unfolding first_path
is_some-first_path (some path) b = refl
is_some-first_path none none = refl
is_some-first_path none (some []) = refl
is_some-first_path none (some (i ∷ path)) = refl

unfoldable pub path_subvolumes : List BtrfsSubvolume → String → Option EntityPath
unfolding first_path
path_subvolumes [] target = none
path_subvolumes (sv ∷ svs) target =
    first_path (if str_eq target sv.mountpoint then some [] else none) (path_subvolumes svs target)

-- A container of one child: the path goes through child 0.
unfoldable pub through : Option EntityPath → Option EntityPath
through = Option.map (λ path. 0 ∷ path)

pub is_some-through : (a : Option EntityPath) → is_some (through a) ≡ is_some a
unfolding through
is_some-through none = refl
is_some-through (some path) = refl

unfoldable mutual
  pub path_payload : Payload → String → Option EntityPath
  path_payload no_payload target = none
  path_payload (filesystem fs) target = if str_eq target fs.mountpoint then some [] else none
  path_payload (swap s) target = none
  path_payload (raw r) target = none
  path_payload (btrfs b) target = path_subvolumes b.subvolumes target
  path_payload (volume_group n d lvs) target = path_volumes lvs target
  path_payload (luks header p) target = through (path_payload p target)

  pub path_volumes : LogicalVolumes → String → Option EntityPath
  path_volumes no_volumes target = none
  path_volumes (volume n size p lvs) target =
      first_path (through (path_payload p target)) (path_volumes lvs target)

unfoldable pub path_partition : Partition → String → Option EntityPath
unfolding path_payload through
path_partition part target = through (path_payload part.payload target)

unfoldable pub path_partitions : List Partition → String → Option EntityPath
unfolding path_partition first_path
path_partitions [] target = none
path_partitions (part ∷ parts) target =
    first_path (path_partition part target) (path_partitions parts target)

-- `entityPath(pt, target)`
unfoldable pub entity_path : PartitionTable → String → Option EntityPath
unfolding path_partitions
entity_path pt target = path_partitions pt.partitions target

unfoldable pub contains_mountpoint : PartitionTable → String → Bool
contains_mountpoint pt mountpoint = is_some (entity_path pt mountpoint)

-- The entities that implement `Mountable`.
pub data Mountable : Type 0 where
  of_filesystem : Filesystem → Mountable
  of_subvolume : BtrfsSubvolume → Mountable

unfoldable pub get_mountpoint : Mountable → String
get_mountpoint (of_filesystem fs) = fs.mountpoint
get_mountpoint (of_subvolume sv) = sv.mountpoint

-- The mountables in the order in which `ForEachMountable` calls back.
unfoldable mutual
  pub mountables_payload : Payload → List Mountable
  mountables_payload no_payload = []
  mountables_payload (filesystem fs) = of_filesystem fs ∷ []
  mountables_payload (swap s) = []
  mountables_payload (raw r) = []
  mountables_payload (btrfs b) = map of_subvolume b.subvolumes
  mountables_payload (volume_group n d lvs) = mountables_volumes lvs
  mountables_payload (luks header p) = mountables_payload p

  pub mountables_volumes : LogicalVolumes → List Mountable
  mountables_volumes no_volumes = []
  mountables_volumes (volume n size p lvs) = mountables_payload p ++ mountables_volumes lvs

unfoldable pub mountables_partitions : List Partition → List Mountable
unfolding mountables_payload
mountables_partitions [] = []
mountables_partitions (part ∷ parts) =
    mountables_payload part.payload ++ mountables_partitions parts

unfoldable pub for_each_mountable : PartitionTable → List Mountable
unfolding mountables_partitions
for_each_mountable pt = mountables_partitions pt.partitions

-- The mountable at the end of a path, `path[0].(Mountable)` of the code.
unfoldable mutual
  pub mountable_payload : Payload → EntityPath → Option Mountable
  mountable_payload (filesystem fs) [] = some (of_filesystem fs)
  mountable_payload (btrfs b) (i ∷ []) = Option.map of_subvolume (get_elem? b.subvolumes i)
  mountable_payload (volume_group n d lvs) (i ∷ path) = mountable_volumes lvs i path
  mountable_payload (luks header p) (zero ∷ path) = mountable_payload p path
  mountable_payload _ _ = none

  pub mountable_volumes : LogicalVolumes → ℕ → EntityPath → Option Mountable
  mountable_volumes no_volumes i path = none
  mountable_volumes (volume n size p lvs) zero (zero ∷ path) = mountable_payload p path
  mountable_volumes (volume n size p lvs) zero _ = none
  mountable_volumes (volume n size p lvs) (suc i) path = mountable_volumes lvs i path

unfoldable pub mountable_partitions : List Partition → EntityPath → Option Mountable
unfolding mountable_payload
mountable_partitions [] _ = none
mountable_partitions (part ∷ parts) (zero ∷ zero ∷ path) = mountable_payload part.payload path
mountable_partitions (part ∷ parts) (suc i ∷ path) = mountable_partitions parts (i ∷ path)
mountable_partitions _ _ = none

-- `FindMountable`: the mountable with the given mountpoint, `none` for nil.
unfoldable pub find_mountable : PartitionTable → String → Option Mountable
unfolding mountable_partitions
find_mountable pt mountpoint = elim (entity_path pt mountpoint) [
  | none ↦ none
  | some path ↦ mountable_partitions pt.partitions path
]
