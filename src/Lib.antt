-- ===== src/Lib.antt =====
-- A model of the disks of image-builder: the partition tables of pkg/disk and the stages, devices and
-- mounts that pkg/osbuild makes of them; with its path policies (pkg/pathpolicy), distribution
-- identifiers (pkg/distro, pkg/distroidparser) and solver caches (pkg/depsolvednf), and what is proved
-- of them.
--
-- image-builder makes disk images of operating systems. The package pkg/disk holds the tree of disk
-- entities (a partition table, its partitions, and in them filesystems, swap, raw data, Btrfs volumes
-- with subvolumes, LVM volume groups with logical volumes, and LUKS containers around any of these)
-- and the operations that make the table of an image from a base table or from the customizations of
-- a blueprint. pkg/osbuild turns the table into the stages that write the disk, the devices and mounts
-- to reach its filesystems, the lines of /etc/fstab and the options of the kernel.
--
-- The parts and the files that model them:
--   Prelude and its children: the names of the libraries, tests on numbers, lists, and `Result`, the
--     outcome of a Go function (a value, a returned error or a panic).
--   Word: 64-bit words, the arithmetic of `uint64` with its wrap-around.
--   Text, Text/Filepath, Text/Decimal: the functions of Go's strings, fmt, strconv and path/filepath
--     that the code calls, with proofs about them in Text/Splits and Text/Decimal/RoundTrip.
--   Dictionary: Go's maps with text keys. Sorting: slices.SortFunc as an insertion sort, which is what
--     Go does up to twelve elements, and its order of texts.
--   Disk/Entities: the entity types. A nil payload is `no_payload`; a slice of logical volumes is the
--     data type `LogicalVolumes`, since a volume holds a payload again.
--   Disk/Errors: the error messages; a constructor with a field wraps another error.
--   Disk/Types: FSType, PartitionTableType and getPartitionTypeIDfor (pkg/disk/disk.go), and the
--     architectures of pkg/arch/arch.go.
--   Disk/Align: grainSize, AlignUp, HeaderSize and the sector arithmetic of
--     pkg/disk/partition_table.go, alignUp of pkg/disk/lvm.go.
--   Disk/Paths: entityPath, ContainsMountpoint, FindMountable, ForEachMountable. Where the code
--     keeps a list of pointers from a mountable up to the table, the model keeps the child indexes
--     from the table down (`EntityPath`), and an operation on the pointers is a function of the table
--     and the path.
--   Disk/Sizes: MetadataSize and minSize of the containers, fitTo of pkg/disk/partition.go.
--   Disk/Resize: alignEntityBranch, resizeEntityBranch, the EnsureSize methods, GetMountpointSize.
--   Disk/Layout: relayout, growRootToFillDisk and sortPartitions.
--   Disk/Names: genUniqueString, lvname and genLVName.
--   Disk/Create: CreateMountpoint of each container and CreateLogicalVolume.
--   Disk/Customize: createFilesystem, clampFSSize and applyCustomization.
--   Disk/Modes: ensureLVM and ensureBtrfs.
--   Disk/Directories: findDirectoryEntityPath and EnsureDirectorySizes.
--   Disk/Clone: the Clone methods. Disk/Identify: GenerateUUIDs and the GenUUID methods.
--   Disk/Features: features and GetBuildPackages.
--   Disk/Custom, Disk/Custom/Partitions, Disk/Custom/Boot: the parts of NewCustomPartitionTable.
--   Disk/Tables, Disk/Tables/Customized: NewPartitionTable and NewCustomPartitionTable, which call
--     all of the above in the order of the code.
--   PathPolicy: NewPathPolicies and Check of pkg/pathpolicy/path_policy.go. PathPolicy/Trie: the trie
--     of pkg/pathpolicy/path_trie.go; a pointer to a node is the node and the trie with it replaced.
--   Disk/Walks: ForEachEntity, ForEachMountable and ForEachFSTabEntity as the lists of the calls that
--     they make, with the paths of entities from the table down.
--   Osbuild/Devices: getDevices and the device types (pkg/osbuild/device.go). Osbuild/Mounts:
--     genOsbuildMount and GenMountsDevicesFromPT.
--   Osbuild/Stages: the stage types for disks, with the checks of their constructors.
--     Osbuild/Generate: GenDeviceCreationStages, GenDeviceFinishStages and GenFsStages, in the order in
--     which ForEachEntity calls back. Osbuild/Prepare: GenImagePrepareStages.
--   Osbuild/Fstab: NewFSTabStageOptions. Osbuild/KernelOptions: GenImageKernelOptions.
--   Distro: ParseID and String of pkg/distro/id.go, and the parser of pkg/distroidparser.
--   ResultCache: dnfCache of pkg/depsolvednf/cache.go. RpmCache: its rpmCache, with updateInfo and
--     shrink; RpmCache/Upkeep: touchRepo, dirSize and CleanupOldCacheDirs. The caches have locks, which
--     make the calls a sequence.
--   Disk/Tests, Osbuild/Tests and the other modules called Tests: concrete tables, texts and caches, and
--     the theorems at them.
-- The children of a module hold the proofs about it.
--
-- State is passed explicitly: an operation that changes the table returns the new one. Loops are
-- recursive on the list or the tree that the code walks; the loop of genUniqueString has its hundred
-- rounds as its bound, and no other bound or fuel is needed. Sizes are natural numbers below 2 ^ 64,
-- and the additions that can wrap around do.
--
-- Parameters stand for what is not code of the repository: the bytes of math/rand and the text of a
-- UUID (`Random`), the canonical text of a UUID that github.com/google/uuid parses (`canonical`), the
-- validations of github.com/osbuild/blueprint (`Validators`), the registered parsers of identifiers, the
-- order in which Go ranges over a map (`range`, of which `RangesOver` says that it has each entry and no
-- other), the patterns of github.com/gobwas/glob, the listing of a cache directory and which paths can be
-- removed or touched, and the time of a call.
--
-- Not modelled: the JSON and YAML forms of the entities, ESPSize and FindMountableOnPlain of pkg/disk,
-- the stages of pkg/osbuild that do not write disks, and the other packages. Those are mostly data,
-- serialisation and I/O.
mod Prelude
pub mod Word
pub mod Text
pub mod Dictionary
pub mod Sorting
pub mod Disk
pub mod Osbuild
pub mod PathPolicy
pub mod Distro
pub mod ResultCache
pub mod RpmCache
