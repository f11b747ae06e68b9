-- ===== src/Disk/Errors.antt =====
-- The errors that pkg/disk returns, one constructor to a message. The arguments that a message
-- formats are left out, and a constructor with a field is a message that wraps another (`%w`).
pub data Error : Type 0 where
  unsupported_mode_for_lvm : Error
  unsupported_mode : Error
  maximum_partitions : Error
  btrfs_under_lvm : Error
  only_btrfs_mountpoints : Error
  volume_without_name : Error
  name_collision : Error
  lvm_without_boot : Error
  unsupported_parent_lvm : Error
  unsupported_parent_btrfs : Error
  no_root_mountpoint : Error
  root_not_mountable : Error
  cannot_find_mountpoint : Error
  subvolume_without_name : Error
  unknown_partition_type : Error
  architecture_unset : Error
  unsupported_architecture : Error
  unknown_partition_table : Error
  unknown_filesystem_type : Error
  no_filesystem_type : Error
  unknown_boot_mode : Error
  invalid_table_type : Error
  invalid_partition_type : Error
  too_many_dos_partitions : Error
  validation : Error
  creating_volume : Error → Error
  creating_boot : Error → Error
  converting_to_btrfs : Error → Error
  creating_root : Error → Error
  creating_partition : Error → Error
  generating_table : Error → Error
