-- ===== src/Osbuild.antt =====
-- pkg/osbuild: the stages, devices and mounts that write a partition table to a disk.
pub mod Devices
pub mod Mounts
pub mod Stages
pub mod Generate
pub mod Prepare
pub mod Fstab
pub mod KernelOptions
mod Tests
