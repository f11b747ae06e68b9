-- ===== src/Disk.antt =====
-- pkg/disk: the tree of disk entities, and the operations on it. Each child is about one part.
pub mod Types
pub mod Errors
pub mod Entities
pub mod Align
pub mod Paths
pub mod Walks
pub mod Sizes
pub mod Resize
pub mod Layout
pub mod Names
pub mod Create
pub mod Clone
pub mod Features
pub mod Modes
pub mod Directories
pub mod Custom
pub mod Tables
pub mod Tests
pub mod Identify
pub mod Customize
