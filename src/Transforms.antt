-- ===== src/Transforms.antt =====
-- The passes of lib/Transforms that are modelled.
pub mod Tuples
pub mod Tiling
pub mod Reorder
pub mod Extraction
pub mod Parallel
pub mod Removal
pub mod Launching
pub mod Fields
pub mod Copying
pub mod Merging
