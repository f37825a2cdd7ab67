-- ===== src/Lfs.antt =====
-- The objects of lfs/.
pub mod Pointer
pub mod DiffIndex
pub mod GitFilter
