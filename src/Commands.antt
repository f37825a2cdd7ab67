-- ===== src/Commands.antt =====
-- The commands of commands/.
pub mod Prune
