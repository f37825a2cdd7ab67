-- ===== src/Locking.antt =====
-- locking/: the locks on files that the client remembers.
pub mod Cache
