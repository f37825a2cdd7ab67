-- ===== src/Tools.antt =====
-- The containers of tools/.
pub mod OrderedSet
pub mod StringSet
pub mod KvStore
