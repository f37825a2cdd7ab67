-- ===== src/Tq.antt =====
-- tq/: the queue that moves objects to and from a server.
pub mod Retries
pub mod Batch
pub mod Relations
pub mod Queue
pub mod Collector
mod Tests
